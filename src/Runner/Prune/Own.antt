-- ===== src/Runner/Prune/Own.antt =====
-- Retention of one job: what it never deletes.
use cs_backup_helper.Base.{
  ◌≡◌, ◌≢◌, refl, sym, ap, ◌∙◌, subst, Bool, true, false, not, Option, List, [], ◌∷◌, any, keep_if,
  All, All-map, All-of_In, In, any-keep_if, any-In, In-any, arith,
}
use mathlib.Core.Bool.{false≢true}
use cs_backup_helper.Base.Text.{Text, text_eq, elem, eq_iff, eq_refl, starts_with}
use cs_backup_helper.Base.Sort.{sort_asc, any-sort_asc}
use cs_backup_helper.Base.Dict.{keys}
use cs_backup_helper.Base.Result.{ok-injective, Result, ok, raised}
use cs_backup_helper.Clock.{DateTime}
use cs_backup_helper.Retention.{Snapshot, ids}
use cs_backup_helper.Retention.Manager.{RetentionConfig, select_prunable}
use cs_backup_helper.Retention.Newest.{IsLast}
use cs_backup_helper.Retention.Safety.{pruned-elem, last_survives}
use cs_backup_helper.Snapshots.{SnapshotScope}
use cs_backup_helper.Storage.{File, Storage, IsLawful}
use cs_backup_helper.Runner.{Problem, retention_failed}
use cs_backup_helper.Runner.Act.{continue_with-step, recovered, noting, returning, continue_with}
use cs_backup_helper.Runner.Deliver.{data_dir, bucket, W, D}
use cs_backup_helper.Runner.Deliver.Puts.{Holds, Apart}
use cs_backup_helper.Runner.Prune.{
  own_snapshots, snapshot_ids, is_mine, snapshots_of, dotted, place_of, marked_at, list_at,
  delete_at, delete_keys, delete_snapshots, prune_own, apply_retention,
}

pub elem-In : (x : Text) (xs : List Text) → In x xs → elem x xs ≡ true
elem-In x xs m = any-In (text_eq x) xs x m (eq_refl x)

ids-snapshots_of : (now : DateTime) (sids : List Text) → ids (snapshots_of now sids) ≡ sids
unfolding snapshots_of
ids-snapshots_of now [] = refl
ids-snapshots_of now (sid ∷ sids) = ap (λ t. sid ∷ t) (ids-snapshots_of now sids)

All-of_any :
    (p : Text → Bool) (xs : List Text) → any (λ x. not (p x)) xs ≡ false → All (λ x. p x ≡ true) xs
All-of_any p [] h = tt
All-of_any p (x ∷ xs) h = (ground arith, All-of_any p xs (ground arith))

any-keep_if_same : (p : Text → Bool) (xs : List Text) → any (λ x. not (p x)) (keep_if p xs) ≡ false
any-keep_if_same p [] = refl
any-keep_if_same p (x ∷ xs) = ground (arith, any-keep_if_same p xs)

module _ (S : Storage) (L : IsLawful S) (d e : D S) (k : Text) (f : File)
    (apart : (j : Text) → j ≢ k → Apart S d j e k) where
  -- The file is held where `e` keeps it.
  abbrev pub Held : W S → Type 0
  Held w = Holds S w k f e

  delete_at-Held :
      (d e : D S) (j : Text) (w : W S)
      → Apart S d j e k
      → Holds S w k f e
      → Holds S (delete_at S d j w).1 k f e
  delete_at-Held data_dir data_dir j w a h = L.unlink-others j k w a ∙ h
  delete_at-Held data_dir (bucket c) j w a h = L.unlink-objects j w _ ∙ h
  delete_at-Held (bucket b) data_dir j w a h = L.delete-dir b j w k ∙ h
  delete_at-Held (bucket b) (bucket c) j w a h = L.delete-others b j w _ a ∙ h

  list_at-Held :
      (d e : D S) (prefix : Text) (w : W S)
      → Holds S w k f e
      → Holds S (list_at S d prefix w).1 k f e
  list_at-Held data_dir e prefix w h = h
  list_at-Held (bucket b) data_dir prefix w h = L.list_keys-dir b prefix w k ∙ h
  list_at-Held (bucket b) (bucket c) prefix w h = L.list_keys-objects b prefix w _ ∙ h

  list_at-prefix :
      (d : D S) (prefix : Text) (w : W S) (found : List Text)
      → (list_at S d prefix w).0 ≡ ok found
      → All (λ key. starts_with prefix key ≡ true) found
  list_at-prefix data_dir prefix w found h =
      let listed = keep_if (starts_with prefix) (keys (Storage.dir S w)) in
      let sorted : sort_asc (λ key. key) listed ≡ found = cc in
      subst (All (λ key. starts_with prefix key ≡ true)) sorted (
        All-of_any (starts_with prefix) (sort_asc (λ key. key) listed) (
          any-sort_asc (λ key. key) (λ key. not (starts_with prefix key)) listed
          ∙ any-keep_if_same (starts_with prefix) (keys (Storage.dir S w))))
  list_at-prefix (bucket b) prefix w found h = L.list_keys-prefix b prefix w found h

  pub delete_keys-Held :
      (ks : List Text) (errors : List Problem) (w : W S)
      → All (λ j. j ≢ k) ks
      → Held w
      → Held (delete_keys S d ks errors w).2
  unfolding delete_keys
  delete_keys-Held [] errors w a h = h
  delete_keys-Held (j ∷ ks) errors w a h =
      continue_with-step Held Held (λ _. delete_keys S d ks) _
        (delete_at-Held d e j w (apart j a.0) h) (λ v g. g)
        (λ _ more v _ g. delete_keys-Held ks more v a.1 g)

  -- The keys below a prefix that `k` does not have are other keys.
  others :
      (prefix : Text) (found : List Text)
      → starts_with prefix k ≡ false
      → All (λ key. starts_with prefix key ≡ true) found
      → All (λ j. j ≢ k) found
  others prefix found differs a =
      All-map _ _ found
        (λ j h p. false≢true (sym differs ∙ (subst (λ i. starts_with prefix i ≡ true) p h))) a

  delete_snapshots-Held :
      (sids : List Text) (errors : List Problem) (w : W S)
      → All (λ sid. starts_with (dotted sid) k ≡ false) sids
      → Held w
      → Held (delete_snapshots S d sids errors w).2
  unfolding delete_snapshots
  delete_snapshots-Held [] errors w a h = h
  delete_snapshots-Held (sid ∷ sids) errors w a h =
      continue_with-step Held Held (λ _. delete_snapshots S d sids) _
        (continue_with-step Held Held (delete_keys S d) (_, errors, _)
          (list_at-Held d e (dotted sid) w h) (λ v g. g)
          (λ found more v q g.
            delete_keys-Held found more v
              (others (dotted sid) found a.0 (list_at-prefix d (dotted sid) w found q)) g))
        (λ v g. g) (λ _ more v _ g. delete_snapshots-Held sids more v a.1 g)

  module _ (cfg : RetentionConfig) (now : DateTime) where
    prune_own-Held :
        (mine : Text → Bool) (errors : List Problem) (w : W S)
        → ((found pruned : List Text)
            → (list_at S d [] w).0 ≡ ok found
            → select_prunable (own_snapshots now mine found) cfg now ≡ ok pruned
            → All (λ sid. starts_with (dotted sid) k ≡ false) pruned)
        → Held w
        → Held (prune_own S d cfg now mine errors w).2
    unfolding prune_own
    prune_own-Held mine errors w spared h =
        continue_with-step Held Held
          (λ found more v.
            continue_with
              (returning (select_prunable (own_snapshots now mine found) cfg now) more v)
              (delete_snapshots S d))
          (_, errors, _) (list_at-Held d e [] w h) (λ v g. g)
          (λ found more v q g.
            continue_with-step Held Held (delete_snapshots S d)
              (select_prunable (own_snapshots now mine found) cfg now, more, v) g (λ u r. r)
              (λ pruned still u s r.
                delete_snapshots-Held pruned still u (spared found pruned q s) r))

    recovered-Held :
        (result : Result (Unit {0}) × List Problem × W S)
        → Held result.2
        → Held (recovered (λ failure. noting (retention_failed failure ∷ [])) result).2
    recovered-Held (ok done, errors, w) h = h
    recovered-Held (raised x, errors, w) h = h

    pub pruned-own :
        (mine : Text → Bool) (found pruned : List Text) (sid : Text)
        → select_prunable (own_snapshots now mine found) cfg now ≡ ok pruned
        → elem sid pruned ≡ true
        → (mine sid ≡ true) × (elem sid (snapshot_ids found) ≡ true)
    pruned-own mine found pruned sid s m =
        let own = keep_if mine (snapshot_ids found) in
        let listed = pruned-elem (own_snapshots now mine found) cfg now s sid m in
        let kept : elem sid own ≡ true = ap (elem sid) (sym (ids-snapshots_of now own)) ∙ listed in
        let (x, n, q) =
          In-any _ (snapshot_ids found)
            (sym (any-keep_if (text_eq sid) mine (snapshot_ids found)) ∙ kept) in
        let same : sid ≡ x = (eq_iff sid x).0 (ground arith) in
        (
          ap mine same ∙ ground arith,
          ap (λ y. elem y (snapshot_ids found)) same ∙ elem-In x (snapshot_ids found) n,
        )

    -- Whether the retention of a job goes through or fails half-way, a file survives it, on this
    -- destination and on any other, unless its key is `<id>.` and more for the id of a
    -- snapshot listed there that is the job's own or, where retention is limited to a set of ids,
    -- in that set; a key that differs is assumed to be another file.
    pub apply_retention_keeps :
        (scope : SnapshotScope) (only : Option (List Text)) (errors : List Problem) (w : W S)
        → ((found : List Text)
            → (list_at S d [] w).0 ≡ ok found
            → (sid : Text) → elem sid (snapshot_ids found) ≡ true
            → is_mine only scope (place_of S d) (marked_at S d w) sid ≡ true
            → starts_with (dotted sid) k ≡ false)
        → Holds S w k f e
        → Holds S (apply_retention S d cfg now scope only errors w).2 k f e
    unfolding apply_retention
    apply_retention_keeps scope only errors w spared h =
        let mine = is_mine only scope (place_of S d) (marked_at S d w) in
        recovered-Held _ (
          prune_own-Held mine errors w
            (λ found pruned q s. All-of_In _ pruned (λ sid m.
              let own = pruned-own mine found pruned sid s (elem-In sid pruned m) in
              spared found q sid own.1 own.0))
            h)

    -- With `smart_last`, the files of the job's newest snapshot survive its retention: those whose
    -- key does not start with the id of another listed snapshot and a dot.
    pub apply_retention_keeps_last :
        (scope : SnapshotScope) (only : Option (List Text)) (errors : List Problem) (w : W S)
        (found : List Text) (s : Snapshot)
        → cfg.smart_last ≡ true
        → (list_at S d [] w).0 ≡ ok found
        → (let own =
              own_snapshots now (is_mine only scope (place_of S d) (marked_at S d w)) found in
            In s own × IsLast own s)
        → ((sid : Text)
            → sid ≢ s.id
            → elem sid (snapshot_ids found) ≡ true
            → starts_with (dotted sid) k ≡ false)
        → Holds S w k f e
        → Holds S (apply_retention S d cfg now scope only errors w).2 k f e
    unfolding apply_retention
    apply_retention_keeps_last scope only errors w found s on listed (m, last) spared h =
        let mine = is_mine only scope (place_of S d) (marked_at S d w) in
        recovered-Held _ (
          prune_own-Held mine errors w
            (λ again pruned q t.
              let same : again ≡ found = ok-injective again found (sym q ∙ listed) in
              let t' : select_prunable (own_snapshots now mine found) cfg now ≡ ok pruned =
                ap (λ ks. select_prunable (own_snapshots now mine ks) cfg now) (sym same) ∙ t in
              let survives = last_survives (own_snapshots now mine found) cfg now t' on s m last in
              All-of_In _ pruned (λ sid n.
                let there = elem-In sid pruned n in
                spared sid
                  (λ p. false≢true (sym survives ∙ ap (λ x. elem x pruned) (sym p) ∙ there))
                  (pruned-own mine found pruned sid t' there).1))
            h)

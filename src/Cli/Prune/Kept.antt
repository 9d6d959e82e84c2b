-- ===== src/Cli/Prune/Kept.antt =====
-- `prune` never deletes what no pruned job owns.
use cs_backup_helper.Base.Words.{distinct}
use mathlib.Core.Bool.{false≢true}
use cs_backup_helper.Base.{
  ◌≡◌, ◌≢◌, sym, ◌∙◌, subst, inl, inr, Bool, true, false, not, ◌&&◌, Bool-cases, Option, some, List,
  [], ◌∷◌, keep_if, All, All-of_In, arith, if◌then◌else◌,
}
use cs_backup_helper.Base.Int.{ℤ}
use cs_backup_helper.Base.Text.{Text, text_eq, elem, starts_with}
use cs_backup_helper.Base.Dict.{lookup, keys}
use cs_backup_helper.Base.Sort.{sort_asc, any-sort_asc}
use cs_backup_helper.Base.Result.{ok}
use cs_backup_helper.Clock.{DateTime}
use cs_backup_helper.Config.{Job}
use cs_backup_helper.Storage.{File, Storage, IsLawful}
use cs_backup_helper.Runner.{Problem}
use cs_backup_helper.Runner.Act.{continue_with-step, continue_with, done_at, returning}
use cs_backup_helper.Runner.Deliver.{data_dir, W}
use cs_backup_helper.Runner.Offsite.{pending_owners, is_nested}
use cs_backup_helper.Runner.Prune.{snapshot_ids, dotted, own_snapshots}
use cs_backup_helper.Runner.Prune.Own.{delete_keys-Held, pruned-own, elem-In}
use cs_backup_helper.Retention.Manager.{select_prunable}
use cs_backup_helper.Cli.Prune.{
  targets, kept_by, is_own_of, delete_local, delete_all, prune_jobs, prune,
}

distinct-elem : (x : Text) (xs : List Text) → elem x (distinct xs) ≡ true → elem x xs ≡ true
unfolding distinct
distinct-elem x [] h = h
distinct-elem x (y ∷ xs) h = ground (arith, distinct-elem x xs)

module _ (S : Storage) (L : IsLawful S) (k : Text) (f : File) where
  abbrev Here : W S → Type 0
  Here w = lookup k (Storage.dir S w) ≡ some f

  delete_local-Here :
      (sid : Text) (errors : List Problem) (w : W S)
      → starts_with (dotted sid) k ≡ false
      → Here w
      → Here (delete_local S sid errors w).2
  unfolding delete_local
  delete_local-Here sid errors w spared h =
      delete_keys-Held S L data_dir data_dir k f (λ j differ. differ)
        (keep_if (λ key. starts_with (dotted sid) key && not (is_nested key))
          (keys (Storage.dir S w)))
        errors w (others (keys (Storage.dir S w))) h
    where
      others :
          (ks : List Text)
          → All
              (λ j. j ≢ k)
              (keep_if (λ key. starts_with (dotted sid) key && not (is_nested key)) ks)
      others [] = tt
      others (key ∷ ks) = elim (Bool-cases (starts_with (dotted sid) key && not (is_nested key))) [
        | inl e ↦ rw e (
          λ p.
              false≢true
                (sym spared ∙ subst (λ i. starts_with (dotted sid) i ≡ true) p (ground arith)),
          others ks,
        )
        | inr e ↦ rw e (others ks)
      ]

  delete_all-Here :
      (sids : List Text) (errors : List Problem) (w : W S)
      → All (λ sid. starts_with (dotted sid) k ≡ false) sids
      → Here w
      → Here (delete_all S sids errors w).2
  unfolding delete_all
  delete_all-Here [] errors w a h = h
  delete_all-Here (sid ∷ sids) errors w a h =
      continue_with-step Here Here (λ _. delete_all S sids) (delete_local S sid errors w)
        (delete_local-Here sid errors w a.0 h) (λ v g. g)
        (λ _ more v _ g. delete_all-Here sids more v a.1 g)

  module _ (jobs : List Job) (keep : Option ℤ) (now : DateTime) (names : List Text)
      (marked : List (Text × Text)) (dry_run : Bool) where
    -- No id that the job owns is the start of the file's name, up to a dot.
    abbrev Spared : Job → Type 0
    Spared target =
        (sid : Text)
        → elem sid (snapshot_ids names) ≡ true
        → is_own_of jobs target marked sid ≡ true
        → starts_with (dotted sid) k ≡ false

    pruned-Spared :
        (target : Job) (pruned : List Text)
        → Spared target
        → select_prunable
            (own_snapshots now (is_own_of jobs target marked) names)
            (kept_by keep target.retention)
            now
          ≡ ok pruned
        → All (λ sid. starts_with (dotted sid) k ≡ false) (sort_asc (λ sid. sid) (distinct pruned))
    pruned-Spared target pruned spared e = All-of_In _ _ (λ sid m.
        let found : elem sid (distinct pruned) ≡ true =
          sym (any-sort_asc (λ x. x) (text_eq sid) (distinct pruned))
          ∙ elem-In sid (sort_asc (λ x. x) (distinct pruned)) m in
        let own =
          pruned-own S L data_dir data_dir k f (λ j differ. differ) (kept_by keep target.retention)
            now (is_own_of jobs target marked) names pruned sid e
            (distinct-elem sid pruned found) in
        spared sid own.1 own.0)

    prune_one-Here :
        (target : Job) (errors : List Problem) (w : W S)
        → Spared target
        → Here w
        → Here
            (continue_with
              (returning
                (select_prunable
                  (own_snapshots now (is_own_of jobs target marked) names)
                  (kept_by keep target.retention)
                  now)
                errors
                w)
              (λ pruned.
                if dry_run
                then done_at tt
                else delete_all S (sort_asc (λ sid. sid) (distinct pruned)))).2
    prune_one-Here target errors w spared h =
        continue_with-step Here Here
          (λ pruned.
            if dry_run then done_at tt else delete_all S (sort_asc (λ sid. sid) (distinct pruned)))
          (returning
            (select_prunable (own_snapshots now (is_own_of jobs target marked) names)
              (kept_by keep target.retention) now)
            errors w)
          h (λ v g. g)
          (λ pruned more v e g. elim (Bool-cases dry_run) [
            | inl d ↦ rw d g
            | inr d ↦ rw d (delete_all-Here _ more v (pruned-Spared target pruned spared e) g)
          ])

    prune_jobs-Here :
        (chosen : List Job) (errors : List Problem) (w : W S)
        → All Spared chosen
        → Here w
        → Here (prune_jobs S jobs keep now names marked dry_run chosen errors w).2
    unfolding prune_jobs
    prune_jobs-Here [] errors w a h = h
    prune_jobs-Here (target ∷ others) errors w a h =
        continue_with-step Here Here (λ _. prune_jobs S jobs keep now names marked dry_run others) _
          (prune_one-Here target errors w a.0 h) (λ v g. g)
          (λ _ more v _ g. prune_jobs-Here others more v a.1 g)

  -- Whether `prune` goes through or fails half-way, a file of the data dir stays whose name is not
  -- `<id>.` and more for the id of a snapshot there that one of the chosen jobs owns.
  pub prune_keeps :
      (jobs : List Job) (name : Option Text) (keep : Option ℤ) (now : DateTime) (dry_run : Bool)
      (errors : List Problem) (w : W S)
      → All
          (λ target.
            (sid : Text)
            → elem sid (snapshot_ids (keys (Storage.dir S w))) ≡ true
            → is_own_of jobs target (pending_owners (Storage.dir S w)) sid ≡ true
            → starts_with (dotted sid) k ≡ false)
          (targets jobs name)
      → lookup k (Storage.dir S w) ≡ some f
      → lookup k (Storage.dir S (prune S jobs name keep now dry_run errors w).2) ≡ some f
  unfolding prune
  prune_keeps jobs name keep now dry_run errors w spared h =
      prune_jobs-Here jobs keep now (keys (Storage.dir S w)) (pending_owners (Storage.dir S w))
        dry_run (targets jobs name) errors w spared h

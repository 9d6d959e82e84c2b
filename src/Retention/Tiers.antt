-- ===== src/Retention/Tiers.antt =====
-- What a grandfather-father-son tier (retention/gfs.py) promises, apart from how it computes it.
mod Buckets
mod Keys
use mathlib.Core.Option.{some-injective}
use cs_backup_helper.Base.{
  ℕ, zero, suc, ◌+◌, ◌-◌, ◌≤◌, ◌<◌, ◌≡◌, refl, sym, ap, ◌∙◌, subst, ◌⊎◌, ◌↔◌, inl, inr, Bool, true,
  false, not, ◌||◌, Option, none, some, List, [], ◌∷◌, ◌++◌, map, arith, ltb, ◌==◌, if◌then◌else◌,
  length, take, any, All, In, count_if, length-take, length-map, Bool-cases, Option-cases, is_some,
  any-In, In-any, All-of_In, All-take, All-map,
}
use cs_backup_helper.Base.Text.{
  Text, text_eq, text_lt, elem, eq_iff, eq_refl, eq_iff, eq_of_not_lt, lt_irrefl, le_trans,
  lt_asymm, eq_of_not_lt,
}
use cs_backup_helper.Base.Sort.{
  sort_desc, IsDescending, sort_desc-IsDescending, count_if-sort_desc, any-sort_desc,
}
use cs_backup_helper.Base.Dict.{Dict, lookup, insert, keys, lookup-insert, lookup-nil, elem-keys}
use cs_backup_helper.Retention.{Snapshot, ids}
use cs_backup_helper.Retention.Policies.{
  note_newest, newest_in_bucket, kept_buckets, ids_at, keep_for_tier,
}
use Buckets.{Holds, snaps_at, ids_at-eq-ids, map-snaps_at, All-snaps_at, newest_in_bucket-Holds}
use Keys.{
  IsStrict, IsNodup, newest_in_bucket-IsNodup, IsStrict-of_Nodup, take-IsStrict, take_or_older,
}

module _ (bucket : Snapshot → List ℕ) where
  -- `s` is one of the snapshots and no snapshot of its bucket has a greater id.
  pub record IsNewest (snaps : List Snapshot) (s : Snapshot) : Type 0 where
    pub present : In s snaps
    pub newest : (t : Snapshot) → In t snaps → bucket t ≡ bucket s → text_lt s.id t.id ≡ false

  -- `kept` is what a tier of `count` buckets keeps: the newest snapshots of the newest buckets.
  pub record IsTier (snaps : List Snapshot) (count : ℕ) (kept : List Snapshot) : Type 0 where
    pub at_most : length kept ≤ count
    pub each_newest : All (IsNewest snaps) kept
    pub distinct : IsStrict (map bucket kept)
    pub others_older :
        (s : Snapshot)
        → In s snaps
        → (elem (bucket s) (map bucket kept) ≡ true)
          ⊎ ((length kept ≡ count) × All (λ k. text_lt (bucket s) k ≡ true) (map bucket kept))

module _ (bucket : Snapshot → List ℕ) (snaps : List Snapshot) where
  abbrev found : Dict Snapshot
  found = newest_in_bucket bucket [] snaps

  abbrev sorted_keys : List (List ℕ)
  sorted_keys = sort_desc (λ key. key) (keys found)

  found-Holds :
      (seen : List Snapshot) × Holds bucket seen found
      × ((t : Snapshot) → In t seen ↔ (In t snaps ⊎ In t []))
  found-Holds =
      newest_in_bucket-Holds bucket [] snaps []
        (record { found = λ k s e. cc (lookup-nil {V = Snapshot} k); covers = λ t m. elim m [ ] })

  sorted_keys-IsStrict : IsStrict sorted_keys
  unfolding keys
  sorted_keys-IsStrict =
      IsStrict-of_Nodup sorted_keys (sort_desc-IsDescending (λ key. key) (keys found))
        λ k. rw count_if-sort_desc (newest_in_bucket-IsNodup bucket snaps [] (λ j. omega arith) k)

  elem-sorted_keys : (k : List ℕ) → elem k sorted_keys ≡ is_some (lookup k found)
  elem-sorted_keys k = any-sort_desc (λ key. key) (text_eq k) (keys found) ∙ elem-keys k found

  sorted_keys-found : All (λ k. is_some (lookup k found) ≡ true) sorted_keys
  sorted_keys-found =
      All-of_In _ sorted_keys
        λ k m. sym (elem-sorted_keys k) ∙ any-In (text_eq k) sorted_keys k m (eq_refl k)

  found-IsNewest : (k : List ℕ) (s : Snapshot) → lookup k found ≡ some s → IsNewest bucket snaps s
  found-IsNewest k s e =
      let (seen, h, same) = found-Holds in
      let (b, m) = h.found k s e in
      record {
        present = elim ((same s).0 m) [ inl n ↦ n | inr n ↦ elim n [ ] ];
        newest = λ t n b'.
            let (w, e', le) = h.covers t ((same t).1 (inl n)) in
            let e'' : lookup (bucket t) found ≡ some s = ap (λ x. lookup x found) (b' ∙ b) ∙ e in
            subst (λ x. text_lt x.id t.id ≡ false) (some-injective w s (sym e' ∙ e'')) le;
      }

  covered : (s : Snapshot) → In s snaps → elem (bucket s) sorted_keys ≡ true
  covered s m =
      let (seen, h, same) = found-Holds in
      let (w, e, _) = h.covers s ((same s).1 (inl m)) in elem-sorted_keys (bucket s) ∙ ap is_some e

  module _ (count : ℕ) where
    abbrev tier_keys : List (List ℕ)
    tier_keys = take count sorted_keys

    abbrev tier_snaps : List Snapshot
    tier_snaps = snaps_at found tier_keys

    map-tier_snaps : map bucket tier_snaps ≡ tier_keys
    map-tier_snaps =
        map-snaps_at bucket found-Holds.0 found found-Holds.1 tier_keys
          (All-take _ count sorted_keys sorted_keys-found)

    length-tier_snaps : length tier_snaps ≡ length tier_keys
    length-tier_snaps = sym (length-map bucket tier_snaps) ∙ ap length map-tier_snaps

    others-tier :
        (s : Snapshot)
        → In s snaps
        → (elem (bucket s) tier_keys ≡ true)
          ⊎ ((length tier_snaps ≡ count) × All (λ k. text_lt (bucket s) k ≡ true) tier_keys)
    others-tier s m =
        elim (take_or_older count (bucket s) sorted_keys sorted_keys-IsStrict (covered s m)) [
          | inl t ↦ inl t
          | inr t ↦ inr (length-tier_snaps ∙ t.0, t.1)
        ]

    tier_snaps-IsTier : IsTier bucket snaps count tier_snaps
    tier_snaps-IsTier = record {
      at_most = omega (arith, length-tier_snaps, length-take count sorted_keys);
      each_newest = All-snaps_at (IsNewest bucket snaps) found found-IsNewest tier_keys;
      distinct = rw map-tier_snaps (take-IsStrict count sorted_keys sorted_keys-IsStrict);
      others_older = λ s m. rw map-tier_snaps (others-tier s m);
    }

    -- With a positive count, a tier keeps the ids of a list of snapshots that meets the tier's
    -- specification: at most `count`, each the newest of its bucket, of distinct buckets from the
    -- newest down; and the bucket of any snapshot is among theirs, or they are `count` many and
    -- all of newer buckets.
    pub keep_for_tier-IsTier :
        0 < count
        → (kept : List Snapshot) × (keep_for_tier snaps count bucket ≡ ids kept)
          × IsTier bucket snaps count kept
    unfolding keep_for_tier kept_buckets
    keep_for_tier-IsTier positive =
        let nonzero : (count == 0) ≡ false = ground arith in
        (tier_snaps, rw nonzero (ids_at-eq-ids found tier_keys), tier_snaps-IsTier)

module _ {bucket : Snapshot → List ℕ} {snaps : List Snapshot} (s : Snapshot)
    (h : IsNewest bucket snaps s) where
  elem-same_bucket :
      (kept : List Snapshot)
      → All (IsNewest bucket snaps) kept
      → elem (bucket s) (map bucket kept) ≡ true
      → elem s.id (ids kept) ≡ true
  elem-same_bucket [] a m = m
  elem-same_bucket (k ∷ kept) a m = elim (Bool-cases (text_eq (bucket s) (bucket k))) [
    | inl e ↦
        let b : bucket s ≡ bucket k = (eq_iff (bucket s) (bucket k)).0 e in
        let id : s.id ≡ k.id =
          eq_of_not_lt s.id k.id (h.newest k a.0.present (sym b)) (a.0.newest s h.present b) in
        ground (arith, (eq_iff s.id k.id).1 id)
    | inr e ↦ ground (arith, elem-same_bucket kept a.1 (ground (arith, e, m)))
  ]

  not-All-newer :
      (kept : List Snapshot)
      → 0 < length kept
      → All (IsNewest bucket snaps) kept
      → ((t : Snapshot) → In t snaps → text_lt (bucket s) (bucket t) ≡ false)
      → ¬ All (λ k. text_lt (bucket s) k ≡ true) (map bucket kept)
  not-All-newer [] positive a newest newer = omega arith
  not-All-newer (k ∷ kept) positive a newest newer = cc (newest k a.0.present, newer.0)

  -- A tier of a positive count keeps the newest snapshot of the newest bucket.
  pub IsTier-newest :
      (count : ℕ) (kept : List Snapshot)
      → 0 < count
      → IsTier bucket snaps count kept
      → ((t : Snapshot) → In t snaps → text_lt (bucket s) (bucket t) ≡ false)
      → elem s.id (ids kept) ≡ true
  IsTier-newest count kept positive t newest = elim (t.others_older s h.present) [
    | inl m ↦ elem-same_bucket kept t.each_newest m
    | inr (full, newer) ↦
        absurd (not-All-newer kept (omega (arith, full)) t.each_newest newest newer)
  ]

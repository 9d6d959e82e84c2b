-- ===== src/Retention/Safety.antt =====
-- What retention/manager.py promises about the ids that it prunes.
use cs_backup_helper.Base.{
  ℕ, zero, suc, ◌<◌, ◌≡◌, refl, sym, ap, ◌∙◌, ◌⊎◌, inl, inr, Bool, true, false, not, ◌||◌, ◌&&◌,
  List, [], ◌∷◌, ◌++◌, arith, if◌then◌else◌, any, In, keep_if, any-keep_if, any-map, count_if,
  Bool-cases, any-weaken,
}
use cs_backup_helper.Base.Int.{ℤ, pos, negsuc}
use cs_backup_helper.Base.Text.{elem-append, Text, text_eq, text_lt, elem, eq_iff, eq_refl}
use cs_backup_helper.Base.Result.{ok, both_return, ok-injective}
use cs_backup_helper.Clock.{DateTime}
use cs_backup_helper.Retention.{Snapshot, ids}
use cs_backup_helper.Retention.Policies.{
  count_prunable, age_prunable, is_older, keep_for_tier, select_keep, protected_last, by_day,
  by_week, by_month,
}
use cs_backup_helper.Retention.Manager.{RetentionConfig, select_prunable, minus}
use cs_backup_helper.Retention.Count.{count_prunable-elem, count_prunable_exact, at_least}
use cs_backup_helper.Retention.Tiers.{IsNewest, keep_for_tier-IsTier, IsTier-newest}
use cs_backup_helper.Retention.Newest.{IsLast, protected_last-IsLast}

elem-minus : (x : Text) (xs ys : List Text) → elem x (minus xs ys) ≡ (elem x xs && not (elem x ys))
elem-minus x [] ys = refl
elem-minus x (y ∷ xs) ys = elim (Bool-cases (text_eq x y)) [
  | inl e ↦
      let same : x ≡ y = (eq_iff x y).0 e in
      ground (arith, elem-minus x xs ys, e, ap (λ z. elem z ys) same)
  | inr e ↦ ground (arith, elem-minus x xs ys, e)
]

elem-candidates :
    (x : Text) (counted aged kept smart : List Text)
    → elem x (minus (minus (counted ++ aged) kept) smart)
      ≡ ((elem x counted || elem x aged) && not (elem x kept) && not (elem x smart))
elem-candidates x counted aged kept smart = ground (
  arith,
  elem-minus x (minus (counted ++ aged) kept) smart,
  elem-minus x (counted ++ aged) kept,
  elem-append x counted aged,
)

-- What the id of a snapshot needs in order to be pruned, before the overrides.
abbrev pub Selected : List Snapshot → RetentionConfig → DateTime → Text → Type 0
Selected snaps cfg now x =
    ((keep : ℕ) × (cfg.count ≡ pos keep) × (0 < keep) × (keep < count_if (at_least x) snaps))
    ⊎ ((0 < cfg.age_days) × (any (λ s. is_older cfg.age_days now s && text_eq x s.id) snaps ≡ true))

pub data Tier : Type 0 where
  daily weekly monthly : Tier

abbrev pub tier_bucket : Tier → Snapshot → List ℕ
tier_bucket daily = by_day
tier_bucket weekly = by_week
tier_bucket monthly = by_month

abbrev pub tier_count : RetentionConfig → Tier → ℕ
tier_count cfg daily = cfg.gfs.daily
tier_count cfg weekly = cfg.gfs.weekly
tier_count cfg monthly = cfg.gfs.monthly

Selected-of_count :
    (snaps : List Snapshot) (cfg : RetentionConfig) (now : DateTime) (x : Text) (count : ℤ)
    → cfg.count ≡ count
    → elem x (count_prunable snaps count) ≡ true
    → Selected snaps cfg now x
unfolding count_prunable
Selected-of_count snaps cfg now x (negsuc n) e m = absurd (ground arith)
Selected-of_count snaps cfg now x (pos zero) e m = absurd (ground arith)
Selected-of_count snaps cfg now x (pos (suc k)) e m =
    let positive : 0 < suc k = omega arith in
    inl (suc k, e, positive, (count_prunable_exact snaps (suc k) positive x).0 m)

elem-ids-keep_if :
    (x : Text) (p : Snapshot → Bool) (snaps : List Snapshot)
    → elem x (ids (keep_if p snaps)) ≡ any (λ s. p s && text_eq x s.id) snaps
elem-ids-keep_if x p snaps =
    any-map (text_eq x) (λ (s : Snapshot). s.id) (keep_if p snaps)
    ∙ any-keep_if (λ (s : Snapshot). text_eq x s.id) p snaps

Selected-of_age :
    (snaps : List Snapshot) (cfg : RetentionConfig) (now : DateTime) (x : Text) (aged : List Text)
    → age_prunable snaps cfg.age_days now ≡ ok aged
    → elem x aged ≡ true
    → Selected snaps cfg now x
unfolding age_prunable
Selected-of_age snaps cfg now x aged e m =
    let found = elem-ids-keep_if x (is_older cfg.age_days now) snaps in
    inr (ground (arith, e, m), ground (arith, e, m, found))

age_prunable-elem :
    (snaps : List Snapshot) (days : ℕ) (now : DateTime) (x : Text) {aged : List Text}
    → age_prunable snaps days now ≡ ok aged
    → elem x aged ≡ true
    → elem x (ids snaps) ≡ true
unfolding age_prunable
age_prunable-elem snaps days now x e m =
    let found = elem-ids-keep_if x (is_older days now) snaps in
    let some_id = any-map (text_eq x) (λ (s : Snapshot). s.id) snaps in
    let weaker =
      any-weaken (λ s. is_older days now s && text_eq x s.id) (λ s. text_eq x s.id) snaps
        (λ s. ground arith) in
    ground (arith, e, m, found, some_id, weaker)

module _ (snaps : List Snapshot) (cfg : RetentionConfig) (now : DateTime) {pruned : List Text}
    (done : select_prunable snaps cfg now ≡ ok pruned) where
  parts :
      (x : Text)
      → (aged : List Text) × (age_prunable snaps cfg.age_days now ≡ ok aged)
        × (elem x pruned ≡ (
            (elem x (count_prunable snaps cfg.count) || elem x aged)
            && not (elem x (select_keep snaps cfg.gfs.daily cfg.gfs.weekly cfg.gfs.monthly))
            && not (elem x (if cfg.smart_last then protected_last snaps else []))))
  unfolding select_prunable
  parts x =
      let (aged, e, q) = both_return (age_prunable snaps cfg.age_days now) done in
      (aged, q, sym (ap (elem x) (ok-injective _ _ e)) ∙ elem-candidates x _ aged _ _)

  -- An id is pruned only for a reason: a positive `count` has more snapshots of that id or a newer
  -- one than it keeps, or a positive `age_days` finds a snapshot of that id older.
  pub pruned-Selected : (x : Text) → elem x pruned ≡ true → Selected snaps cfg now x
  pruned-Selected x m =
      let (aged, q, e) = parts x in
      elim (Bool-cases (elem x (count_prunable snaps cfg.count))) [
        | inl c ↦ Selected-of_count snaps cfg now x cfg.count refl c
        | inr c ↦ Selected-of_age snaps cfg now x aged q (ground (arith, e, c, m))
      ]

  -- Every pruned id is the id of a given snapshot.
  pub pruned-elem : (x : Text) → elem x pruned ≡ true → elem x (ids snaps) ≡ true
  pruned-elem x m =
      let (aged, q, e) = parts x in
      elim (Bool-cases (elem x (count_prunable snaps cfg.count))) [
        | inl c ↦ count_prunable-elem snaps cfg.count x c
        | inr c ↦ age_prunable-elem snaps cfg.age_days now x q (ground (arith, e, c, m))
      ]

  -- With `smart_last`, the newest snapshot is never pruned.
  pub last_survives :
      cfg.smart_last ≡ true
      → (s : Snapshot) → In s snaps
      → IsLast snaps s
      → elem s.id pruned ≡ false
  last_survives on s m h =
      let (aged, q, e) = parts s.id in
      let p : protected_last snaps ≡ s.id ∷ [] = protected_last-IsLast snaps s m h in
      let kept : elem s.id (if cfg.smart_last then protected_last snaps else []) ≡ true =
        rw (on, p) (ground (arith, eq_refl s.id)) in
      ground (arith, e, kept)

  -- What a tier keeps is never pruned.
  tier_survives :
      (tier : Tier) (x : Text)
      → elem x (keep_for_tier snaps (tier_count cfg tier) (tier_bucket tier)) ≡ true
      → elem x pruned ≡ false
  unfolding select_keep
  tier_survives tier x k =
      let (aged, q, e) = parts x in
      let kept : elem x (select_keep snaps cfg.gfs.daily cfg.gfs.weekly cfg.gfs.monthly) ≡ true =
        elem-three tier k in
      ground (arith, e, kept)
    where
      in_day : List Text
      in_day = keep_for_tier snaps cfg.gfs.daily by_day

      in_week : List Text
      in_week = keep_for_tier snaps cfg.gfs.weekly by_week

      in_month : List Text
      in_month = keep_for_tier snaps cfg.gfs.monthly by_month

      elem-three :
          (tier : Tier)
          → elem x (keep_for_tier snaps (tier_count cfg tier) (tier_bucket tier)) ≡ true
          → elem x (in_day ++ in_week ++ in_month) ≡ true
      elem-three daily m =
          ground
            (arith, m, elem-append x (in_day ++ in_week) in_month, elem-append x in_day in_week)
      elem-three weekly m =
          ground
            (arith, m, elem-append x (in_day ++ in_week) in_month, elem-append x in_day in_week)
      elem-three monthly m =
          ground
            (arith, m, elem-append x (in_day ++ in_week) in_month, elem-append x in_day in_week)

  -- A snapshot in the newest bucket of an enabled tier, day, ISO week or month, that has the
  -- greatest id there is never pruned.
  newest_in_tier_survives :
      (tier : Tier)
      → 0 < tier_count cfg tier
      → (s : Snapshot) → IsNewest (tier_bucket tier) snaps s
      → ((t : Snapshot) → In t snaps → text_lt (tier_bucket tier s) (tier_bucket tier t) ≡ false)
      → elem s.id pruned ≡ false
  newest_in_tier_survives tier enabled s h newest =
      let (kept, same, t) =
        keep_for_tier-IsTier (tier_bucket tier) snaps (tier_count cfg tier) enabled in
      tier_survives tier s.id
        (ap (elem s.id) same ∙ IsTier-newest s h (tier_count cfg tier) kept enabled t newest)

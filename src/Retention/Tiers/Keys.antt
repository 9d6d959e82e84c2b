-- ===== src/Retention/Tiers/Keys.antt =====
-- The keys of the dict of gfs.py, sorted: no bucket is taken twice, and newer ones first.
use cs_backup_helper.Base.{
  ℕ, zero, suc, ◌+◌, ◌≤◌, ◌≡◌, refl, ap, ◌⊎◌, inl, inr, true, false, none, List, [], ◌∷◌, ◌++◌,
  arith, if◌then◌else◌, length, take, All, count_if, Bool-cases, Option-cases, is_some, All-take,
}
use cs_backup_helper.Base.Text.{text_eq, text_lt, elem, eq_iff, eq_refl, eq_of_not_lt}
use cs_backup_helper.Base.Sort.{IsDescending}
use cs_backup_helper.Base.Dict.{Dict, lookup, insert, keys}
use cs_backup_helper.Retention.{Snapshot}
use cs_backup_helper.Retention.Policies.{note_newest, newest_in_bucket}

-- Every key is less than all keys before it.
abbrev pub IsStrict : List (List ℕ) → Type 0
IsStrict [] = Unit
IsStrict (k ∷ ks) = All (λ j. text_lt j k ≡ true) ks × IsStrict ks

count-keys-insert :
    (k j : List ℕ) (v : Snapshot) (d : Dict Snapshot)
    → count_if (text_eq k) (keys (insert j v d)) ≡ (
        if is_some (lookup j d)
        then count_if (text_eq k) (keys d)
        else count_if (text_eq k) (keys d ++ j ∷ []))
unfolding keys insert lookup
count-keys-insert k j v [] = refl
count-keys-insert k j v ((i, w) ∷ d) = ground (arith, eq_iff i j, count-keys-insert k j v d)

count-append-one :
    (k j : List ℕ) (ks : List (List ℕ))
    → count_if (text_eq k) (ks ++ j ∷ []) ≡ count_if (text_eq k) ks + (if text_eq k j then 1 else 0)
count-append-one k j [] = ground arith
count-append-one k j (i ∷ ks) = ground (arith, count-append-one k j ks)

count-keys-absent :
    (k : List ℕ) (d : Dict Snapshot) → lookup k d ≡ none → count_if (text_eq k) (keys d) ≡ 0
unfolding keys lookup
count-keys-absent k [] e = refl
count-keys-absent k ((i, w) ∷ d) e = ground (arith, eq_iff i k, eq_iff k i, count-keys-absent k d)

abbrev pub IsNodup : List (List ℕ) → Type 0
IsNodup ks = (k : List ℕ) → count_if (text_eq k) ks ≤ 1

insert-IsNodup :
    (j : List ℕ) (v : Snapshot) (d : Dict Snapshot)
    → IsNodup (keys d)
    → IsNodup (keys (insert j v d))
insert-IsNodup j v d u k = ground (
  arith,
  u k,
  count-keys-insert k j v d,
  count-append-one k j (keys d),
  eq_iff k j,
  count-keys-absent j d,
  Option-cases (lookup j d),
)

module _ (bucket : Snapshot → List ℕ) where
  pub newest_in_bucket-IsNodup :
      (snaps : List Snapshot) (d : Dict Snapshot)
      → IsNodup (keys d)
      → IsNodup (keys (newest_in_bucket bucket d snaps))
  unfolding newest_in_bucket
  newest_in_bucket-IsNodup [] d u = u
  newest_in_bucket-IsNodup (a ∷ snaps) d u =
      newest_in_bucket-IsNodup snaps (note_newest bucket d a) step
    where
      step : IsNodup (keys (note_newest bucket d a))
      step k = ground (arith, insert-IsNodup (bucket a) a d u k, u k)

All-lt-of_Nodup :
    (k : List ℕ) (ks : List (List ℕ))
    → All (λ j. text_lt k j ≡ false) ks
    → count_if (text_eq k) ks ≡ 0
    → All (λ j. text_lt j k ≡ true) ks
All-lt-of_Nodup k [] h c = tt
All-lt-of_Nodup k (j ∷ ks) h c =
    let differ : text_eq k j ≡ false = ground arith in
    (
      elim (Bool-cases (text_lt j k)) [
        | inl less ↦ less
        | inr more ↦
            let same : k ≡ j = eq_of_not_lt k j h.0 more in ground (arith, eq_iff k j, same)
      ],
      All-lt-of_Nodup k ks h.1 (ground arith),
    )

pub IsStrict-of_Nodup : (ks : List (List ℕ)) → IsDescending (λ k. k) ks → IsNodup ks → IsStrict ks
IsStrict-of_Nodup [] d u = tt
IsStrict-of_Nodup (k ∷ ks) d u = (
  All-lt-of_Nodup k ks d.0 (ground (arith, u k, eq_refl k)),
  IsStrict-of_Nodup ks d.1 (λ j. ground (arith, u j)),
)

pub take-IsStrict : (n : ℕ) (ks : List (List ℕ)) → IsStrict ks → IsStrict (take n ks)
take-IsStrict zero ks h = tt
take-IsStrict (suc n) [] h = tt
take-IsStrict (suc n) (k ∷ ks) h = (All-take _ n ks h.0, take-IsStrict n ks h.1)

All-lt-elem :
    (k j : List ℕ) (ks : List (List ℕ))
    → All (λ i. text_lt i j ≡ true) ks
    → elem k ks ≡ true
    → text_lt k j ≡ true
All-lt-elem k j [] h m = ground arith
All-lt-elem k j (i ∷ ks) h m = ground (arith, eq_iff k i, h.0, All-lt-elem k j ks h.1)

-- A key of a strictly descending list is among the first `n`, or these are `n` and all greater.
pub take_or_older :
    (n : ℕ) (k : List ℕ) (ks : List (List ℕ))
    → IsStrict ks
    → elem k ks ≡ true
    → (elem k (take n ks) ≡ true)
      ⊎ ((length (take n ks) ≡ n) × All (λ j. text_lt k j ≡ true) (take n ks))
take_or_older zero k ks h m = inr (refl, tt)
take_or_older (suc n) k [] h m = absurd (ground arith)
take_or_older (suc n) k (j ∷ ks) h m = elim (Bool-cases (text_eq k j)) [
  | inl e ↦ inl (ground (arith, e))
  | inr e ↦
      let m' : elem k ks ≡ true = ground arith in
      elim (take_or_older n k ks h.1 m') [
        | inl t ↦ inl (ground (arith, t))
        | inr t ↦ inr (ap suc t.0, (All-lt-elem k j ks h.0 m', t.1))
      ]
]

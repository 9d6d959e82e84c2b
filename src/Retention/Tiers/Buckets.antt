-- ===== src/Retention/Tiers/Buckets.antt =====
-- The dict of gfs.py: it holds the newest snapshot of every bucket seen.
use cs_backup_helper.Base.{
  ℕ, ◌≡◌, refl, sym, ap, ◌∙◌, subst, ◌⊎◌, ◌↔◌, inl, inr, Bool, true, false, Option, none, some,
  List, [], ◌∷◌, map, arith, if◌then◌else◌, All, In, Bool-cases, Option-cases, is_some,
}
use cs_backup_helper.Base.Text.{text_eq, text_lt, eq_iff, lt_irrefl, le_trans, lt_asymm}
use cs_backup_helper.Base.Dict.{Dict, lookup, lookup-insert}
use cs_backup_helper.Retention.{Snapshot, ids}
use cs_backup_helper.Retention.Policies.{note_newest, newest_in_bucket, ids_at}

pub snaps_at : Dict Snapshot → List (List ℕ) → List Snapshot
snaps_at newest [] = []
snaps_at newest (k ∷ ks) = elim (lookup k newest) [
  | none ↦ snaps_at newest ks
  | some s ↦ s ∷ snaps_at newest ks
]

pub ids_at-eq-ids :
    (newest : Dict Snapshot) (ks : List (List ℕ)) → ids_at newest ks ≡ ids (snaps_at newest ks)
unfolding ids_at snaps_at
ids_at-eq-ids newest [] = refl
ids_at-eq-ids newest (k ∷ ks) = ground (arith, ids_at-eq-ids newest ks)

pub All-snaps_at :
    (P : Snapshot → Type 0) (newest : Dict Snapshot)
    → ((k : List ℕ) (s : Snapshot) → lookup k newest ≡ some s → P s)
    → (ks : List (List ℕ)) → All P (snaps_at newest ks)
unfolding snaps_at
All-snaps_at P newest h [] = tt
All-snaps_at P newest h (k ∷ ks) = go (All-snaps_at P newest h ks) (lookup k newest) refl
  where
    go :
        All P (snaps_at newest ks)
        → (o : Option Snapshot) → lookup k newest ≡ o
        → All P (elim o [ none ↦ snaps_at newest ks | some s ↦ s ∷ snaps_at newest ks ])
    go ih none e = ih
    go ih (some s) e = (h k s e, ih)

module _ (bucket : Snapshot → List ℕ) where
  -- What the dict holds of the snapshots that it has seen.
  pub record Holds (seen : List Snapshot) (newest : Dict Snapshot) : Type 0 where
    pub found : (k : List ℕ) (s : Snapshot) → lookup k newest ≡ some s → (bucket s ≡ k) × In s seen
    pub covers :
        (t : Snapshot)
        → In t seen
        → (s : Snapshot) × (lookup (bucket t) newest ≡ some s) × (text_lt s.id t.id ≡ false)

  abbrev winner : Option Snapshot → Snapshot → Snapshot
  winner none a = a
  winner (some c) a = if text_lt c.id a.id then a else c

  lookup-note_newest :
      (newest : Dict Snapshot) (a : Snapshot) (k : List ℕ)
      → lookup k (note_newest bucket newest a) ≡ (
          if text_eq (bucket a) k
          then some (winner (lookup (bucket a) newest) a)
          else lookup k newest)
  unfolding note_newest
  lookup-note_newest newest a k =
      ground (arith, lookup-insert (bucket a) k a newest, eq_iff (bucket a) k)

  winner-found :
      (seen : List Snapshot) (newest : Dict Snapshot) (a : Snapshot) (o : Option Snapshot)
      → Holds seen newest
      → o ≡ lookup (bucket a) newest
      → (bucket (winner o a) ≡ bucket a) × In (winner o a) (a ∷ seen)
  winner-found seen newest a none h e = (refl, inl refl)
  winner-found seen newest a (some c) h e =
      let f = h.found (bucket a) c (sym e) in
      elim (Bool-cases (text_lt c.id a.id)) [
        | inl less ↦
            let w : winner (some c) a ≡ a = rw less in
            subst (λ x. (bucket x ≡ bucket a) × In x (a ∷ seen)) (sym w) (refl, inl refl)
        | inr more ↦
            let w : winner (some c) a ≡ c = rw more in
            subst (λ x. (bucket x ≡ bucket a) × In x (a ∷ seen)) (sym w) (f.0, inr f.1)
      ]

  winner-covers :
      (a : Snapshot) (o : Option Snapshot)
      → (text_lt (winner o a).id a.id ≡ false)
        × ((c : Snapshot) → o ≡ some c → text_lt (winner o a).id c.id ≡ false)
  winner-covers a none = (lt_irrefl a.id, λ c e. cc)
  winner-covers a (some c) =
      (ground (arith, lt_irrefl a.id), λ d e. ground (arith, lt_irrefl c.id, lt_asymm c.id a.id, e))

  note_newest-Holds :
      (seen : List Snapshot) (newest : Dict Snapshot) (a : Snapshot)
      → Holds seen newest
      → Holds (a ∷ seen) (note_newest bucket newest a)
  note_newest-Holds seen newest a h = record {
    found = λ k s. rw lookup-note_newest (found_case k s (text_eq (bucket a) k) refl);
    covers = λ t m. rw lookup-note_newest (covers_case t m (text_eq (bucket a) (bucket t)) refl);
  }
    where
      o : Option Snapshot
      o = lookup (bucket a) newest

      found_case :
          (k : List ℕ) (s : Snapshot) (b : Bool)
          → text_eq (bucket a) k ≡ b
          → (if b then some (winner o a) else lookup k newest) ≡ some s
          → (bucket s ≡ k) × In s (a ∷ seen)
      found_case k s true e p =
          let f = winner-found seen newest a o h refl in
          let same : winner o a ≡ s = cc in
          subst (λ x. (bucket x ≡ k) × In x (a ∷ seen)) same (f.0 ∙ (eq_iff (bucket a) k).0 e, f.1)
      found_case k s false e p = let f = h.found k s p in (f.0, inr f.1)

      covers_case :
          (t : Snapshot)
          → In t (a ∷ seen)
          → (b : Bool) → text_eq (bucket a) (bucket t) ≡ b
          → (s : Snapshot) × ((if b then some (winner o a) else lookup (bucket t) newest) ≡ some s)
            × (text_lt s.id t.id ≡ false)
      covers_case t (inl same) true e = (
        winner o a,
        refl,
        subst (λ x. text_lt (winner o a).id x.id ≡ false) (sym same) (winner-covers a o).0,
      )
      covers_case t (inr m) true e =
          let (s, p, q) = h.covers t m in
          let p' : o ≡ some s =
            ap (λ k. lookup k newest) ((eq_iff (bucket a) (bucket t)).0 e) ∙ p in
          (winner o a, refl, le_trans t.id s.id (winner o a).id q ((winner-covers a o).1 s p'))
      covers_case t (inl same) false e =
          let bad : text_eq (bucket a) (bucket t) ≡ true =
            (eq_iff (bucket a) (bucket t)).1 (ap bucket (sym same)) in
          cc
      covers_case t (inr m) false e = h.covers t m

  pub newest_in_bucket-Holds :
      (seen snaps : List Snapshot) (newest : Dict Snapshot)
      → Holds seen newest
      → (all : List Snapshot) × Holds all (newest_in_bucket bucket newest snaps)
        × ((t : Snapshot) → (In t all) ↔ (In t snaps ⊎ In t seen))
  unfolding newest_in_bucket
  newest_in_bucket-Holds seen [] newest h =
      (seen, h, λ t. (λ m. inr m, λ m. elim m [ inl n ↦ elim n [ ] | inr n ↦ n ]))
  newest_in_bucket-Holds seen (a ∷ snaps) newest h =
      let (all, g, same) =
        newest_in_bucket-Holds (a ∷ seen) snaps (note_newest bucket newest a)
          (note_newest-Holds seen newest a h) in
      (all, g, λ t. (λ m. ground (arith, (same t).0 m), λ m. (same t).1 (ground (arith, m))))

  -- The keys of a dict whose lookups all succeed come back as the buckets of the values.
  pub map-snaps_at :
      (seen : List Snapshot) (newest : Dict Snapshot)
      → Holds seen newest
      → (ks : List (List ℕ)) → All (λ k. is_some (lookup k newest) ≡ true) ks
      → map bucket (snaps_at newest ks) ≡ ks
  unfolding snaps_at
  map-snaps_at seen newest h [] a = refl
  map-snaps_at seen newest h (k ∷ ks) a = elim (Option-cases (lookup k newest)) [
    | inl e ↦ absurd (ground (arith, a.0, e))
    | inr (s, e) ↦ ground (arith, e, (h.found k s e).0, map-snaps_at seen newest h ks a.1)
  ]

-- ===== src/Retention/Count.antt =====
-- What count-based retention promises: an id goes when, and only when, enough newer ones stay.
use cs_backup_helper.Base.{
  ℕ, zero, suc, ◌-◌, ◌≤◌, ◌<◌, ◌≡◌, refl, sym, ◌∙◌, inl, inr, Bool, true, false, not, List, [], ◌∷◌,
  arith, ◌==◌, length, drop, All, count_if, length-drop, length-map, Bool-cases, length-eq-count_if,
  any-map,
}
use cs_backup_helper.Base.Int.{ℤ, pos, negsuc}
use cs_backup_helper.Base.Text.{Text, text_eq, text_lt, elem, eq_iff, lt_irrefl}
use cs_backup_helper.Base.Sort.{
  sort_desc, IsDescending, sort_desc-IsDescending, count_if-sort_desc, any-sort_desc,
}
use cs_backup_helper.Retention.{Snapshot, ids}
use cs_backup_helper.Retention.Policies.{count_prunable}

abbrev pub by_id : Snapshot → Text
by_id s = s.id

-- The id of `s` is `x` or a newer one; it is a newer one.
abbrev pub at_least : Text → Snapshot → Bool
at_least x s = not (text_lt s.id x)

abbrev pub above : Text → Snapshot → Bool
above x s = text_lt x s.id

not-lt-of_elem :
    (a : Snapshot) (x : Text) (xs : List Snapshot)
    → All (λ b. text_lt (by_id a) (by_id b) ≡ false) xs
    → elem x (ids xs) ≡ true
    → text_lt a.id x ≡ false
not-lt-of_elem a x [] h m = ground arith
not-lt-of_elem a x (b ∷ xs) h m = ground (arith, eq_iff x b.id, not-lt-of_elem a x xs h.1)

elem-drop :
    (k : ℕ) (x : Text) (xs : List Snapshot)
    → elem x (ids (drop k xs)) ≡ true
    → elem x (ids xs) ≡ true
elem-drop zero x xs m = m
elem-drop (suc k) x [] m = m
elem-drop (suc k) x (a ∷ xs) m = ground (arith, elem-drop k x xs m)

pub count_prunable-elem :
    (snaps : List Snapshot) (count : ℤ) (x : Text)
    → elem x (count_prunable snaps count) ≡ true
    → elem x (ids snaps) ≡ true
unfolding count_prunable
count_prunable-elem snaps (negsuc n) x m = absurd (ground arith)
count_prunable-elem snaps (pos keep) x m =
    let sorted = sort_desc by_id snaps in
    let same : elem x (ids sorted) ≡ elem x (ids snaps) =
      any-map (text_eq x) by_id sorted
      ∙ any-sort_desc by_id (λ s. text_eq x (by_id s)) snaps
      ∙ sym (any-map (text_eq x) by_id snaps) in
    ground (arith, m, same, elem-drop keep x sorted)

count-of_elem :
    (x : Text) (xs : List Snapshot) → elem x (ids xs) ≡ true → 0 < count_if (at_least x) xs
count-of_elem x [] m = ground arith
count-of_elem x (a ∷ xs) m = ground (arith, eq_iff x a.id, lt_irrefl x, count-of_elem x xs)

outranked :
    (k : ℕ) (x : Text) (xs : List Snapshot)
    → IsDescending by_id xs
    → elem x (ids (drop k xs)) ≡ true
    → k < count_if (at_least x) xs
outranked zero x xs d m = count-of_elem x xs m
outranked (suc k) x [] d m = ground arith
outranked (suc k) x (a ∷ xs) d m =
    ground (arith, outranked k x xs d.1 m, not-lt-of_elem a x xs d.0 (elem-drop k x xs m))

count-above-head :
    (a : Snapshot) (xs : List Snapshot)
    → All (λ b. text_lt (by_id a) (by_id b) ≡ false) xs
    → count_if (above a.id) xs ≡ 0
count-above-head a [] h = refl
count-above-head a (b ∷ xs) h = ground (arith, h.0, count-above-head a xs h.1)

dropped :
    (k : ℕ) (x : Text) (xs : List Snapshot)
    → IsDescending by_id xs
    → elem x (ids xs) ≡ true
    → k ≤ count_if (above x) xs
    → elem x (ids (drop k xs)) ≡ true
dropped zero x xs d m h = m
dropped (suc k) x [] d m h = m
dropped (suc k) x (a ∷ xs) d m h = elim (Bool-cases (text_eq x a.id)) [
  | inl e ↦
      let same : x ≡ a.id = (eq_iff x a.id).0 e in
      absurd (ground (arith, same, count-above-head a xs d.0, lt_irrefl a.id))
  | inr e ↦ dropped k x xs d.1 (ground arith) (ground arith)
]

module _ (snaps : List Snapshot) (keep : ℕ) (positive : 0 < keep) where
  -- With a positive `keep`, an id that count retention prunes has, with itself, more than `keep`
  -- snapshots of its own or a newer id, so at least `keep` others; and the id of a snapshot with
  -- `keep` or more newer snapshots is pruned.
  pub count_prunable_exact :
      (x : Text)
      → (elem x (count_prunable snaps (pos keep)) ≡ true → keep < count_if (at_least x) snaps)
        × (elem x (ids snaps) ≡ true
            → keep ≤ count_if (above x) snaps
            → elem x (count_prunable snaps (pos keep)) ≡ true)
  unfolding count_prunable
  count_prunable_exact x =
      let sorted = sort_desc by_id snaps in
      let d = sort_desc-IsDescending by_id snaps in
      let nonzero : (keep == 0) ≡ false = ground arith in
      rw nonzero (
        λ m. rw (← count_if-sort_desc by_id (at_least x) snaps) (outranked keep x sorted d m),
        λ m h.
            dropped keep x sorted d (rw (any-map, any-sort_desc) (rw any-map at m))
              (rw (count_if-sort_desc by_id (above x) snaps) h),
      )

  -- Count retention prunes all but `keep` of the snapshots, and none when there are no more.
  length-count_prunable : length (count_prunable snaps (pos keep)) ≡ length snaps - keep
  unfolding count_prunable
  length-count_prunable =
      let nonzero : (keep == 0) ≡ false = ground arith in
      let sorted = sort_desc by_id snaps in
      let same : length sorted ≡ length snaps =
        length-eq-count_if sorted
        ∙ count_if-sort_desc by_id (λ _. true) snaps
        ∙ sym (length-eq-count_if snaps) in
      rw nonzero (
        omega (
          arith,
          length-map (λ (s : Snapshot). s.id) (drop keep sorted),
          length-drop keep sorted,
          same,
        ))

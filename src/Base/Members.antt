-- ===== src/Base/Members.antt =====
-- Membership in lists that were filtered, sorted or put together.
use mathlib.Core.Path.{◌≡◌, refl, sym, ap, subst}
use mathlib.Core.Logic.{◌⊎◌, inl, inr}
use mathlib.Core.Bool.{Bool, true}
use mathlib.Core.List.{List, [], ◌∷◌, ◌++◌, map}
use native.Mathlib.Omega.{arith}
use cs_backup_helper.Base.Tests.{Bool-cases}
use cs_backup_helper.Base.Lists.{keep_if, In, any-In, In-any}
use cs_backup_helper.Base.Text.{Text, text_eq, text_lt, elem, eq_iff, eq_refl}
use cs_backup_helper.Base.Sort.{insert_asc, sort_asc}
use cs_backup_helper.Base.Words.{distinct}

module _ {A : Type 0} where
  pub In-keep_if : (p : A → Bool) (xs : List A) (a : A) → In a xs → p a ≡ true → In a (keep_if p xs)
  In-keep_if p [] a m h = m
  In-keep_if p (x ∷ xs) a (inl e) h =
      let q : p x ≡ true = subst (λ y. p y ≡ true) e h in rw q (inl e)
  In-keep_if p (x ∷ xs) a (inr m) h = elim (Bool-cases (p x)) [
    | inl e ↦ rw e (inr (In-keep_if p xs a m h))
    | inr e ↦ rw e (In-keep_if p xs a m h)
  ]

  -- What a filter keeps was there and passes.
  pub kept_by_keep_if :
      (p : A → Bool) (xs : List A) (a : A) → In a (keep_if p xs) → In a xs × (p a ≡ true)
  kept_by_keep_if p [] a m = elim m [ ]
  kept_by_keep_if p (x ∷ xs) a m = elim (Bool-cases (p x)) [
    | inl e ↦
        let m' : In a (x ∷ keep_if p xs) = rw e at m in
        elim m' [
          | inl q ↦ (inl q, subst (λ y. p y ≡ true) (sym q) e)
          | inr k ↦ let (i, h) = kept_by_keep_if p xs a k in (inr i, h)
        ]
    | inr e ↦
        let m' : In a (keep_if p xs) = rw e at m in
        let (i, h) = kept_by_keep_if p xs a m' in (inr i, h)
  ]

  module _ (key : A → Text) where
    In-insert_asc : (b : A) (xs : List A) (a : A) → (a ≡ b) ⊎ In a xs → In a (insert_asc key b xs)
    unfolding insert_asc
    In-insert_asc b [] a m = m
    In-insert_asc b (x ∷ xs) a m = elim (Bool-cases (text_lt (key x) (key b))) [
      | inl e ↦ rw e (elim m [
        | inl q ↦ inr (In-insert_asc b xs a (inl q))
        | inr (inl q) ↦ inl q
        | inr (inr k) ↦ inr (In-insert_asc b xs a (inr k))
      ])
      | inr e ↦ rw e m
    ]

    In-of_insert_asc :
        (b : A) (xs : List A) (a : A) → In a (insert_asc key b xs) → (a ≡ b) ⊎ In a xs
    unfolding insert_asc
    In-of_insert_asc b [] a m = m
    In-of_insert_asc b (x ∷ xs) a m = elim (Bool-cases (text_lt (key x) (key b))) [
      | inl e ↦
          let m' : In a (x ∷ insert_asc key b xs) = rw e at m in
          elim m' [
            | inl q ↦ inr (inl q)
            | inr k ↦ elim (In-of_insert_asc b xs a k) [ inl q ↦ inl q | inr i ↦ inr (inr i) ]
          ]
      | inr e ↦ let m' : In a (b ∷ x ∷ xs) = rw e at m in m'
    ]

    -- Sorting keeps the members, both ways.
    pub In-sort_asc : (xs : List A) (a : A) → In a xs → In a (sort_asc key xs)
    unfolding sort_asc
    In-sort_asc [] a m = m
    In-sort_asc (x ∷ xs) a (inl e) = In-insert_asc x (sort_asc key xs) a (inl e)
    In-sort_asc (x ∷ xs) a (inr m) = In-insert_asc x (sort_asc key xs) a (inr (In-sort_asc xs a m))

    pub In-of_sort_asc : (xs : List A) (a : A) → In a (sort_asc key xs) → In a xs
    unfolding sort_asc
    In-of_sort_asc [] a m = m
    In-of_sort_asc (x ∷ xs) a m = elim (In-of_insert_asc x (sort_asc key xs) a m) [
      | inl e ↦ inl e
      | inr k ↦ inr (In-of_sort_asc xs a k)
    ]

  pub In-append : (xs ys : List A) (a : A) → In a xs ⊎ In a ys → In a (xs ++ ys)
  In-append [] ys a (inl m) = elim m [ ]
  In-append [] ys a (inr m) = m
  In-append (x ∷ xs) ys a (inl (inl e)) = inl e
  In-append (x ∷ xs) ys a (inl (inr m)) = inr (In-append xs ys a (inl m))
  In-append (x ∷ xs) ys a (inr m) = inr (In-append xs ys a (inr m))

  pub In-of_append : (xs ys : List A) (a : A) → In a (xs ++ ys) → In a xs ⊎ In a ys
  In-of_append [] ys a m = inr m
  In-of_append (x ∷ xs) ys a (inl e) = inl (inl e)
  In-of_append (x ∷ xs) ys a (inr m) = elim (In-of_append xs ys a m) [
    | inl i ↦ inl (inr i)
    | inr i ↦ inr i
  ]

pub In-map : {A B : Type 0} (f : A → B) (xs : List A) (a : A) → In a xs → In (f a) (map f xs)
In-map f [] a m = elim m [ ]
In-map f (x ∷ xs) a (inl e) = inl (ap f e)
In-map f (x ∷ xs) a (inr m) = inr (In-map f xs a m)

pub In-of_map :
    {A B : Type 0} (f : A → B) (xs : List A) (b : B)
    → In b (map f xs)
    → (a : A) × In a xs × (b ≡ f a)
In-of_map f [] b m = elim m [ ]
In-of_map f (x ∷ xs) b (inl e) = (x, inl refl, e)
In-of_map f (x ∷ xs) b (inr m) = let (a, i, e) = In-of_map f xs b m in (a, inr i, e)

-- `x in xs` is membership.
pub elem-In : (x : Text) (xs : List Text) → In x xs → elem x xs ≡ true
elem-In x xs m = any-In (text_eq x) xs x m (eq_refl x)

pub In-elem : (x : Text) (xs : List Text) → elem x xs ≡ true → In x xs
In-elem x xs h =
    let (y, m, e) = In-any (text_eq x) xs h in subst (λ z. In z xs) (sym ((eq_iff x y).0 e)) m

-- A set has the members of the list.
pub elem-distinct : (x : Text) (xs : List Text) → elem x (distinct xs) ≡ elem x xs
unfolding distinct
elem-distinct x [] = refl
elem-distinct x (y ∷ xs) = ground (arith, elem-distinct x xs, elem-distinct y xs, eq_iff x y)

-- ===== src/Base/Sort.antt =====
-- `sorted(xs, key=key)` and `sorted(xs, key=key, reverse=True)`, by insertion: both are stable.
use Prim.Native.Nat.{◌+◌}
use mathlib.Core.Path.{◌≡◌, refl}
use mathlib.Core.Bool.{Bool, false, ◌||◌}
use mathlib.Core.List.{List, [], ◌∷◌}
use native.Mathlib.Omega.{arith}
use cs_backup_helper.Base.Tests.{if◌then◌else◌}
use cs_backup_helper.Base.Lists.{any, All, count_if}
use cs_backup_helper.Base.Text.{Text, text_lt, le_trans, lt_asymm}

module _ {A : Type 0} (key : A → Text) where
  -- Before the first item with a smaller key: equal keys keep their order.
  unfoldable pub insert_desc : A → List A → List A
  insert_desc a [] = a ∷ []
  insert_desc a (b ∷ bs) =
      let rest = b ∷ insert_desc a bs in if text_lt (key b) (key a) then a ∷ b ∷ bs else rest

  insert_all : List A → List A → List A
  insert_all acc [] = acc
  insert_all acc (a ∷ xs) = insert_all (insert_desc a acc) xs

  unfoldable pub sort_desc : List A → List A
  unfolding insert_all insert_desc
  sort_desc xs = insert_all [] xs

  unfoldable pub insert_asc : A → List A → List A
  insert_asc a [] = a ∷ []
  insert_asc a (b ∷ bs) =
      let rest = b ∷ insert_asc a bs in if text_lt (key b) (key a) then rest else a ∷ b ∷ bs

  unfoldable pub sort_asc : List A → List A
  unfolding insert_asc
  sort_asc [] = []
  sort_asc (a ∷ xs) = insert_asc a (sort_asc xs)

  -- Every key is at most the ones before it.
  abbrev pub IsDescending : List A → Type 0
  IsDescending [] = Unit
  IsDescending (a ∷ xs) = All (λ b. text_lt (key a) (key b) ≡ false) xs × IsDescending xs

  any-insert_desc :
      (p : A → Bool) (a : A) (bs : List A) → any p (insert_desc a bs) ≡ (p a || any p bs)
  unfolding insert_desc
  any-insert_desc p a [] = refl
  any-insert_desc p a (b ∷ bs) = ground (arith, any-insert_desc p a bs)

  any-insert_all :
      (p : A → Bool) (acc xs : List A) → any p (insert_all acc xs) ≡ (any p acc || any p xs)
  unfolding insert_all
  any-insert_all p acc [] = ground arith
  any-insert_all p acc (a ∷ xs) =
      ground (arith, any-insert_all p (insert_desc a acc) xs, any-insert_desc p a acc)

  -- Sorting keeps the elements.
  pub any-sort_desc : (p : A → Bool) (xs : List A) → any p (sort_desc xs) ≡ any p xs
  unfolding sort_desc
  any-sort_desc p xs = any-insert_all p [] xs

  any-insert_asc :
      (p : A → Bool) (a : A) (bs : List A) → any p (insert_asc a bs) ≡ (p a || any p bs)
  unfolding insert_asc
  any-insert_asc p a [] = refl
  any-insert_asc p a (b ∷ bs) = ground (arith, any-insert_asc p a bs)

  pub any-sort_asc : (p : A → Bool) (xs : List A) → any p (sort_asc xs) ≡ any p xs
  unfolding sort_asc
  any-sort_asc p [] = refl
  any-sort_asc p (a ∷ xs) = ground (arith, any-insert_asc p a (sort_asc xs), any-sort_asc p xs)

  count_if-insert_desc :
      (p : A → Bool) (a : A) (bs : List A) → count_if p (insert_desc a bs) ≡ count_if p (a ∷ bs)
  unfolding insert_desc
  count_if-insert_desc p a [] = refl
  count_if-insert_desc p a (b ∷ bs) = ground (arith, count_if-insert_desc p a bs)

  count_if-insert_all :
      (p : A → Bool) (acc xs : List A)
      → count_if p (insert_all acc xs) ≡ count_if p acc + count_if p xs
  unfolding insert_all
  count_if-insert_all p acc [] = omega arith
  count_if-insert_all p acc (a ∷ xs) =
      ground (arith, count_if-insert_all p (insert_desc a acc) xs, count_if-insert_desc p a acc)

  -- Sorting keeps how often each element stands in the list.
  pub count_if-sort_desc : (p : A → Bool) (xs : List A) → count_if p (sort_desc xs) ≡ count_if p xs
  unfolding sort_desc
  count_if-sort_desc p xs = omega (arith, count_if-insert_all p [] xs)

  All-insert_desc :
      (b a : A) (bs : List A)
      → text_lt (key b) (key a) ≡ false
      → All (λ c. text_lt (key b) (key c) ≡ false) bs
      → All (λ c. text_lt (key b) (key c) ≡ false) (insert_desc a bs)
  unfolding insert_desc
  All-insert_desc b a [] h all = (h, tt)
  All-insert_desc b a (c ∷ bs) h all = ground (arith, All-insert_desc b a bs h all.1)

  All-le_trans :
      (a b : A) (bs : List A)
      → text_lt (key a) (key b) ≡ false
      → All (λ c. text_lt (key b) (key c) ≡ false) bs
      → All (λ c. text_lt (key a) (key c) ≡ false) bs
  All-le_trans a b [] h all = tt
  All-le_trans a b (c ∷ bs) h all =
      (le_trans (key c) (key b) (key a) all.0 h, All-le_trans a b bs h all.1)

  insert_desc-IsDescending :
      (a : A) (bs : List A) → IsDescending bs → IsDescending (insert_desc a bs)
  unfolding insert_desc
  insert_desc-IsDescending a [] d = (tt, tt)
  insert_desc-IsDescending a (b ∷ bs) d = ground (
    arith,
    insert_desc-IsDescending a bs d.1,
    All-insert_desc b a bs,
    All-le_trans a b bs,
    lt_asymm (key b) (key a),
  )

  insert_all-IsDescending : (acc xs : List A) → IsDescending acc → IsDescending (insert_all acc xs)
  unfolding insert_all
  insert_all-IsDescending acc [] d = d
  insert_all-IsDescending acc (a ∷ xs) d =
      insert_all-IsDescending (insert_desc a acc) xs (insert_desc-IsDescending a acc d)

  pub sort_desc-IsDescending : (xs : List A) → IsDescending (sort_desc xs)
  unfolding sort_desc
  sort_desc-IsDescending xs = insert_all-IsDescending [] xs tt

-- ===== src/Base/Text.antt =====
-- Text as the list of its code points: Python compares, slices and searches `str` by code point.
-- The order also serves Python tuples of integers, which compare in the same way.
use Prim.Native.Nat.{ℕ}
use Prim.Native.Char.{code}
use Prim.Native.String.{String}
use mathlib.Core.Path.{◌≡◌, refl}
use mathlib.Core.Logic.{◌↔◌}
use mathlib.Core.Bool.{Bool, true, false, not, ◌&&◌, ◌||◌}
use mathlib.Core.Option.{Option, none, some}
use mathlib.Core.List.{List, [], ◌∷◌, ◌++◌}
use native.Mathlib.Omega.{arith}
use cs_backup_helper.Base.Tests.{ltb, ◌==◌, if◌then◌else◌}
use cs_backup_helper.Base.Lists.{any}

abbrev pub Text : Type 0
Text = List ℕ

-- The text of a literal.
abbrev pub codes : String → Text
codes String.[] = []
codes (String.◌∷◌ c s) = code c ∷ codes s

unfoldable pub text_eq : Text → Text → Bool
text_eq [] [] = true
text_eq [] (b ∷ t) = false
text_eq (a ∷ s) [] = false
text_eq (a ∷ s) (b ∷ t) = a == b && text_eq s t

-- `s < t`
unfoldable pub text_lt : Text → Text → Bool
text_lt s [] = false
text_lt [] (b ∷ t) = true
text_lt (a ∷ s) (b ∷ t) = ltb a b || (a == b && text_lt s t)

-- `s <= t`
abbrev pub text_le : Text → Text → Bool
text_le s t = not (text_lt t s)

-- `x in xs`
abbrev pub elem : Text → List Text → Bool
elem x xs = any (text_eq x) xs

-- `s.startswith(p)`, and what follows `p`.
unfoldable pub starts_with : Text → Text → Bool
starts_with [] s = true
starts_with (a ∷ p) [] = false
starts_with (a ∷ p) (b ∷ s) = a == b && starts_with p s

-- `s[: -len(suffix)]` if `s.endswith(suffix)`.
unfoldable pub strip_suffix : Text → Text → Option Text
strip_suffix suffix [] = if text_eq suffix [] then some [] else none
strip_suffix suffix (c ∷ s) =
    let rest : Option Text = elim (strip_suffix suffix s) [ none ↦ none | some r ↦ some (c ∷ r) ] in
    if text_eq suffix (c ∷ s) then some [] else rest

pub eq_iff : (s t : Text) → (text_eq s t ≡ true) ↔ (s ≡ t)
unfolding text_eq
eq_iff [] [] = ground arith
eq_iff [] (b ∷ t) = ground arith
eq_iff (a ∷ s) [] = ground arith
eq_iff (a ∷ s) (b ∷ t) = ground (arith, eq_iff s t)

pub eq_refl : (s : Text) → text_eq s s ≡ true
eq_refl s = (eq_iff s s).1 refl

pub eq_sym : (s t : Text) → text_eq s t ≡ text_eq t s
unfolding text_eq
eq_sym [] [] = refl
eq_sym [] (b ∷ t) = refl
eq_sym (a ∷ s) [] = refl
eq_sym (a ∷ s) (b ∷ t) = ground (arith, eq_sym s t)

pub lt_irrefl : (s : Text) → text_lt s s ≡ false
unfolding text_lt
lt_irrefl [] = refl
lt_irrefl (a ∷ s) = ground (arith, lt_irrefl s)

pub lt_trans : (s t u : Text) → text_lt s t ≡ true → text_lt t u ≡ true → text_lt s u ≡ true
unfolding text_lt
lt_trans s [] u h k = ground arith
lt_trans s (b ∷ t) [] h k = ground arith
lt_trans [] (b ∷ t) (c ∷ u) h k = refl
lt_trans (a ∷ s) (b ∷ t) (c ∷ u) h k = ground (arith, lt_trans s t u)

pub lt_asymm : (s t : Text) → text_lt s t ≡ true → text_lt t s ≡ false
unfolding text_lt
lt_asymm s [] h = ground arith
lt_asymm [] (b ∷ t) h = refl
lt_asymm (a ∷ s) (b ∷ t) h = ground (arith, lt_asymm s t)

pub eq_of_not_lt : (s t : Text) → text_lt s t ≡ false → text_lt t s ≡ false → s ≡ t
unfolding text_lt
eq_of_not_lt [] [] h k = refl
eq_of_not_lt [] (b ∷ t) h k = ground arith
eq_of_not_lt (a ∷ s) [] h k = ground arith
eq_of_not_lt (a ∷ s) (b ∷ t) h k = ground (arith, eq_of_not_lt s t)

pub lt-le_trans : (s t u : Text) → text_lt s t ≡ true → text_lt u t ≡ false → text_lt s u ≡ true
unfolding text_lt
lt-le_trans s [] u h k = ground arith
lt-le_trans s (b ∷ t) [] h k = ground arith
lt-le_trans [] (b ∷ t) (c ∷ u) h k = refl
lt-le_trans (a ∷ s) (b ∷ t) (c ∷ u) h k = ground (arith, lt-le_trans s t u)

pub le_trans : (s t u : Text) → text_lt t s ≡ false → text_lt u t ≡ false → text_lt u s ≡ false
unfolding text_lt
le_trans s [] [] h k = h
le_trans s (b ∷ t) [] h k = ground arith
le_trans [] t (c ∷ u) h k = refl
le_trans (a ∷ s) [] (c ∷ u) h k = ground arith
le_trans (a ∷ s) (b ∷ t) (c ∷ u) h k = ground (arith, le_trans s t u)

pub starts_with-append : (p s : Text) → starts_with p (p ++ s) ≡ true
unfolding starts_with
starts_with-append [] s = refl
starts_with-append (a ∷ p) s = ground (arith, starts_with-append p s)

pub elem-append : (x : Text) (xs ys : List Text) → elem x (xs ++ ys) ≡ (elem x xs || elem x ys)
elem-append x [] ys = refl
elem-append x (y ∷ xs) ys = ground (arith, elem-append x xs ys)

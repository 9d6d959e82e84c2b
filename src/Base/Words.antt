-- ===== src/Base/Words.antt =====
-- Python's methods on `str` that split, strip and join, on text as code points.
use Prim.Native.Nat.{◌*◌, ◌-◌, ℕ, zero, suc, ◌/◌, ◌%◌, ◌+◌}
use mathlib.Core.Bool.{not, Bool, ◌&&◌, ◌||◌}
use mathlib.Core.Option.{Option, none, some}
use mathlib.Core.List.{List, [], ◌∷◌, ◌++◌}
use cs_backup_helper.Base.Tests.{ltb, leb, ◌==◌, if◌then◌else◌, is_some}
use cs_backup_helper.Base.Lists.{all, is_empty}
use cs_backup_helper.Base.Text.{Text, elem, starts_with, strip_suffix}

-- `c.isspace()`
unfoldable pub is_space : ℕ → Bool
is_space c =
    leb 9 c && leb c 13
    || leb 28 c && leb c 32
    || c == 133
    || c == 160
    || c == 5760
    || leb 8192 c && leb c 8202
    || c == 8232
    || c == 8233
    || c == 8239
    || c == 8287
    || c == 12288

-- What ends a line for `s.splitlines()`.
unfoldable pub is_line_break : ℕ → Bool
is_line_break c = leb 10 c && leb c 13 || leb 28 c && leb c 30 || c == 133 || c == 8232 || c == 8233

abbrev pub put_first : ℕ → List Text → List Text
put_first c [] = (c ∷ []) ∷ []
put_first c (w ∷ ws) = (c ∷ w) ∷ ws

-- `s.split(sep)` for one code point.
unfoldable pub split_at : ℕ → Text → List Text
split_at sep [] = [] ∷ []
split_at sep (c ∷ s) = let rest = split_at sep s in if c == sep then [] ∷ rest else put_first c rest

-- `s.splitlines()`; a carriage return and a line feed end one line.
unfoldable pub split_lines : Text → List Text
unfolding is_line_break starts_with
split_lines [] = []
split_lines (c ∷ s) =
    let rest = split_lines s in
    let broken = if (c == 13) && starts_with (10 ∷ []) s then rest else [] ∷ rest in
    if is_line_break c then broken else put_first c rest

-- `s.lstrip()`, `s.rstrip()` and `s.strip()`
unfoldable pub left_strip : Text → Text
unfolding is_space
left_strip [] = []
left_strip (c ∷ s) = let rest = left_strip s in if is_space c then rest else c ∷ s

unfoldable pub right_strip : Text → Text
unfolding is_space
right_strip [] = []
right_strip (c ∷ s) =
    let rest = right_strip s in if is_empty rest && is_space c then [] else c ∷ rest

unfoldable pub strip : Text → Text
unfolding left_strip right_strip
strip s = left_strip (right_strip s)

-- `sep.join(words)`
unfoldable pub join : Text → List Text → Text
join sep [] = []
join sep (w ∷ []) = w
join sep (w ∷ v ∷ ws) = w ++ (sep ++ join sep (v ∷ ws))

unfoldable pub ends_with : Text → Text → Bool
unfolding strip_suffix
ends_with suffix s = is_some (strip_suffix suffix s)

-- What precedes the last `c`.
unfoldable pub before_last : ℕ → Text → Option Text
before_last c [] = none
before_last c (d ∷ s) = elim (before_last c s) [
  | some start ↦ some (d ∷ start)
  | none ↦ if d == c then some [] else none
]

-- `hay.find(needle)`
unfoldable pub find : Text → Text → Option ℕ
unfolding starts_with
find needle [] = if starts_with needle [] then some 0 else none
find needle (c ∷ hay) =
    let later : Option ℕ = elim (find needle hay) [ none ↦ none | some i ↦ some (suc i) ] in
    if starts_with needle (c ∷ hay) then some 0 else later

-- `hay.replace(c, by)` for one code point.
unfoldable pub replace : ℕ → Text → Text → Text
replace c by [] = []
replace c by (d ∷ s) = let rest = replace c by s in if d == c then by ++ rest else d ∷ rest

-- `c.isdigit()` over ASCII.
unfoldable pub is_digit : ℕ → Bool
is_digit c = leb b'0' c && leb c b'9'

-- `s.isdigit()`, and `int(s)` then.
unfoldable pub is_number : Text → Bool
unfolding is_digit
is_number s = not (is_empty s) && all is_digit s

unfoldable pub number_from : ℕ → Text → ℕ
number_from acc [] = acc
number_from acc (c ∷ s) = number_from (acc * 10 + (c - 48)) s

-- The decimal digits of a number below `10 ^ fuel`.
unfoldable pub decimal_from : ℕ → ℕ → Text
decimal_from zero n = []
decimal_from (suc fuel) n =
    let more = decimal_from fuel (n / 10) ++ ((48 + n % 10) ∷ []) in
    if ltb n 10 then (48 + n) ∷ [] else more

-- `{x for x in xs}`, without an order.
unfoldable pub distinct : List Text → List Text
distinct [] = []
distinct (x ∷ xs) = let rest = distinct xs in if elem x rest then rest else x ∷ rest

-- ===== src/Filesystem/Glob.antt =====
-- `fnmatch.fnmatch` of Python, on a system with case-sensitive names: no repository code.
pub mod Below
use cs_backup_helper.Base.{
  ◌-◌, ◌<◌, Option-cases, ◌≤◌, ℕ, zero, suc, ◌+◌, ◌==◌, leb, Bool, true, false, not, ◌&&◌, ◌||◌,
  Option, none, some, List, [], ◌∷◌, ◌++◌, any, length, is_empty, if◌then◌else◌, ◌≡◌, refl, ap,
  Bool-cases, inl, inr, arith,
}
use cs_backup_helper.Base.Text.{Text, codes, strip_suffix, text_eq, eq_iff}

-- A run of any code points, any one, one in some ranges or in none of them, or a code point.
pub data Token : Type 0 where
  any_run any_one : Token
  one_of : Bool → List (ℕ × ℕ) → Token
  literal : ℕ → Token

abbrev pub in_ranges : ℕ → List (ℕ × ℕ) → Bool
in_ranges c [] = false
in_ranges c ((lo, hi) ∷ ranges) = leb lo c && leb c hi || in_ranges c ranges

-- The ranges in a class: `a-z`, or a code point alone.
unfoldable pub ranges_of : Text → List (ℕ × ℕ)
ranges_of [] = []
ranges_of (a ∷ []) = (a, a) ∷ []
ranges_of (a ∷ b ∷ []) = (a, a) ∷ (b, b) ∷ []
ranges_of (a ∷ b ∷ c ∷ s) =
    let range = (a, c) ∷ ranges_of s in
    let alone = (a, a) ∷ ranges_of (b ∷ c ∷ s) in if b == b'-' then range else alone

-- What precedes the first closing bracket.
unfoldable pub up_to_bracket : Text → Option Text
up_to_bracket [] = none
up_to_bracket (c ∷ s) =
    let rest : Option Text = elim (up_to_bracket s) [ none ↦ none | some t ↦ some (c ∷ t) ] in
    if c == b']' then some [] else rest

-- The first code point of a class belongs to it, also if it is a closing bracket.
abbrev pub class_content : Text → Option Text
class_content [] = none
class_content (c ∷ s) = elim (up_to_bracket s) [ none ↦ none | some t ↦ some (c ∷ t) ]

-- A class behind its opening bracket, and how many code points it takes with its closing one.
abbrev pub class_token : Bool → ℕ → Option Text → Option (Token × ℕ)
class_token negated more none = none
class_token negated more (some content) =
    some (one_of negated (ranges_of content), length content + more)

abbrev pub class_of : Text → Option (Token × ℕ)
class_of [] = none
class_of (c ∷ s) =
    if c == b'!'
    then class_token true 2 (class_content s)
    else class_token false 1 (class_content (c ∷ s))

-- The token that starts with a code point, and how many more code points it takes.
unfoldable pub token_at : ℕ → Text → Token × ℕ
unfolding up_to_bracket ranges_of
token_at c s =
    if c == b'*'
    then (any_run, 0)
    else if c == b'?'
    then (any_one, 0)
    else if c == b'['
    then elim (class_of s) [ none ↦ (literal c, 0) | some (t, n) ↦ (t, n) ]
    else (literal c, 0)

-- The tokens of a pattern; those code points that were taken are passed over.
unfoldable pub tokens : ℕ → Text → List Token
tokens skip [] = []
tokens zero (c ∷ s) = (token_at c s).0 ∷ tokens (token_at c s).1 s
tokens (suc skip) (c ∷ s) = tokens skip s

abbrev pub takes : Token → ℕ → Bool
takes any_run c = false
takes any_one c = true
takes (one_of true ranges) c = not (in_ranges c ranges)
takes (one_of false ranges) c = in_ranges c ranges
takes (literal d) c = c == d

abbrev pub any_suffix : (Text → Bool) → Text → Bool
any_suffix p [] = p []
any_suffix p (c ∷ s) = p (c ∷ s) || any_suffix p s

abbrev pub takes_first : Token → (Text → Bool) → Text → Bool
takes_first t p [] = false
takes_first t p (c ∷ s) = takes t c && p s

abbrev pub is_run : Token → Bool
is_run any_run = true
is_run t = false

unfoldable pub matches : List Token → Text → Bool
matches [] s = is_empty s
matches (t ∷ ts) s = if is_run t then any_suffix (matches ts) s else takes_first t (matches ts) s

unfoldable pub fnmatch : Text → Text → Bool
unfolding matches tokens token_at
fnmatch name pattern = matches (tokens 0 pattern) name

-- ===== src/Filesystem/Glob/Below.antt =====
-- A pattern `<dir>/*` matches everything below a directory that `<dir>` matches.
use cs_backup_helper.Base.{
  ◌-◌, ◌<◌, Option-cases, ◌≤◌, ℕ, zero, suc, ◌+◌, ◌==◌, Bool, true, false, Option, none, some, List,
  [], ◌∷◌, ◌++◌, length, is_empty, ◌≡◌, refl, ap, Bool-cases, inl, inr, arith,
}
use cs_backup_helper.Base.Text.{Text, codes, strip_suffix, text_eq, eq_iff}
use cs_backup_helper.Filesystem.Glob.{
  Token, any_run, literal, up_to_bracket, class_content, class_token, class_of, token_at, tokens,
  any_suffix, takes_first, is_run, matches, fnmatch,
}

-- A text that ends in a suffix.
pub strip_suffix-append :
    (suffix s start : Text) → strip_suffix suffix s ≡ some start → s ≡ start ++ suffix
unfolding strip_suffix
strip_suffix-append suffix [] start h = elim (Bool-cases (text_eq suffix [])) [
  | inl e ↦ let n : start ≡ [] = ground arith in rw (n, (eq_iff suffix []).0 e)
  | inr e ↦ absurd (ground arith)
]
strip_suffix-append suffix (c ∷ s) start h = elim (Bool-cases (text_eq suffix (c ∷ s))) [
  | inl e ↦ let n : start ≡ [] = ground arith in rw (n, (eq_iff suffix (c ∷ s)).0 e)
  | inr e ↦ elim (Option-cases (strip_suffix suffix s)) [
    | inl f ↦ absurd (ground arith)
    | inr (r, f) ↦
        let n : start ≡ c ∷ r = ground arith in
        rw n (ap (λ t. c ∷ t) (strip_suffix-append suffix s r f))
  ]
]

-- Two texts that match go with two patterns in a row.
any_suffix-start : (q : Text → Bool) (e : Text) → q e ≡ true → any_suffix q e ≡ true
any_suffix-start q [] h = h
any_suffix-start q (c ∷ e) h = ground arith

any_suffix-append :
    (p q : Text → Bool) (d e : Text)
    → ((s : Text) → p s ≡ true → q (s ++ e) ≡ true)
    → any_suffix p d ≡ true
    → any_suffix q (d ++ e) ≡ true
any_suffix-append p q [] e f h = any_suffix-start q e (f [] h)
any_suffix-append p q (c ∷ d) e f h = elim (Bool-cases (p (c ∷ d))) [
  | inl m ↦ let n = f (c ∷ d) m in ground arith
  | inr m ↦ let n = any_suffix-append p q d e f (ground arith) in ground arith
]

takes_first-append :
    (t : Token) (ts us : List Token) (d e : Text)
    → ((s : Text) → matches ts s ≡ true → matches (ts ++ us) (s ++ e) ≡ true)
    → takes_first t (matches ts) d ≡ true
    → takes_first t (matches (ts ++ us)) (d ++ e) ≡ true
takes_first-append t ts us [] e f h = cc
takes_first-append t ts us (c ∷ d) e f h = ground (arith, f d)

matches-append :
    (ts us : List Token) (d e : Text)
    → matches ts d ≡ true
    → matches us e ≡ true
    → matches (ts ++ us) (d ++ e) ≡ true
unfolding matches
matches-append [] us [] e h k = k
matches-append [] us (c ∷ d) e h k = cc
matches-append (t ∷ ts) us d e h k = elim (Bool-cases (is_run t)) [
  | inl r ↦ rw r (
      any_suffix-append (matches ts) (matches (ts ++ us)) d e (λ s m. matches-append ts us s e m k)
        (rw r at h))
  | inr r ↦ rw r (takes_first-append t ts us d e (λ s m. matches-append ts us s e m k) (rw r at h))
]

-- The pattern `<q>/*`: its tokens are those of `q`, a slash, and any run.
abbrev pub below_all : List Token
below_all = literal b'/' ∷ any_run ∷ []

up_to_bracket-append : (s : Text) → up_to_bracket (s ++ codes "/*") ≡ up_to_bracket s
unfolding up_to_bracket
up_to_bracket-append [] = refl
up_to_bracket-append (c ∷ s) = rw (up_to_bracket-append s)

class_content-append : (s : Text) → class_content (s ++ codes "/*") ≡ class_content s
unfolding up_to_bracket
class_content-append [] = refl
class_content-append (c ∷ s) = rw (up_to_bracket-append s, class_content)

class_of-append : (s : Text) → class_of (s ++ codes "/*") ≡ class_of s
unfolding up_to_bracket
class_of-append [] = refl
class_of-append (c ∷ s) = rw (class_content-append s, class_content-append (c ∷ s))

-- A token takes no more than there is.
up_to_bracket-lt : (s t : Text) → up_to_bracket s ≡ some t → length t < length s
unfolding up_to_bracket
up_to_bracket-lt [] t h = absurd (ground arith)
up_to_bracket-lt (c ∷ s) t h = elim (Option-cases (up_to_bracket s)) [
  | inl e ↦ ground arith
  | inr (u, e) ↦ let n = up_to_bracket-lt s u e in ground arith
]

class_content-lt : (s t : Text) → class_content s ≡ some t → length t < length s
class_content-lt [] t h = absurd (ground arith)
class_content-lt (c ∷ s) t h = elim (Option-cases (up_to_bracket s)) [
  | inl e ↦ absurd (ground arith)
  | inr (u, e) ↦ let n = up_to_bracket-lt s u e in ground arith
]

-- How much a class takes.
abbrev taken_by : Option (Token × ℕ) → ℕ
taken_by none = 0
taken_by (some (t, n)) = n

class_token-le :
    (negated : Bool) (more : ℕ) (s : Text) (content : Option Text)
    → class_content s ≡ content
    → taken_by (class_token negated more content) ≤ length s + (more - 1)
class_token-le negated more s none h = omega arith
class_token-le negated more s (some t) h = omega (arith, class_content-lt s t h)

class_of-le : (s : Text) → taken_by (class_of s) ≤ length s
class_of-le [] = omega arith
class_of-le (c ∷ s) = elim (Bool-cases (c == b'!')) [
  | inl e ↦ rw e (omega (arith, class_token-le true 2 s (class_content s) refl))
  | inr e ↦ rw e (omega (arith, class_token-le false 1 (c ∷ s) (class_content (c ∷ s)) refl))
]

token_at-le : (c : ℕ) (s : Text) → (token_at c s).1 ≤ length s
unfolding token_at
token_at-le c s = let n = class_of-le s in ground arith

token_at-append : (c : ℕ) (s : Text) → token_at c (s ++ codes "/*") ≡ token_at c s
unfolding token_at
token_at-append c s = rw (class_of-append s)

tokens-below : tokens 0 (codes "/*") ≡ below_all
unfolding tokens token_at
tokens-below = refl

tokens-append :
    (skip : ℕ) (s : Text)
    → skip ≤ length s
    → tokens skip (s ++ codes "/*") ≡ tokens skip s ++ below_all
unfolding tokens
tokens-append zero [] h = tokens-below
tokens-append (suc skip) [] h = absurd (omega arith)
tokens-append zero (c ∷ s) h =
    rw (token_at-append c s)
      (ap (λ l. (token_at c s).0 ∷ l) (tokens-append (token_at c s).1 s (token_at-le c s)))
tokens-append (suc skip) (c ∷ s) h = tokens-append skip s (omega arith)

any_suffix-is_empty : (s : Text) → any_suffix is_empty s ≡ true
any_suffix-is_empty [] = refl
any_suffix-is_empty (c ∷ s) = any_suffix-is_empty s

-- What a pattern matches, its `/*` extension matches with anything below.
pub fnmatch-below :
    (name more pattern : Text)
    → fnmatch name pattern ≡ true
    → fnmatch (name ++ (b'/' ∷ more)) (pattern ++ codes "/*") ≡ true
unfolding fnmatch
fnmatch-below name more pattern h =
    rw (tokens-append 0 pattern (omega arith))
      (matches-append (tokens 0 pattern) below_all name (b'/' ∷ more) h (any_suffix-is_empty more))

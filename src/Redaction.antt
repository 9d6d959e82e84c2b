-- ===== src/Redaction.antt =====
-- logging_setup.py: what counts as a secret, and the masking of a text.
pub mod Data
pub mod Keys
pub mod Pairs
pub mod Tests
unfoldable pub use Keys.*
use cs_backup_helper.Base.{
  ℕ, zero, suc, ◌+◌, ◌-◌, ◌==◌, leb, ltb, Bool, true, false, not, ◌&&◌, ◌||◌, Option, none, some,
  List, [], ◌∷◌, ◌++◌, map, any, length, is_empty, is_some, if◌then◌else◌,
}
use cs_backup_helper.Base.Text.{Text, codes, text_eq, starts_with}
use cs_backup_helper.Base.Words.{find, ends_with, is_space}

abbrev pub mask : Text
mask = codes "***"

-- The longest start of a text whose code points pass, and what follows.
abbrev pub span : (ℕ → Bool) → Text → Text × Text
span p [] = ([], [])
span p (c ∷ s) = let (run, rest) = span p s in if p c then (c ∷ run, rest) else ([], c ∷ s)

-- What a match of `_KEY` takes: its text, and the name in it.
abbrev pub Pair : Type 0
Pair = Text × Text

-- The end of a pair: blanks, a mark, blanks.
abbrev pub after_name : Text → Text → Text → Option Pair
after_name taken name s =
    let (blanks, rest) = span is_space s in
    elim rest [
      | [] ↦ none
      | c ∷ more ↦
          if c == b'=' || c == b':'
          then some (taken ++ (blanks ++ (c ∷ (span is_space more).0)), name)
          else none
    ]

abbrev pub quoted_name : ℕ → Text → Option Pair
quoted_name q s =
    let (name, rest) = span is_name_char s in
    elim rest [
      | [] ↦ none
      | c ∷ more ↦
          if is_empty name || not (c == q)
          then none
          else after_name (q ∷ (name ++ (q ∷ []))) name more
    ]

abbrev pub plain_name : Text → Option Pair
plain_name s =
    let (name, rest) = span is_name_char s in
    if is_empty name then none else after_name name name rest

-- A match at the start of a text, behind the code point before it.
unfoldable pub match_pair : Option ℕ → Text → Option Pair
match_pair before [] = none
match_pair before (c ∷ s) =
    let here = if is_quote c then quoted_name c s else plain_name (c ∷ s) in
    elim before [ none ↦ here | some b ↦ if is_name_char b then none else here ]

-- A quoted value up to its closing quote; a backslash takes the next code point, but no line feed.
unfoldable pub quoted_value : ℕ → Text → Option Text
quoted_value q [] = none
quoted_value q (c ∷ []) = if c == q then some (c ∷ []) else none
quoted_value q (c ∷ d ∷ s) =
    let escaped : Option Text = elim (quoted_value q s) [
      | none ↦ none
      | some v ↦ if d == 10 then none else some (c ∷ d ∷ v)
    ] in
    let next : Option Text = elim (quoted_value q (d ∷ s)) [
      | none ↦ none
      | some v ↦ some (c ∷ v)
    ] in
    if c == b'\\' then escaped else if c == q then some (c ∷ []) else next

abbrev pub bare_value : Text → Option Text
bare_value s =
    let run = (span (λ c. not (is_space c)) s).0 in if is_empty run then none else some run

-- `_VALUE.match`
unfoldable pub match_value : Text → Option Text
match_value [] = none
match_value (c ∷ s) =
    let bare = bare_value (c ∷ s) in
    let quoted : Option Text = elim (quoted_value c s) [ none ↦ bare | some v ↦ some (c ∷ v) ] in
    if is_quote c then quoted else bare

abbrev pub last_or : ℕ → Text → ℕ
last_or c [] = c
last_or c (d ∷ s) = last_or d s

-- The quote that is kept round a masked value.
abbrev pub kept_quote : Text → Text
kept_quote [] = []
kept_quote (c ∷ s) = if not (is_empty s) && is_quote c && (last_or c s == c) then c ∷ [] else []

-- The value of a secret is not printed; another is scanned in its turn.
abbrev pub masked : Text → Text
masked raw = kept_quote raw ++ (mask ++ kept_quote raw)

abbrev pub secret_value : Text → Text → Option Text
secret_value name after = if is_sensitive_key name then match_value after else none

abbrev pub drop_first : ℕ → Text → Text
drop_first zero s = s
drop_first (suc n) [] = []
drop_first (suc n) (c ∷ s) = drop_first n s

-- What is printed at a place, and how many code points further on are taken with it.
unfoldable pub printed_at : Option ℕ → ℕ → Text → Text × ℕ
printed_at before c s = elim (match_pair before (c ∷ s)) [
  | none ↦ (c ∷ [], 0)
  | some (taken, name) ↦ elim (secret_value name (drop_first (length taken) (c ∷ s))) [
    | none ↦ (taken, length taken - 1)
    | some raw ↦ (taken ++ masked raw, length taken + length raw - 1)
  ]
]

-- `_mask_pairs`, one code point after the other: those that were taken are passed over.
unfoldable pub mask_from : ℕ → Option ℕ → Text → Text
unfolding printed_at
mask_from skip before [] = []
mask_from zero before (c ∷ s) =
    let (out, skip) = printed_at before c s in out ++ mask_from skip (some c) s
mask_from (suc skip) before (c ∷ s) = mask_from skip (some c) s

unfoldable pub mask_pairs : Text → Text
unfolding mask_from
mask_pairs text = mask_from 0 none text

-- `_DSN`: what stands before the password, and the password.
abbrev pub password_after : Text → Text → Option (Text × Text)
password_after taken s =
    let (secret, rest) = span (λ c. not (c == b'@' || c == b'/' || is_space c)) s in
    elim rest [
      | [] ↦ none
      | c ∷ more ↦ if is_empty secret || not (c == b'@') then none else some (taken, secret)
    ]

abbrev pub user_after : Text → Option (Text × Text)
user_after s =
    let (user, rest) = span (λ c. not (c == b':' || c == b'/' || c == b'@' || is_space c)) s in
    elim rest [
      | [] ↦ none
      | c ∷ more ↦
          if is_empty user || not (c == b':')
          then none
          else password_after (codes "://" ++ (user ++ codes ":")) more
    ]

unfoldable pub match_dsn : Text → Option (Text × Text)
unfolding starts_with is_space
match_dsn s = if starts_with (codes "://") s then user_after (drop_first 3 s) else none

-- `_DSN.sub` over a text.
unfoldable pub mask_dsn_from : ℕ → Text → Text
unfolding match_dsn
mask_dsn_from skip [] = []
mask_dsn_from (suc skip) (c ∷ s) = mask_dsn_from skip s
mask_dsn_from zero (c ∷ s) =
    let found = match_dsn (c ∷ s) in
    let out : Text = elim found [
      | none ↦ c ∷ []
      | some (taken, secret) ↦ taken ++ (mask ++ codes "@")
    ] in
    let more : ℕ = elim found [ none ↦ 0 | some (taken, secret) ↦ length taken + length secret ] in
    out ++ mask_dsn_from more s

unfoldable pub redact : Text → Text
unfolding mask_pairs mask_dsn_from
redact text = mask_dsn_from 0 (mask_pairs text)

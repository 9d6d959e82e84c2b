-- ===== src/Postgres/Listing.antt =====
-- sources/postgres.py: the rows of the catalog query, and the entries of `pg_restore --list`.
pub mod RoundTrip
use cs_backup_helper.Base.{
  ℕ, ◌==◌, Bool, true, false, ◌||◌, Option, none, some, List, [], ◌∷◌, ◌++◌, map, length, is_empty,
  if◌then◌else◌,
}
use cs_backup_helper.Base.Maybe.{◌>>=◌}
use cs_backup_helper.Base.Text.{Text, codes, elem, starts_with, strip_suffix}
use cs_backup_helper.Base.Words.{
  split_at, strip, split_lines, before_last, is_digit, is_space, distinct,
}
use cs_backup_helper.Base.Sort.{sort_desc}
use cs_backup_helper.Base.Result.{Result, ok, raised, key_error, ◌>>=◌ as ◌then◌}
use cs_backup_helper.Postgres.Objects.{LiveObject, kind_of}

-- `fields.pop()` if the last field is blank.
unfoldable pub without_blank_end : List Text → List Text
unfolding strip
without_blank_end [] = []
without_blank_end (f ∷ []) = if is_empty (strip f) then [] else f ∷ []
without_blank_end (f ∷ g ∷ fs) = f ∷ without_blank_end (g ∷ fs)

-- Six fields make a row; what is left over at the end makes none.
abbrev pub Row : Type 0
Row = Text × Text × Text × Text × Text × Text

unfoldable pub rows_of : List Text → List Row
rows_of (a ∷ b ∷ c ∷ d ∷ e ∷ f ∷ rest) = (a, b, c, d, e, f) ∷ rows_of rest
rows_of _ = []

-- `_nul_rows(data, columns=6)`, of decoded data.
unfoldable pub nul_rows : Text → List Row
unfolding split_at without_blank_end rows_of
nul_rows raw = rows_of (without_blank_end (split_at 0 raw))

unfoldable pub live_object : Row → Option LiveObject
unfolding kind_of
live_object (k, s, n, c, q, r) = do
  kind ← kind_of k
  some (record { kind = kind; schema = s; name = n; constraint = c; quoted = q; ref_schema = r })

-- The rows as objects; a kind that the query does not give raises.
unfoldable pub live_objects : List Row → Result (List LiveObject)
unfolding live_object
live_objects [] = ok []
live_objects (row ∷ rows) = elim (live_object row) [
  | none ↦ raised key_error
  | some o ↦ elim (live_objects rows) [ ok os ↦ ok (o ∷ os) | raised e ↦ raised e ]
]

-- What follows a text, and what follows one or more code points of a class.
abbrev pub past : Text → Text → Option Text
past [] s = some s
past (c ∷ p) [] = none
past (c ∷ p) (d ∷ s) = if c == d then past p s else none

abbrev pub past_all : (ℕ → Bool) → Text → Text
past_all p [] = []
past_all p (c ∷ s) = let rest = past_all p s in if p c then rest else c ∷ s

abbrev pub past_some : (ℕ → Bool) → Text → Option Text
past_some p [] = none
past_some p (c ∷ s) = if p c then some (past_all p s) else none

unfoldable pub past_catalog : Text → Option Text
past_catalog s = elim (past (codes "1247") s) [
  | some rest ↦ some rest
  | none ↦ elim (past (codes "1255") s) [
    | some rest ↦ some rest
    | none ↦ elim (past (codes "1259") s) [
      | some rest ↦ some rest
      | none ↦ elim (past (codes "2606") s) [ some rest ↦ some rest | none ↦ past (codes "2615") s ]
    ]
  ]
]

-- `_TOC_ENTRY.match(line).group(1)`; the digits are those of ASCII.
unfoldable pub toc_entry : Text → Option Text
unfolding past_catalog is_digit is_space
toc_entry line = do
  a ← past_some is_digit line
  b ← past (codes ";") a
  c ← past_some is_space b
  d ← past_catalog c
  e ← past_some is_space d
  f ← past_some is_digit e
  past_some is_space f

-- The first of the suffixes that an entry ends with is cut off, else its last word.
unfoldable pub without_owner : List Text → Text → Text
unfolding strip_suffix before_last
without_owner [] entry = elim (before_last b' ' entry) [ some start ↦ start | none ↦ entry ]
without_owner (s ∷ suffixes) entry =
    let next = without_owner suffixes entry in
    elim (strip_suffix s entry) [ some start ↦ start | none ↦ next ]

unfoldable pub line_keys : List Text → List Text → List Text
unfolding toc_entry without_owner
line_keys suffixes [] = []
line_keys suffixes (line ∷ lines) =
    let rest = line_keys suffixes lines in
    elim (toc_entry line) [ none ↦ rest | some entry ↦ without_owner suffixes entry ∷ rest ]

unfoldable pub dump_keys : Text → List Text → List Text
unfolding split_lines line_keys sort_desc distinct
dump_keys listing owners =
    let suffixes = sort_desc (λ s. length s ∷ []) (map (λ o. codes " " ++ o) owners) in
    distinct (line_keys suffixes (split_lines listing))

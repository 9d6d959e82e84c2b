-- ===== src/Postgres/Tests/Lines.antt =====
-- A script as its lines, each one statement.
use cs_backup_helper.Base.{
  ◌==◌, ◌≡◌, refl, ap, ◌∙◌, inl, inr, Bool, true, false, Bool-cases, not, List, [], ◌∷◌, ◌++◌, map,
  keep_if, all, All, is_empty, arith,
}
use cs_backup_helper.Base.Text.{Text, codes, text_eq}
use cs_backup_helper.Base.Words.{split_at, join}
use cs_backup_helper.Postgres.Script.{transaction_timeout}
use cs_backup_helper.Postgres.Script.Exact.{commented_line}
use cs_backup_helper.Postgres.Session.Opened.{map_command-append}
use cs_backup_helper.Postgres.Session.{Command, other, command_of, EndsInCommit}
use mathlib.Core.List.{append_assoc}

abbrev pub statements : Text → List Text
statements text = keep_if (λ l. not (is_empty l)) (split_at 10 text)

abbrev pub parse : Text → List Command
parse text = map command_of (statements text)

abbrev pub IsLine : Text → Type 0
IsLine line = (is_empty line ≡ false) × (all (λ c. not (c == 10)) line ≡ true)

split_at-cons : (s : Text) → (w : Text) × (ws : List Text) × (split_at 10 s ≡ w ∷ ws)
unfolding split_at
split_at-cons [] = ([], [], refl)
split_at-cons (c ∷ s) = elim (Bool-cases (c == 10)) [
  | inl e ↦ ([], split_at 10 s, rw e)
  | inr e ↦ let (w, ws, q) = split_at-cons s in (c ∷ w, ws, rw (e, q))
]

split_at-line_feed : (s r : Text) → split_at 10 (s ++ (10 ∷ r)) ≡ split_at 10 s ++ split_at 10 r
unfolding split_at
split_at-line_feed [] r = refl
split_at-line_feed (c ∷ s) r = elim (Bool-cases (c == 10)) [
  | inl e ↦ rw (e, split_at-line_feed s r)
  | inr e ↦ let (w, ws, q) = split_at-cons s in rw (e, split_at-line_feed s r, q)
]

keep_if-append :
    (p : Text → Bool) (xs ys : List Text) → keep_if p (xs ++ ys) ≡ keep_if p xs ++ keep_if p ys
keep_if-append p [] ys = refl
keep_if-append p (x ∷ xs) ys = ground (arith, keep_if-append p xs ys)

statements-line_feed : (s r : Text) → statements (s ++ (10 ∷ r)) ≡ statements s ++ statements r
statements-line_feed s r =
    rw (split_at-line_feed s r)
      (keep_if-append (λ l. not (is_empty l)) (split_at 10 s) (split_at 10 r))

split_at-line : (line : Text) → all (λ c. not (c == 10)) line ≡ true → split_at 10 line ≡ line ∷ []
unfolding split_at
split_at-line [] h = refl
split_at-line (c ∷ s) h = elim (Bool-cases (c == 10)) [
  | inl e ↦ absurd (ground arith)
  | inr e ↦ rw (e, split_at-line s (ground arith))
]

statements-line : (line : Text) → IsLine line → statements line ≡ line ∷ []
statements-line line (e, h) = rw (split_at-line line h, e)

no_statements : statements [] ≡ []
unfolding split_at
no_statements = refl

statements-join :
    (lines : List Text)
    → All IsLine lines
    → statements (join (codes "\n") lines ++ codes "\n") ≡ lines
unfolding join split_at
statements-join [] a = refl
statements-join (l ∷ []) (h, a) =
    statements-line_feed l [] ∙ rw (statements-line l h, no_statements)
statements-join (l ∷ m ∷ ls) (h, a) =
    let rest = join (codes "\n") (m ∷ ls) in
    ap statements (append_assoc l (10 ∷ rest) (codes "\n"))
    ∙ statements-line_feed l (rest ++ codes "\n")
    ∙ rw (statements-line l h) (ap (λ t. l ∷ t) (statements-join (m ∷ ls) a))

pub parse-join :
    (lines : List Text)
    → All IsLine lines
    → parse (join (codes "\n") lines ++ codes "\n") ≡ map command_of lines
parse-join lines a = ap (λ t. map command_of t) (statements-join lines a)

other-EndsInCommit :
    (a b : Text) (xs ys : List Command)
    → EndsInCommit (xs ++ (other a ∷ ys))
    → EndsInCommit (xs ++ (other b ∷ ys))
other-EndsInCommit a b [] [] h = absurd (cc)
other-EndsInCommit a b [] (y ∷ ys) (n, h) = ((λ q. cc), h)
other-EndsInCommit a b (x ∷ []) ys (n, h) = (n, other-EndsInCommit a b [] ys h)
other-EndsInCommit a b (x ∷ z ∷ xs) ys (n, h) = (n, other-EndsInCommit a b (z ∷ xs) ys h)

parse-line_feed : (s r : Text) → parse (s ++ (10 ∷ r)) ≡ parse s ++ parse r
parse-line_feed s r =
    ap (λ t. map command_of t) (statements-line_feed s r)
    ∙ map_command-append (statements s) (statements r)

pub parse-commented :
    (before after : Text)
    → EndsInCommit (parse (before ++ (10 ∷ (transaction_timeout ++ after))))
    → EndsInCommit (parse (before ++ (10 ∷ (commented_line transaction_timeout ++ after))))
unfolding split_at text_eq
parse-commented before after h =
    rw (parse-line_feed before (commented_line transaction_timeout ++ after)) (
      other-EndsInCommit (codes "SET transaction_timeout = 0;")
        (codes "--  transaction_timeout = 0;") (parse before) (parse after)
        (rw (parse-line_feed before (transaction_timeout ++ after)) at h))

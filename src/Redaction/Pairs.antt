-- ===== src/Redaction/Pairs.antt =====
-- A secret that stands in a text as `key=value` leaves nothing of its value.
use cs_backup_helper.Base.{
  ℕ, ◌+◌, ◌-◌, ◌≡◌, refl, ap, ◌∙◌, Bool, true, false, not, Option, none, some, [], ◌∷◌, ◌++◌, all,
  length, length-append, is_empty, arith,
}
use cs_backup_helper.Base.Text.{Text}
use cs_backup_helper.Base.Words.{is_space}
use cs_backup_helper.Redaction.{
  mask, is_sensitive_key, is_name_char, is_quote, span, match_pair, match_value, mask_from,
  drop_first, plain_name, bare_value, kept_quote, printed_at,
}
use mathlib.Core.List.{append_assoc}

-- A run of code points that pass ends at the first that does not.
span-append :
    (p : ℕ → Bool) (run rest : Text) (d : ℕ)
    → all p run ≡ true
    → p d ≡ false
    → span p (run ++ (d ∷ rest)) ≡ (run, d ∷ rest)
span-append p [] rest d h e = rw e
span-append p (c ∷ run) rest d h e =
    let q : p c ≡ true = ground arith in
    let ih = span-append p run rest d (ground arith) e in rw (ih, q)

drop_first-append : (s rest : Text) → drop_first (length s) (s ++ rest) ≡ rest
drop_first-append [] rest = refl
drop_first-append (c ∷ s) rest = drop_first-append s rest

abbrev last_of : Option ℕ → Text → Option ℕ
last_of before [] = before
last_of before (c ∷ s) = last_of (some c) s

-- What was taken is passed over.
mask_from-skip :
    (s rest : Text) (before : Option ℕ)
    → mask_from (length s) before (s ++ rest) ≡ mask_from 0 (last_of before s) rest
unfolding mask_from
mask_from-skip [] rest before = refl
mask_from-skip (c ∷ s) rest before = mask_from-skip s rest (some c)

-- No name character stands before.
abbrev pub IsFree : Option ℕ → Type 0
IsFree none = Unit
IsFree (some b) = is_name_char b ≡ false

abbrev pub no_blank : Text → Bool
no_blank = all (λ d. not (is_space d))

not_quote : (c : ℕ) → is_name_char c ≡ true → is_quote c ≡ false
unfolding is_name_char
not_quote c h = ground arith

equals_is_mark : is_name_char b'=' ≡ false
unfolding is_name_char
equals_is_mark = refl

blank_is_space : is_space 32 ≡ true
unfolding is_space
blank_is_space = refl

-- A key with its mark, before a value that starts with no blank.
plain_name-key :
    (name after : Text) (d : ℕ)
    → is_empty name ≡ false
    → all is_name_char name ≡ true
    → is_space d ≡ false
    → plain_name (name ++ (b'=' ∷ (d ∷ after))) ≡ some (name ++ (b'=' ∷ []), name)
unfolding is_space
plain_name-key name after d e h s =
    rw (span-append is_name_char name (d ∷ after) b'=' h equals_is_mark, e) (rw s)

match_pair-key :
    (before : Option ℕ) (c : ℕ) (name after : Text) (d : ℕ)
    → IsFree before
    → all is_name_char (c ∷ name) ≡ true
    → is_space d ≡ false
    → match_pair before (c ∷ (name ++ (b'=' ∷ (d ∷ after))))
      ≡ some (c ∷ (name ++ (b'=' ∷ [])), c ∷ name)
unfolding match_pair
match_pair-key before c name after d f h s =
    let plain = plain_name-key (c ∷ name) after d refl h s in
    let q : is_quote c ≡ false = not_quote c (ground arith) in
    elim before
        as (λ b.
          IsFree b
          → match_pair b (c ∷ (name ++ (b'=' ∷ (d ∷ after))))
            ≡ some (c ∷ (name ++ (b'=' ∷ [])), c ∷ name)) [
              | none ↦ λ free. rw q plain
              | some b ↦ λ free. rw (q, free) plain
            ]
      f

match_value-plain :
    (d : ℕ) (v rest : Text)
    → is_quote d ≡ false
    → is_space d ≡ false
    → no_blank v ≡ true
    → match_value (d ∷ (v ++ (32 ∷ rest))) ≡ some (d ∷ v)
unfolding match_value
match_value-plain d v rest q s n =
    let run : span (λ c. not (is_space c)) (d ∷ (v ++ (32 ∷ rest))) ≡ (d ∷ v, 32 ∷ rest) =
      span-append (λ c. not (is_space c)) (d ∷ v) rest 32 (rw (s, n)) (rw blank_is_space) in
    let bare : bare_value (d ∷ (v ++ (32 ∷ rest))) ≡ some (d ∷ v) = rw run in rw q bare

no_pair_at_blank : (before : Option ℕ) (rest : Text) → match_pair before (32 ∷ rest) ≡ none
unfolding match_pair is_name_char
no_pair_at_blank none rest = refl
no_pair_at_blank (some b) rest = ground arith

mask_from-blank :
    (before : Option ℕ) (rest : Text)
    → mask_from 0 before (32 ∷ rest) ≡ 32 ∷ mask_from 0 (some 32) rest
unfolding mask_from
mask_from-blank before rest = rw (no_pair_at_blank before rest, printed_at)

-- The text of a pair, and what scanning it prints.
abbrev pub pair_text : Text → Text → Text → Text
pair_text name value rest = name ++ (b'=' ∷ (value ++ (32 ∷ rest)))

kept_quote-plain : (d : ℕ) (v : Text) → is_quote d ≡ false → kept_quote (d ∷ v) ≡ []
kept_quote-plain d v q = ground arith

pair_text-split :
    (c : ℕ) (name value rest : Text)
    → c ∷ pair_text name value rest ≡ (c ∷ (name ++ (b'=' ∷ []))) ++ (value ++ (32 ∷ rest))
pair_text-split c name value rest = simp append_assoc

printed_at-pair :
    (before : Option ℕ) (c : ℕ) (name : Text) (d : ℕ) (v rest : Text)
    → IsFree before
    → all is_name_char (c ∷ name) ≡ true
    → is_sensitive_key (c ∷ name) ≡ true
    → is_quote d ≡ false
    → is_space d ≡ false
    → no_blank v ≡ true
    → printed_at before c (pair_text name (d ∷ v) rest)
      ≡ ((c ∷ (name ++ (b'=' ∷ []))) ++ mask, length (name ++ (b'=' ∷ (d ∷ v))))
unfolding printed_at
printed_at-pair before c name d v rest f h k q s n =
    let taken = c ∷ (name ++ (b'=' ∷ [])) in
    let after = d ∷ (v ++ (32 ∷ rest)) in
    let matched = match_pair-key before c name (v ++ (32 ∷ rest)) d f h s in
    let found : drop_first (length taken) (c ∷ pair_text name (d ∷ v) rest) ≡ after =
      ap (drop_first (length taken)) (pair_text-split c name (d ∷ v) rest)
      ∙ drop_first-append taken after in
    let value = match_value-plain d v rest q s n in
    let count : length taken + length (d ∷ v) - 1 ≡ length (name ++ (b'=' ∷ (d ∷ v))) =
      omega (arith, length-append name (b'=' ∷ (d ∷ v)), length-append name (b'=' ∷ [])) in
    rw (matched, printed_at)
      (rw k
        (rw found (rw value (rw (kept_quote-plain d v q) (ap (λ n. (taken ++ mask, n)) count)))))

masked_pair :
    (c : ℕ) (name after : Text)
    → ((c ∷ (name ++ (b'=' ∷ []))) ++ mask) ++ after ≡ (c ∷ name) ++ (b'=' ∷ (mask ++ after))
masked_pair c name after = simp append_assoc

-- After a place where no name character stands, the value of a secret that is written as `key=value`
-- leaves nothing in the log line: the mask is printed for it, and scanning goes on behind it. The key
-- is of name characters, and the value ends at a blank, has none in it and does not start with a quote.
pub mask_from-pair :
    (before : Option ℕ) (c : ℕ) (name : Text) (d : ℕ) (v rest : Text)
    → IsFree before
    → all is_name_char (c ∷ name) ≡ true
    → is_sensitive_key (c ∷ name) ≡ true
    → is_quote d ≡ false
    → is_space d ≡ false
    → no_blank v ≡ true
    → mask_from 0 before ((c ∷ name) ++ (b'=' ∷ ((d ∷ v) ++ (32 ∷ rest))))
      ≡ (c ∷ name) ++ (b'=' ∷ (mask ++ (32 ∷ mask_from 0 (some 32) rest)))
unfolding mask_from
mask_from-pair before c name d v rest f h k q s n =
    let tail = name ++ (b'=' ∷ (d ∷ v)) in
    let split : pair_text name (d ∷ v) rest ≡ tail ++ (32 ∷ rest) = simp append_assoc in
    let out = (c ∷ (name ++ (b'=' ∷ []))) ++ mask in
    let skipped : mask_from (length tail) (some c) (pair_text name (d ∷ v) rest)
        ≡ 32 ∷ mask_from 0 (some 32) rest =
      ap (mask_from (length tail) (some c)) split
      ∙ mask_from-skip tail (32 ∷ rest) (some c)
      ∙ mask_from-blank (last_of (some c) tail) rest in
    rw (printed_at-pair before c name d v rest f h k q s n)
      (ap (λ z. out ++ z) skipped ∙ masked_pair c name (32 ∷ mask_from 0 (some 32) rest))

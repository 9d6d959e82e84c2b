-- ===== src/Postgres/Script/Exact.antt =====
-- Commenting a line out of a script changes that line and nothing else.
use cs_backup_helper.Base.{
  subst, ℕ, ◌+◌, ◌≤◌, ◌≡◌, refl, sym, ap, ◌∙◌, ◌⊎◌, inl, inr, true, false, Bool-cases, some,
  Option-cases, [], ◌∷◌, ◌++◌, take, drop, length, length-append, length-drop, length-take,
  take-append-drop, arith,
}
use cs_backup_helper.Base.Text.{Text, codes, starts_with}
use cs_backup_helper.Base.Words.{find}
use cs_backup_helper.Postgres.Script.{commented_out, overwritten, is_before}
use mathlib.Core.List.{append_assoc}

starts_with-split : (p s : Text) → starts_with p s ≡ true → (rest : Text) × (s ≡ p ++ rest)
unfolding starts_with
starts_with-split [] s h = (s, refl)
starts_with-split (a ∷ p) [] h = cc
starts_with-split (a ∷ p) (b ∷ s) h =
    let (rest, e) = starts_with-split p s (ground arith) in (rest, ground (arith, e))

find_splits :
    (needle hay : Text) (i : ℕ)
    → find needle hay ≡ some i
    → (pre post : Text) × (hay ≡ pre ++ (needle ++ post)) × (length pre ≡ i)
unfolding find
find_splits needle [] i h = elim (Bool-cases (starts_with needle [])) [
  | inl e ↦ let (rest, q) = starts_with-split needle [] e in ([], rest, q, ground arith)
  | inr e ↦ absurd (ground arith)
]
find_splits needle (c ∷ hay) i h = elim (Bool-cases (starts_with needle (c ∷ hay))) [
  | inl e ↦ let (rest, q) = starts_with-split needle (c ∷ hay) e in ([], rest, q, ground arith)
  | inr e ↦ elim (Option-cases (find needle hay)) [
    | inl f ↦ absurd (ground arith)
    | inr (j, f) ↦
        let (pre, post, q, l) = find_splits needle hay j f in
        (c ∷ pre, post, ap (λ t. c ∷ t) q, ground arith)
  ]
]

take-append_self : (pre r : Text) → take (length pre) (pre ++ r) ≡ pre
take-append_self [] r = refl
take-append_self (c ∷ pre) r = ap (λ t. c ∷ t) (take-append_self pre r)

drop-append_self : (pre r : Text) → drop (length pre) (pre ++ r) ≡ r
drop-append_self [] r = refl
drop-append_self (c ∷ pre) r = drop-append_self pre r

overwritten_lem :
    (pre old post new : Text)
    → length new ≡ length old
    → overwritten (length pre) new (pre ++ (old ++ post)) ≡ pre ++ (new ++ post)
unfolding overwritten
overwritten_lem pre old post new h =
    let e : length pre + length new ≡ length (pre ++ old) =
      omega (arith, length-append pre old, h) in
    let d : drop (length pre + length new) (pre ++ (old ++ post)) ≡ post =
      rw e (rw (← append_assoc) (drop-append_self (pre ++ old) post)) in
    rw (d, take-append_self pre (old ++ post))

abbrev pub commented_line : Text → Text
commented_line line = codes "-- " ++ drop 3 line

length-commented_line : (line : Text) → 3 ≤ length line → length (commented_line line) ≡ length line
length-commented_line line h = omega (arith, length-drop 3 line)

regrouped :
    (pre line post tail : Text)
    → (pre ++ (10 ∷ (line ++ post))) ++ tail ≡ pre ++ (10 ∷ (line ++ (post ++ tail)))
regrouped pre line post tail = simp append_assoc

-- Writing over the line that follows a line feed after `pre`.
overwritten-line :
    (pre line post : Text) (at : ℕ)
    → 3 ≤ length line
    → length pre ≡ at
    → overwritten (at + 1) (commented_line line) (pre ++ (10 ∷ (line ++ post)))
      ≡ pre ++ (10 ∷ (commented_line line ++ post))
overwritten-line pre line post at h l =
    let front : Text = 10 ∷ [] in
    let n : length (pre ++ front) ≡ at + 1 = omega (arith, length-append pre front, l) in
    let o =
      overwritten_lem (pre ++ front) line post (commented_line line)
        (length-commented_line line h) in
    let o' =
      subst
        (λ k.
          overwritten k (commented_line line) ((pre ++ front) ++ (line ++ post))
          ≡ (pre ++ front) ++ (commented_line line ++ post))
        n o in
    simp append_assoc at o'

-- What the head of a script holds lies within its bound.
inside_head :
    (pre line post script : Text)
    → take 65536 script ≡ pre ++ (10 ∷ (line ++ post))
    → length (pre ++ (10 ∷ line)) ≤ 65536
inside_head pre line post script q = omega (
  arith,
  length-append pre (10 ∷ line),
  length-append pre (10 ∷ (line ++ post)),
  length-append line post,
  ap length q,
  length-take 65536 script,
)

-- Either the script stays, or one place where the line follows a line feed, in its first 64 KiB and
-- before the first object's heading there, becomes a comment of the same length, and the rest stays.
pub commented_out_exact :
    (line script : Text)
    → 3 ≤ length line
    → (commented_out line script ≡ script)
      ⊎ ((pre post : Text) × (script ≡ pre ++ (10 ∷ (line ++ post)))
          × (commented_out line script ≡ pre ++ (10 ∷ (commented_line line ++ post)))
          × (length (commented_line line) ≡ length line)
          × (length (pre ++ (10 ∷ line)) ≤ 65536)
          × (is_before (find (codes "\n--\n-- Name: ") (take 65536 script)) (length pre) ≡ false))
unfolding commented_out
commented_out_exact line script h =
    elim (Option-cases (find (codes "\n" ++ line) (take 65536 script))) [
      | inl e ↦ inl (rw e)
      | inr (at, e) ↦
          let (pre, post, q, l) = find_splits (codes "\n" ++ line) (take 65536 script) at e in
          let first = find (codes "\n--\n-- Name: ") (take 65536 script) in
          elim (Bool-cases (is_before first at)) [
            | inl before ↦ inl (rw (e, before))
            | inr after ↦
                let whole : script ≡ pre ++ (10 ∷ (line ++ (post ++ drop 65536 script))) =
                  sym (take-append-drop 65536 script)
                  ∙ ap (λ t. t ++ drop 65536 script) q
                  ∙ regrouped pre line post (drop 65536 script) in
                inr (
                  pre,
                  post ++ drop 65536 script,
                  whole,
                  rw (e, after)
                      (subst
                        (λ t.
                          overwritten (at + 1) (commented_line line) t
                          ≡ pre ++ (10 ∷ (commented_line line ++ (post ++ drop 65536 script))))
                        (sym whole) (overwritten-line pre line (post ++ drop 65536 script) at h l)),
                  length-commented_line line h,
                  inside_head pre line post script q,
                  rw l after,
                )
          ]
    ]

-- ===== src/Loader/Placeholders.antt =====
-- Placeholders are replaced by the values of their variables, and other text stays.
use cs_backup_helper.Base.{
  subst, ℕ, zero, suc, ◌≤◌, ◌≡◌, refl, sym, ap, ◌∙◌, Bool, true, false, not, inl, inr, Bool-cases,
  Option, none, some, [], ◌∷◌, ◌++◌, length, length-append, all, ◌==◌, is_empty, arith,
}
use cs_backup_helper.Base.Text.{Text}
use cs_backup_helper.Base.Dict.{Dict, lookup}
use cs_backup_helper.Base.Result.{key_error, Result, ok, raised}
use cs_backup_helper.Loader.{
  consed, continued, up_to_close, named, after_dollar, placeholder, value_of, put_before, replaced,
  substitute, interpolate_str,
}

-- The text has no such code point.
abbrev pub without : ℕ → Text → Bool
without c t = all (λ d. not (d == c)) t

up_to_close-name :
    (name rest : Text)
    → without b'}' name ≡ true
    → up_to_close (name ++ (b'}' ∷ rest)) ≡ some (name, rest)
unfolding up_to_close
up_to_close-name [] rest h = refl
up_to_close-name (c ∷ name) rest h =
    let here : (c == b'}') ≡ false = ground arith in
    rw (here, up_to_close-name name rest (ground arith)) refl

-- What follows is no longer than that.
abbrev IsShorter : ℕ → Option (Text × Text) → Type 0
IsShorter n none = Unit
IsShorter n (some (name, after)) = length after ≤ n

consed-IsShorter :
    (c n : ℕ) (found : Option (Text × Text))
    → IsShorter n found
    → IsShorter (suc n) (consed c found)
consed-IsShorter c n none h = tt
consed-IsShorter c n (some (name, after)) h = omega arith

up_to_close-IsShorter : (t : Text) → IsShorter (length t) (up_to_close t)
unfolding up_to_close
up_to_close-IsShorter [] = tt
up_to_close-IsShorter (c ∷ t) = elim (Bool-cases (c == b'}')) [
  | inl e ↦ rw e (omega arith)
  | inr e ↦ rw e (consed-IsShorter c (length t) (up_to_close t) (up_to_close-IsShorter t))
]

named-IsShorter :
    (n : ℕ) (found : Option (Text × Text)) → IsShorter n found → IsShorter n (named found)
named-IsShorter n none h = tt
named-IsShorter n (some ([], after)) h = tt
named-IsShorter n (some (c ∷ name, after)) h = h

later : (m n : ℕ) (found : Option (Text × Text)) → m ≤ n → IsShorter m found → IsShorter n found
later m n none h k = tt
later m n (some (name, after)) h k = omega arith

placeholder-IsShorter : (c : ℕ) (t : Text) → IsShorter (length t) (placeholder (c ∷ t))
unfolding placeholder after_dollar
placeholder-IsShorter c t = elim (Bool-cases (c == b'$')) [
  | inl e ↦ rw e (after_dollar-IsShorter t)
  | inr e ↦ rw e tt
]
  where
    after_dollar-IsShorter : (t : Text) → IsShorter (length t) (after_dollar t)
    after_dollar-IsShorter [] = tt
    after_dollar-IsShorter (d ∷ t) = elim (Bool-cases (d == b'{')) [
      | inl e ↦ rw e (
          later (length t) (suc (length t)) (named (up_to_close t)) (omega arith)
            (named-IsShorter (length t) (up_to_close t) (up_to_close-IsShorter t)))
      | inr e ↦ rw e tt
    ]

continued-same :
    (c n : ℕ) (env : Dict Text) (found : Option (Text × Text)) (r s : Result Text)
    (next other : Text → Result Text)
    → IsShorter n found
    → r ≡ s
    → ((after : Text) → length after ≤ n → next after ≡ other after)
    → continued c env found r next ≡ continued c env found s other
continued-same c n env none r s next other h e k = ap (put_before (c ∷ [])) e
continued-same c n env (some (name, after)) r s next other h e k =
    ap (replaced (value_of (lookup name env))) (k after h)

-- Any fuel from the length of the text on gives the same.
substitute-fuel :
    (fuel more : ℕ) (env : Dict Text) (t : Text)
    → length t ≤ fuel
    → length t ≤ more
    → substitute fuel env t ≡ substitute more env t
unfolding substitute
substitute-fuel fuel more env [] h k = refl
substitute-fuel zero more env (c ∷ t) h k = absurd (omega arith)
substitute-fuel (suc fuel) zero env (c ∷ t) h k = absurd (omega arith)
substitute-fuel (suc fuel) (suc more) env (c ∷ t) h k =
    continued-same c (length t) env (placeholder (c ∷ t)) _ _ (substitute fuel env)
      (substitute more env) (placeholder-IsShorter c t)
      (substitute-fuel fuel more env t (omega arith) (omega arith))
      (λ after q. substitute-fuel fuel more env after (omega arith) (omega arith))

put_before-append :
    (s t : Text) (r : Result Text) → put_before s (put_before t r) ≡ put_before (s ++ t) r
put_before-append s t (ok rest) = ap ok (sym (append_assoc s t rest))
  where
    append_assoc : (xs ys zs : Text) → (xs ++ ys) ++ zs ≡ xs ++ (ys ++ zs)
    append_assoc [] ys zs = refl
    append_assoc (x ∷ xs) ys zs = ap (λ u. x ∷ u) (append_assoc xs ys zs)
put_before-append s t (raised e) = refl

put_before-nil : (r : Result Text) → put_before [] r ≡ r
put_before-nil (ok rest) = refl
put_before-nil (raised e) = refl

-- Text before the first `$` stays as it is.
interpolate_str-plain :
    (plain t : Text) (env : Dict Text)
    → without b'$' plain ≡ true
    → interpolate_str (plain ++ t) env ≡ put_before plain (interpolate_str t env)
unfolding interpolate_str substitute placeholder
interpolate_str-plain [] t env h = sym (put_before-nil _)
interpolate_str-plain (c ∷ plain) t env h =
    let here : (c == b'$') ≡ false = ground arith in
    rw here (
      ap (put_before (c ∷ [])) (interpolate_str-plain plain t env (ground arith))
      ∙ put_before-append (c ∷ []) plain (interpolate_str t env))

interpolate_str-here :
    (name rest : Text) (env : Dict Text)
    → without b'}' name ≡ true
    → is_empty name ≡ false
    → interpolate_str (b'$' ∷ b'{' ∷ (name ++ (b'}' ∷ rest))) env
      ≡ replaced (value_of (lookup name env)) (interpolate_str rest env)
unfolding interpolate_str substitute placeholder after_dollar
interpolate_str-here [] rest env h k = absurd (ground arith)
interpolate_str-here (c ∷ name) rest env h k = rw (up_to_close-name (c ∷ name) rest h) (
    ap (replaced (value_of (lookup (c ∷ name) env))) (
      substitute-fuel (suc (length ((c ∷ name) ++ (b'}' ∷ rest)))) (length rest) env rest
        (omega (arith, length-append (c ∷ name) (b'}' ∷ rest))) (omega arith)))

-- Text without a `$` stays. After such text, a placeholder becomes the value of its variable and
-- the rest is treated alike, and a placeholder of a variable that is not set raises; the name of a
-- placeholder has a character and none of them is a `}`.
pub interpolate_str_exact :
    (plain name rest : Text) (env : Dict Text)
    → without b'$' plain ≡ true
    → without b'}' name ≡ true
    → is_empty name ≡ false
    → (let whole = plain ++ (b'$' ∷ b'{' ∷ (name ++ (b'}' ∷ rest))) in
        (interpolate_str plain env ≡ ok plain)
        × ((value : Text)
            → lookup name env ≡ some value
            → interpolate_str whole env ≡ put_before (plain ++ value) (interpolate_str rest env))
        × (lookup name env ≡ none → interpolate_str whole env ≡ raised key_error))
unfolding interpolate_str
interpolate_str_exact plain name rest env h k l =
    let whole : Text = plain ++ (b'$' ∷ b'{' ∷ (name ++ (b'}' ∷ rest))) in
    let step =
      interpolate_str-plain plain (b'$' ∷ b'{' ∷ (name ++ (b'}' ∷ rest))) env h
      ∙ ap (put_before plain) (interpolate_str-here name rest env k l) in
    (
      subst (λ t. interpolate_str t env ≡ ok plain) (append_nil plain)
          (interpolate_str-plain plain [] env h ∙ kept plain),
      λ value e. step ∙ rw e (put_before-append plain value (interpolate_str rest env)),
      λ e. step ∙ rw e refl,
    )
  where
    append_nil : (xs : Text) → xs ++ [] ≡ xs
    append_nil [] = refl
    append_nil (x ∷ xs) = ap (λ u. x ∷ u) (append_nil xs)

    kept : (plain : Text) → put_before plain (interpolate_str [] env) ≡ ok plain
    kept plain = ap ok (append_nil plain)

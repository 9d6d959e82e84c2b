-- ===== src/S3/Chunks.antt =====
-- The parts of a file: they are the file, and all but the last have the size of a chunk.
use cs_backup_helper.Base.{
  ℕ, zero, suc, ◌≤◌, ◌<◌, ◌≡◌, refl, sym, ap, ◌∙◌, true, false, inl, inr, Bool-cases, List, [], ◌∷◌,
  ◌++◌, length, take, drop, is_empty, take-append-drop, length-take, length-drop, arith,
}
use cs_backup_helper.Base.Text.{Text}
use cs_backup_helper.S3.{chunks_from, chunks}

abbrev pub joined : List Text → Text
joined [] = []
joined (chunk ∷ rest) = chunk ++ joined rest

-- Every chunk has bytes, at most `size`; one that is not the last has `size`.
abbrev pub Uniform : ℕ → List Text → Type 0
Uniform size [] = Unit
Uniform size (chunk ∷ rest) =
    (0 < length chunk)
    × (length chunk ≤ size)
    × (is_empty rest ≡ false → length chunk ≡ size)
    × Uniform size rest

is_empty-length : (t : Text) → is_empty t ≡ false → 0 < length t
is_empty-length [] h = ground arith
is_empty-length (c ∷ t) h = omega arith

is_empty-take : (n : ℕ) (t : Text) → 0 < n → is_empty (take n t) ≡ is_empty t
is_empty-take zero t h = ground arith
is_empty-take (suc n) [] h = refl
is_empty-take (suc n) (c ∷ t) h = refl

is_empty-nil : (t : Text) → is_empty t ≡ true → [] ≡ t
is_empty-nil [] h = refl
is_empty-nil (c ∷ t) h = ground arith

module _ (size : ℕ) (positive : 0 < size) where
  nonempty : (body : Text) → is_empty (take size body) ≡ false → 0 < length body
  nonempty body e = is_empty-length body (sym (is_empty-take size body positive) ∙ e)

  chunks_from-joined :
      (fuel : ℕ) (body : Text) → length body < fuel → joined (chunks_from fuel size body) ≡ body
  unfolding chunks_from
  chunks_from-joined zero body h = absurd (omega arith)
  chunks_from-joined (suc fuel) body h = elim (Bool-cases (is_empty (take size body))) [
    | inl e ↦ rw e (is_empty-nil body (sym (is_empty-take size body positive) ∙ e))
    | inr e ↦
        let shorter : length (drop size body) < fuel =
          omega (arith, length-drop size body, nonempty body e) in
        rw e (
          ap (λ t. take size body ++ t) (chunks_from-joined fuel (drop size body) shorter)
          ∙ take-append-drop size body)
  ]

  chunks_from-nonempty :
      (fuel : ℕ) (body : Text) → is_empty (chunks_from fuel size body) ≡ false → 0 < length body
  unfolding chunks_from
  chunks_from-nonempty zero body h = absurd (ground arith)
  chunks_from-nonempty (suc fuel) body h = elim (Bool-cases (is_empty (take size body))) [
    | inl e ↦ absurd (ground (arith, e, h))
    | inr e ↦ nonempty body e
  ]

  chunks_from-Uniform : (fuel : ℕ) (body : Text) → Uniform size (chunks_from fuel size body)
  unfolding chunks_from
  chunks_from-Uniform zero body = tt
  chunks_from-Uniform (suc fuel) body = elim (Bool-cases (is_empty (take size body))) [
    | inl e ↦ rw e tt
    | inr e ↦ rw e (
      is_empty-length (take size body) e,
      omega (arith, length-take size body),
      λ h. omega (
        arith,
        length-take size body,
        length-drop size body,
        chunks_from-nonempty fuel (drop size body) h,
      ),
      chunks_from-Uniform fuel (drop size body),
    )
  ]

  -- With a positive chunk size, the chunks of a file put together are the file, none is empty or
  -- larger than the chunk size, and all but the last have exactly that size.
  pub chunks_exact :
      (body : Text) → (joined (chunks size body) ≡ body) × Uniform size (chunks size body)
  unfolding chunks
  chunks_exact body = (
    chunks_from-joined (suc (length body)) body (omega arith),
    chunks_from-Uniform (suc (length body)) body,
  )

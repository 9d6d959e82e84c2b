-- ===== src/S3/Uploads.antt =====
-- What an upload that returns has made sure of.
use cs_backup_helper.Base.{
  ℕ, suc, ◌≡◌, refl, sym, ap, ◌∙◌, inl, inr, Bool-cases, List, [], ◌∷◌, length, map, ltb, ◌==◌,
  arith,
}
use cs_backup_helper.Base.Text.{Text}
use cs_backup_helper.Base.Result.{Result, ok, raised, ok-injective}
use cs_backup_helper.S3.{
  S3Config, Part, Client, next_of, full_key, compared, verify_size, put_single, upload_parts,
  part_then, or_abort, upload_all, put_multipart, put,
}

-- What a retried call gives when it returns is what its last attempt gave.
abbrev pub IsLastAttempt : Client → Type 1
IsLastAttempt C =
    (A : Type 0) (call : Client.World C → Result A × Client.World C) (w w' : Client.World C) (a : A)
    → Client.retrying C call w ≡ (ok a, w')
    → (v : Client.World C) × (call v ≡ (ok a, w'))

-- The numbers from `first` on.
abbrev pub numbers : ℕ → List Text → List ℕ
numbers first [] = []
numbers first (chunk ∷ rest) = first ∷ numbers (suc first) rest

module _ (C : Client) where
  pub next_of-returned :
      {A B : Type 0} (t : Result A × Client.World C)
      (next : A → Client.World C → Result B × Client.World C) (b : B) (w' : Client.World C)
      → next_of C t next ≡ (ok b, w')
      → (a : A) × (v : Client.World C) × (t ≡ (ok a, v)) × (next a v ≡ (ok b, w'))
  next_of-returned (ok a, v) next b w' h = (a, v, refl, h)
  next_of-returned (raised e, v) next b w' h = cc

  module _ (cfg : S3Config) where
    compared-ok :
        (size remote : ℕ) (v w' : Client.World C)
        → compared C cfg size remote v ≡ (ok tt, w')
        → (remote ≡ size) × (v ≡ w')
    compared-ok size remote v w' h = elim (Bool-cases (remote == size)) [
      | inl e ↦ (ground (arith, e), ap (λ t. t.1) h)
      | inr e ↦ let g = rw e at h in cc
    ]

    -- The parts that were uploaded have the numbers 1, 2 and so on, one for each chunk.
    upload_parts-numbers :
        (key id : Text) (first : ℕ) (pieces : List Text) (w w' : Client.World C) (parts : List Part)
        → upload_parts C cfg key id first pieces w ≡ (ok parts, w')
        → map (λ (p : Part). p.number) parts ≡ numbers first pieces
    unfolding upload_parts
    upload_parts-numbers key id first [] w w' parts h =
        ap (map (λ (p : Part). p.number)) (sym (ok-injective _ _ (ap (λ t. t.0) h)))
    upload_parts-numbers key id first (chunk ∷ rest) w w' parts h =
        let (etag, v, one, two) =
          next_of-returned _
            (λ etag v. part_then C cfg first (upload_parts C cfg key id (suc first) rest v) etag)
            parts w' h in
        numbered etag (upload_parts C cfg key id (suc first) rest v) two
          (λ more u e. upload_parts-numbers key id (suc first) rest v u more e)
      where
        numbered :
            (etag : Text) (t : Result (List Part) × Client.World C)
            → part_then C cfg first t etag ≡ (ok parts, w')
            → ((more : List Part) (u : Client.World C)
                → t ≡ (ok more, u)
                → map (λ (p : Part). p.number) more ≡ numbers (suc first) rest)
            → map (λ (p : Part). p.number) parts ≡ first ∷ numbers (suc first) rest
        numbered etag (ok more, u) e k =
            ap (map (λ (p : Part). p.number)) (sym (ok-injective _ _ (ap (λ t. t.0) e)))
            ∙ ap (λ ns. first ∷ ns) (k more u refl)
        numbered etag (raised x, u) e k = cc

    module _ (last_attempt : IsLastAttempt C) where
      verify_size-ok :
          (key : Text) (size : ℕ) (w w' : Client.World C)
          → verify_size C cfg key size w ≡ (ok tt, w')
          → (v : Client.World C) × (Client.head_object C cfg.bucket key v ≡ (ok size, w'))
      unfolding verify_size
      verify_size-ok key size w w' h =
          let (remote, u, one, two) = next_of-returned _ (compared C cfg size) tt w' h in
          let (same, there) = compared-ok size remote u w' two in
          let (v, last) = last_attempt ℕ _ w u remote one in (v, last ∙ rw (same, there) refl)

      put_single_verified :
          (body key : Text) (w w' : Client.World C)
          → put_single C cfg body key w ≡ (ok tt, w')
          → (v : Client.World C) × (Client.head_object C cfg.bucket key v ≡ (ok (length body), w'))
      unfolding put_single
      put_single_verified body key w w' h =
          let (done, v, one, two) =
            next_of-returned (Client.retrying C (Client.put_object C cfg.bucket key body) w)
              (λ _. verify_size C cfg key (length body)) tt w' h in
          verify_size-ok key (length body) v w' two

      put_multipart_verified :
          (body key : Text) (size : ℕ) (w w' : Client.World C)
          → put_multipart C cfg body key size w ≡ (ok tt, w')
          → (v : Client.World C) × (Client.head_object C cfg.bucket key v ≡ (ok size, w'))
      unfolding put_multipart
      put_multipart_verified body key size w w' h =
          let (id, v, one, two) =
            next_of-returned (Client.retrying C (Client.create_multipart_upload C cfg.bucket key) w)
              (λ id v.
                next_of C (or_abort C cfg key id (upload_all C cfg body key id v))
                  (λ _. verify_size C cfg key size))
              tt w' h in
          let (done, u, three, four) =
            next_of-returned (or_abort C cfg key id (upload_all C cfg body key id v))
              (λ _. verify_size C cfg key size) tt w' two in
          verify_size-ok key size u w' four

      -- An upload, in one piece or in parts, that returns asked for the size of the object of that
      -- key at the end, and was told the size of the file; a retried call is assumed to give what
      -- its last attempt gave.
      pub put_verified :
          (body key : Text) (w w' : Client.World C)
          → put C cfg body key w ≡ (ok tt, w')
          → (v : Client.World C) × (Client.head_object C cfg.bucket (full_key C cfg key) v
              ≡ (ok (length body), w'))
      unfolding put
      put_verified body key w w' h = elim (Bool-cases (ltb (length body) cfg.multipart_threshold)) [
        | inl e ↦ put_single_verified body (full_key C cfg key) w w' (rw e at h)
        | inr e ↦ put_multipart_verified body (full_key C cfg key) (length body) w w' (rw e at h)
      ]

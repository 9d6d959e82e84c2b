-- ===== src/S3/Stored.antt =====
-- What the bucket holds after an upload: the file.
use cs_backup_helper.Base.{
  ℕ, ◌≡◌, ◌≢◌, ◌<◌, refl, ap, ◌∙◌, subst, inl, inr, Bool-cases, Option, some, length, ltb,
}
use cs_backup_helper.Base.Text.{Text}
use cs_backup_helper.Base.Result.{Result, ok, raised}
use cs_backup_helper.S3.{
  S3Config, Client, next_of, full_key, verify_size, put_single, upload_parts, or_abort, upload_all,
  put_multipart, chunks, put,
}
use cs_backup_helper.S3.Chunks.{joined, chunks_exact}
use cs_backup_helper.S3.Uploads.{IsLastAttempt, next_of-returned, put_verified}
use cs_backup_helper.S3.Bucket.{
  Contents, IsBucket, next_of-keeps, verify_size-keeps, upload_parts-keeps,
}
use cs_backup_helper.S3.Parts.{
  MayHold, Holds-MayHold, same_bodies, MayHold-step, upload_parts-Holds,
}

module _ (C : Client) (cfg : S3Config) (V : Contents C) (B : IsBucket C cfg.bucket V) where
  verified-object :
      (key j : Text) (size : ℕ) (f : Option Text) (w w' : Client.World C)
      → verify_size C cfg key size w ≡ (ok tt, w')
      → V.object w j ≡ f
      → V.object w' j ≡ f
  verified-object key j size f w w' h e =
      subst (λ t. V.object t.1 j ≡ f) h
        (verify_size-keeps C cfg V B (λ v. V.object v j ≡ f) key size
          (λ v k. B.head-objects key j v ∙ k) w e)

  put_single-object :
      (body key : Text) (w w' : Client.World C)
      → put_single C cfg body key w ≡ (ok tt, w')
      → V.object w' key ≡ some body
  unfolding put_single
  put_single-object body key w w' h =
      let call = Client.put_object C cfg.bucket key body in
      let (done, v, one, two) =
        next_of-returned C (Client.retrying C call w) (λ _. verify_size C cfg key (length body)) tt
          w' h in
      let (u, ready, last) = B.retrying-last call (λ x. Unit {0}) (λ x k. tt) w tt done v one in
      verified-object key key (length body) (some body) v w' two (B.put-object key body u v last)

  module _ (key j : Text) (differ : key ≢ j) (f : Option Text) where
    -- The other object.
    Same : Client.World C → Type 0
    Same v = V.object v j ≡ f

    put_single-others :
        (body : Text) (w : Client.World C) → Same w → Same (put_single C cfg body key w).1
    unfolding put_single Same
    put_single-others body w h =
        next_of-keeps C cfg V B Same (Client.retrying C (Client.put_object C cfg.bucket key body) w)
          (λ _. verify_size C cfg key (length body))
          (B.retrying-keeps (Client.put_object C cfg.bucket key body) Same
            (λ v k. B.put-others key j body v differ ∙ k) w h)
          (λ done v.
            verify_size-keeps C cfg V B Same key (length body) (λ u k. B.head-objects key j u ∙ k)
              v)

    or_abort-others :
        (id : Text) (t : Result (Unit {0}) × Client.World C)
        → Same t.1
        → Same (or_abort C cfg key id t).1
    unfolding Same
    or_abort-others id (ok done, v) h = h
    or_abort-others id (raised e, v) h = B.abort-objects key id j v ∙ h

    upload_all-others :
        (body id : Text) (w : Client.World C) → Same w → Same (upload_all C cfg body key id w).1
    unfolding upload_all Same
    upload_all-others body id w h =
        let pieces = chunks cfg.multipart_chunk_size body in
        next_of-keeps C cfg V B Same (upload_parts C cfg key id 1 pieces w)
          (λ parts. Client.retrying C (Client.complete_multipart_upload C cfg.bucket key id parts))
          (upload_parts-keeps C cfg V B Same key id 1 pieces
            (λ n piece v later k. B.upload_part-objects key id piece j n v ∙ k) w h)
          (λ parts.
            B.retrying-keeps (Client.complete_multipart_upload C cfg.bucket key id parts) Same
              (λ v k. B.complete-others key j id parts v differ ∙ k))

    put_multipart-others :
        (body : Text) (size : ℕ) (w : Client.World C)
        → Same w
        → Same (put_multipart C cfg body key size w).1
    unfolding put_multipart Same
    put_multipart-others body size w h =
        next_of-keeps C cfg V B Same
          (Client.retrying C (Client.create_multipart_upload C cfg.bucket key) w)
          (λ id v.
            next_of C (or_abort C cfg key id (upload_all C cfg body key id v))
              (λ _. verify_size C cfg key size))
          (B.retrying-keeps (Client.create_multipart_upload C cfg.bucket key) Same
            (λ v k. B.create-objects key j v ∙ k) w h)
          (λ id v k.
            next_of-keeps C cfg V B Same (or_abort C cfg key id (upload_all C cfg body key id v))
              (λ _. verify_size C cfg key size)
              (or_abort-others id (upload_all C cfg body key id v) (upload_all-others body id v k))
              (λ done.
                verify_size-keeps C cfg V B Same key size (λ u m. B.head-objects key j u ∙ m)))

  module _ (positive : 0 < cfg.multipart_chunk_size) where
    upload_all-object :
        (body key id : Text) (w w' : Client.World C)
        → upload_all C cfg body key id w ≡ (ok tt, w')
        → V.object w' key ≡ some body
    unfolding upload_all
    upload_all-object body key id w w' h =
        let pieces = chunks cfg.multipart_chunk_size body in
        let (parts, x, one, two) =
          next_of-returned C (upload_parts C cfg key id 1 pieces w)
            (λ parts.
              Client.retrying C (Client.complete_multipart_upload C cfg.bucket key id parts))
            tt w' h in
        let (y, may, last) =
          B.retrying-last (Client.complete_multipart_upload C cfg.bucket key id parts)
            (λ v. MayHold (V.part v) id parts pieces)
            (λ v k.
              MayHold-step (V.part v)
                (V.part (Client.complete_multipart_upload C cfg.bucket key id parts v).1) id parts
                pieces (λ n. B.complete-parts key id parts n v) k)
            x
            (Holds-MayHold (V.part x) id parts pieces
              (upload_parts-Holds C cfg V B key id 1 pieces w x parts one))
            tt w' two in
        let (bodies, held, there) = B.complete-object key id parts y w' last in
        there
        ∙ ap (λ bs. some (joined bs)) (same_bodies (V.part y) id parts pieces bodies may held)
        ∙ ap some (chunks_exact cfg.multipart_chunk_size positive body).0

    unaborted :
        (key id : Text) (t : Result (Unit {0}) × Client.World C) (w' : Client.World C)
        → or_abort C cfg key id t ≡ (ok tt, w')
        → t ≡ (ok tt, w')
    unaborted key id (ok done, v) w' h = h
    unaborted key id (raised e, v) w' h = cc

    put_multipart-object :
        (body key : Text) (size : ℕ) (w w' : Client.World C)
        → put_multipart C cfg body key size w ≡ (ok tt, w')
        → V.object w' key ≡ some body
    unfolding put_multipart
    put_multipart-object body key size w w' h =
        let (id, v, one, two) =
          next_of-returned C (Client.retrying C (Client.create_multipart_upload C cfg.bucket key) w)
            (λ id v.
              next_of C (or_abort C cfg key id (upload_all C cfg body key id v))
                (λ _. verify_size C cfg key size))
            tt w' h in
        let (done, u, three, four) =
          next_of-returned C (or_abort C cfg key id (upload_all C cfg body key id v))
            (λ _. verify_size C cfg key size) tt w' two in
        verified-object key key size (some body) u w' four (
          upload_all-object body key id v u
            (unaborted key id (upload_all C cfg body key id v) u three))

    put_object :
        (body key : Text) (w w' : Client.World C)
        → put C cfg body key w ≡ (ok tt, w')
        → V.object w' (full_key C cfg key) ≡ some body
    unfolding put
    put_object body key w w' h = elim (Bool-cases (ltb (length body) cfg.multipart_threshold)) [
      | inl e ↦ put_single-object body (full_key C cfg key) w w' (rw e at h)
      | inr e ↦ put_multipart-object body (full_key C cfg key) (length body) w w' (rw e at h)
    ]

    last_attempt : IsLastAttempt C
    last_attempt A call w w' a h =
        let (v, kept, e) = B.retrying-last call (λ x. Unit {0}) (λ x k. tt) w tt a w' h in (v, e)

    -- With a positive chunk size, an upload that returns, in one piece or in parts, has made the
    -- object of that key the file, byte for byte, and was told the size of the file when it asked
    -- for the size of the object at the end. Whether it returns or raises, every other object is
    -- as before. The client is assumed to do what S3 documents, and a retried call to give what
    -- its last attempt gave.
    pub put_stores :
        (body key : Text) (w : Client.World C)
        → ((w' : Client.World C)
            → put C cfg body key w ≡ (ok tt, w')
            → (V.object w' (full_key C cfg key) ≡ some body)
              × ((v : Client.World C) × (Client.head_object C cfg.bucket (full_key C cfg key) v
                    ≡ (ok (length body), w'))))
          × ((j : Text)
              → full_key C cfg key ≢ j
              → V.object (put C cfg body key w).1 j ≡ V.object w j)
    unfolding put Same
    put_stores body key w = (
      λ w' h. (put_object body key w w' h, put_verified C cfg last_attempt body key w w' h),
      λ j differ. elim (Bool-cases (ltb (length body) cfg.multipart_threshold)) [
        | inl e ↦ rw e (put_single-others (full_key C cfg key) j differ (V.object w j) body w refl)
        | inr e ↦ rw e (
            put_multipart-others (full_key C cfg key) j differ (V.object w j) body (length body) w
              refl)
      ],
    )

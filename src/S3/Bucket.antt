-- ===== src/S3/Bucket.antt =====
-- The bucket as the client changes it, and what an upload leaves alone.
use cs_backup_helper.Base.{ℕ, suc, ◌≡◌, ◌≢◌, ◌⊎◌, ◌<◌, Option, none, some, List, [], ◌∷◌, arith}
use cs_backup_helper.Base.Text.{Text}
use cs_backup_helper.Base.Result.{Result, ok, raised}
use cs_backup_helper.S3.{
  S3Config, Part, Client, next_of, compared, verify_size, upload_parts, part_then,
}
use cs_backup_helper.S3.Chunks.{joined}

-- The bodies are those of the listed parts, by number and tag.
abbrev pub Holds : (Text → ℕ → Option (Text × Text)) → Text → List Part → List Text → Type 0
Holds part id [] [] = Unit
Holds part id (p ∷ parts) (body ∷ bodies) =
    (part id p.number ≡ some (p.etag, body)) × Holds part id parts bodies
Holds part id [] (body ∷ bodies) = ⊥
Holds part id (p ∷ parts) [] = ⊥

-- The objects of the bucket, and the tag and the body of a part of an upload.
pub record Contents (C : Client) : Type 0 where
  pub object : Client.World C → Text → Option Text
  pub part : Client.World C → Text → ℕ → Option (Text × Text)

-- What the client documents: what a call does when it returns, and what it leaves alone.
pub record IsBucket (C : Client) (b : Text) (V : Contents C) : Type 1 where
  -- Only the attempts of a retried call touch the bucket, and it returns what the last one does.
  pub retrying-keeps :
      {A : Type 0} (call : Client.World C → Result A × Client.World C) (P : Client.World C → Type 0)
      → ((v : Client.World C) → P v → P (call v).1)
      → (w : Client.World C) → P w
      → P (Client.retrying C call w).1
  pub retrying-last :
      {A : Type 0} (call : Client.World C → Result A × Client.World C) (P : Client.World C → Type 0)
      → ((v : Client.World C) → P v → P (call v).1)
      → (w : Client.World C) → P w
      → (a : A) (w' : Client.World C) → Client.retrying C call w ≡ (ok a, w')
      → (v : Client.World C) × P v × (call v ≡ (ok a, w'))
  pub put-object :
      (k body : Text) (w w' : Client.World C)
      → Client.put_object C b k body w ≡ (ok tt, w')
      → V.object w' k ≡ some body
  pub put-others :
      (k j body : Text) (w : Client.World C)
      → k ≢ j
      → V.object (Client.put_object C b k body w).1 j ≡ V.object w j
  pub head-objects :
      (k j : Text) (w : Client.World C) → V.object (Client.head_object C b k w).1 j ≡ V.object w j
  pub create-objects :
      (k j : Text) (w : Client.World C)
      → V.object (Client.create_multipart_upload C b k w).1 j ≡ V.object w j
  pub upload_part-part :
      (k id body etag : Text) (n : ℕ) (w w' : Client.World C)
      → Client.upload_part C b k n id body w ≡ (ok etag, w')
      → V.part w' id n ≡ some (etag, body)
  pub upload_part-others :
      (k id body : Text) (n m : ℕ) (w : Client.World C)
      → m < n
      → V.part (Client.upload_part C b k n id body w).1 id m ≡ V.part w id m
  pub upload_part-objects :
      (k id body j : Text) (n : ℕ) (w : Client.World C)
      → V.object (Client.upload_part C b k n id body w).1 j ≡ V.object w j
  -- The object is put together from the parts; an attempt leaves a part as it is, or takes it away.
  pub complete-object :
      (k id : Text) (parts : List Part) (w w' : Client.World C)
      → Client.complete_multipart_upload C b k id parts w ≡ (ok tt, w')
      → (bodies : List Text) × Holds (V.part w) id parts bodies
        × (V.object w' k ≡ some (joined bodies))
  pub complete-parts :
      (k id : Text) (parts : List Part) (n : ℕ) (w : Client.World C)
      → (V.part (Client.complete_multipart_upload C b k id parts w).1 id n ≡ V.part w id n)
        ⊎ (V.part (Client.complete_multipart_upload C b k id parts w).1 id n ≡ none)
  pub complete-others :
      (k j id : Text) (parts : List Part) (w : Client.World C)
      → k ≢ j
      → V.object (Client.complete_multipart_upload C b k id parts w).1 j ≡ V.object w j
  pub abort-objects :
      (k id j : Text) (w : Client.World C)
      → V.object (Client.abort_multipart_upload C b k id w).1 j ≡ V.object w j

module _ (C : Client) (cfg : S3Config) (V : Contents C) (B : IsBucket C cfg.bucket V) where
  pub next_of-keeps :
      {A R : Type 0} (P : Client.World C → Type 0) (t : Result A × Client.World C)
      (next : A → Client.World C → Result R × Client.World C)
      → P t.1
      → ((a : A) (v : Client.World C) → P v → P (next a v).1)
      → P (next_of C t next).1
  next_of-keeps P (ok a, v) next h step = step a v h
  next_of-keeps P (raised e, v) next h step = h

  pub verify_size-keeps :
      (P : Client.World C → Type 0) (key : Text) (size : ℕ)
      → ((v : Client.World C) → P v → P (Client.head_object C cfg.bucket key v).1)
      → (w : Client.World C) → P w
      → P (verify_size C cfg key size w).1
  unfolding verify_size
  verify_size-keeps P key size step w h =
      next_of-keeps P (Client.retrying C (Client.head_object C cfg.bucket key) w)
        (compared C cfg size) (B.retrying-keeps (Client.head_object C cfg.bucket key) P step w h)
        (λ remote v k. k)

  part_then-keeps :
      (P : Client.World C → Type 0) (n : ℕ) (t : Result (List Part) × Client.World C) (etag : Text)
      → P t.1
      → P (part_then C cfg n t etag).1
  part_then-keeps P n (ok parts, v) etag h = h
  part_then-keeps P n (raised e, v) etag h = h

  pub upload_parts-keeps :
      (P : Client.World C → Type 0) (key id : Text) (first : ℕ) (pieces : List Text)
      → ((n : ℕ) (body : Text) (v : Client.World C)
          → first < suc n
          → P v
          → P (Client.upload_part C cfg.bucket key n id body v).1)
      → (w : Client.World C) → P w
      → P (upload_parts C cfg key id first pieces w).1
  unfolding upload_parts
  upload_parts-keeps P key id first [] step w h = h
  upload_parts-keeps P key id first (chunk ∷ rest) step w h =
      next_of-keeps P (Client.retrying C (Client.upload_part C cfg.bucket key first id chunk) w)
        (λ etag v. part_then C cfg first (upload_parts C cfg key id (suc first) rest v) etag)
        (B.retrying-keeps (Client.upload_part C cfg.bucket key first id chunk) P
          (λ v k. step first chunk v (omega arith) k) w h)
        (λ etag v k. part_then-keeps P first (upload_parts C cfg key id (suc first) rest v) etag (
          upload_parts-keeps P key id (suc first) rest
            (λ n body u later m. step n body u (omega arith) m) v k))

-- ===== src/S3.antt =====
-- destinations/s3.py: uploads in one piece or in parts, over the S3 client.
pub mod Chunks
pub mod Uploads
pub mod Bucket
pub mod Parts
pub mod Stored
pub mod Memory
pub mod Tests
use cs_backup_helper.Base.{
  ℕ, zero, suc, ◌+◌, Bool, true, false, not, List, [], ◌∷◌, ◌++◌, map, length, take, drop, is_empty,
  keep_if, ltb, ◌==◌, if◌then◌else◌,
}
use cs_backup_helper.Base.Text.{Text, codes, text_eq}
use cs_backup_helper.Base.Result.{Exn, runtime_error, Result, ok, raised}
use cs_backup_helper.Base.Sort.{sort_asc}

-- `S3DestinationConfig`, the connection aside.
pub record S3Config : Type 0 where
  pub bucket : Text
  pub prefix : Text
  pub region : Text
  pub multipart_threshold : ℕ
  pub multipart_chunk_size : ℕ
  pub ensure_bucket : Bool

-- An uploaded part: its tag and its number.
pub record Part : Type 0 where
  pub etag : Text
  pub number : ℕ

-- The client. `head_bucket` says whether the bucket is there, and raises on another answer;
-- `download_file` gives what it puts into the file.
-- `retrying` is `call_with_retry`.
pub record Client : Type 1 where
  pub World : Type 0
  pub head_bucket : Text → World → Result Bool × World
  pub create_bucket : Text → Text → World → Result (Unit {0}) × World
  pub put_object : Text → Text → Text → World → Result (Unit {0}) × World
  pub head_object : Text → Text → World → Result ℕ × World
  pub create_multipart_upload : Text → Text → World → Result Text × World
  pub upload_part : Text → Text → ℕ → Text → Text → World → Result Text × World
  pub complete_multipart_upload : Text → Text → Text → List Part → World → Result (Unit {0}) × World
  pub abort_multipart_upload : Text → Text → Text → World → Result (Unit {0}) × World
  pub download_file : Text → Text → World → Result Text × World
  pub delete_object : Text → Text → World → Result (Unit {0}) × World
  pub list_objects : Text → Text → World → Result (List Text) × World
  pub retrying : {A : Type 0} → (World → Result A × World) → World → Result A × World

-- The reads of a file, chunk by chunk until one is empty; the fuel is one more than its bytes.
unfoldable pub chunks_from : ℕ → ℕ → Text → List Text
chunks_from zero size body = []
chunks_from (suc fuel) size body =
    let rest = chunks_from fuel size (drop size body) in
    if is_empty (take size body) then [] else take size body ∷ rest

unfoldable pub chunks : ℕ → Text → List Text
unfolding chunks_from
chunks size body = chunks_from (suc (length body)) size body

module _ (C : Client) where
  abbrev pub Call : Type 0 → Type 0
  Call A = Client.World C → Result A × Client.World C

  abbrev pub next_of :
      {A B : Type 0} → Result A × Client.World C → (A → Call B) → Result B × Client.World C
  next_of (ok a, w) next = next a w
  next_of (raised e, w) next = (raised e, w)

  infixl 12 ◌>>=◌
  abbrev pub ◌>>=◌ : {A B : Type 0} → Call A → (A → Call B) → Call B
  ◌>>=◌ call next w = next_of (call w) next

  module _ (cfg : S3Config) where
    unfoldable pub full_key : Text → Text
    full_key key = cfg.prefix ++ key

    abbrev pub region_to_set : Text
    region_to_set = if text_eq cfg.region (codes "us-east-1") then [] else cfg.region

    abbrev pub create_missing : Bool → Call (Unit {0})
    create_missing true w = (ok tt, w)
    create_missing false w = Client.create_bucket C cfg.bucket region_to_set w

    unfoldable pub ensure : Call (Unit {0})
    ensure w = next_of (Client.head_bucket C cfg.bucket w) create_missing

    -- The constructor, the client at hand.
    unfoldable pub open_destination : Call (Unit {0})
    unfolding ensure
    open_destination w = let (r, w') = ensure w in if cfg.ensure_bucket then (r, w') else (ok tt, w)

    abbrev pub compared : ℕ → ℕ → Call (Unit {0})
    compared size remote w = (if remote == size then ok tt else raised runtime_error, w)

    unfoldable pub verify_size : Text → ℕ → Call (Unit {0})
    verify_size key size w =
        next_of (Client.retrying C (Client.head_object C cfg.bucket key) w) (compared size)

    unfoldable pub put_single : Text → Text → Call (Unit {0})
    unfolding verify_size
    put_single body key w =
        next_of (Client.retrying C (Client.put_object C cfg.bucket key body) w)
          (λ _. verify_size key (length body))

    abbrev pub part_then :
        ℕ → Result (List Part) × Client.World C → Text → Result (List Part) × Client.World C
    part_then number (ok parts, w) etag = (ok (record { etag = etag; number = number } ∷ parts), w)
    part_then number (raised e, w) etag = (raised e, w)

    unfoldable pub upload_parts : Text → Text → ℕ → List Text → Call (List Part)
    upload_parts key id number [] w = (ok [], w)
    upload_parts key id number (chunk ∷ rest) w =
        next_of (Client.retrying C (Client.upload_part C cfg.bucket key number id chunk) w)
          (λ etag v. part_then number (upload_parts key id (suc number) rest v) etag)

    -- A failure aborts the upload, whatever the abort itself does, and goes on.
    abbrev pub or_abort :
        Text → Text → Result (Unit {0}) × Client.World C → Result (Unit {0}) × Client.World C
    or_abort key id (ok done, w) = (ok done, w)
    or_abort key id (raised e, w) =
        (raised e, (Client.abort_multipart_upload C cfg.bucket key id w).1)

    abbrev pub upload_all : Text → Text → Text → Call (Unit {0})
    unfolding upload_parts chunks
    upload_all body key id w =
        next_of (upload_parts key id 1 (chunks cfg.multipart_chunk_size body) w)
          (λ parts. Client.retrying C (Client.complete_multipart_upload C cfg.bucket key id parts))

    unfoldable pub put_multipart : Text → Text → ℕ → Call (Unit {0})
    unfolding verify_size upload_parts chunks
    put_multipart body key size w =
        next_of (Client.retrying C (Client.create_multipart_upload C cfg.bucket key) w)
          (λ id v. next_of (or_abort key id (upload_all body key id v)) (λ _. verify_size key size))

    unfoldable pub put : Text → Text → Call (Unit {0})
    unfolding full_key put_single put_multipart
    put body key =
        if ltb (length body) cfg.multipart_threshold
        then put_single body (full_key key)
        else put_multipart body (full_key key) (length body)

    abbrev pub below_prefix : Result (List Text) → Result (List Text)
    below_prefix (ok found) = ok (sort_asc (λ key. key) (map (drop (length cfg.prefix)) found))
    below_prefix (raised e) = raised e

    unfoldable pub list_keys : Text → Call (List Text)
    unfolding full_key
    list_keys prefix w =
        let (r, w') = Client.retrying C (Client.list_objects C cfg.bucket (full_key prefix)) w in
        (below_prefix r, w')

    unfoldable pub get : Text → Call Text
    unfolding full_key
    get key w = Client.retrying C (Client.download_file C cfg.bucket (full_key key)) w

    unfoldable pub delete : Text → Call (Unit {0})
    unfolding full_key
    delete key w = Client.delete_object C cfg.bucket (full_key key) w

    -- `is_missing`: the error's code is `404` or `NoSuchKey`.
    abbrev pub found : (Exn → Bool) → Result ℕ → Result Bool
    found is_missing (ok size) = ok true
    found is_missing (raised e) = if is_missing e then ok false else raised e

    unfoldable pub exists : (Exn → Bool) → Text → Call Bool
    unfolding full_key
    exists is_missing key w =
        let (r, w') = Client.head_object C cfg.bucket (full_key key) w in (found is_missing r, w')

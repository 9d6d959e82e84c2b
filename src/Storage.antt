-- ===== src/Storage.antt =====
-- Where snapshots are kept, as the pipeline sees it: the data dir and S3 buckets, behind the
-- operations of destinations/base.py. What happens outside the program is a record of operations
-- with the laws that the pipeline relies on.
pub mod Memory
use cs_backup_helper.Base.{true, All, ◌⊎◌, none, ◌≡◌, ◌≢◌, Option, some, List}
use cs_backup_helper.Base.Text.{Text, starts_with}
use cs_backup_helper.Base.Dict.{Dict, lookup}
use cs_backup_helper.Base.Result.{Result, ok}
use cs_backup_helper.Clock.{DateTime}
use cs_backup_helper.Config.{S3Spec}
use cs_backup_helper.Manifest.{Status, Manifest}

-- The outcome of one run of one job (state.py).
pub record RunRecord : Type 0 where
  pub job : Text
  pub snapshot_id : Text
  pub status : Status
  pub started_at : DateTime
  pub failed_components : List Text

-- What a file of the data dir or an object holds: the JSON of a manifest, of a pending marker, of a
-- run record or of a daemon's start, or other bytes, such as an archive's.
pub data File : Type 0 where
  bytes : Text → File
  manifest : Manifest → File
  marker : Text → File
  run_record : RunRecord → File
  daemon_start : DateTime → File

-- `World` is all that lies outside. A call may raise, and leaves a world then too.
pub record Storage : Type 1 where
  pub World : Type 0
  -- The files of the data dir, by their path in it.
  pub dir : World → Dict File
  pub write : Text → File → World → Result (Unit {0}) × World
  pub unlink : Text → World → Result (Unit {0}) × World
  -- A built `S3Destination`; the address of one of its keys; the object at an address.
  pub Bucket : Type 0
  pub address : Bucket → Text → Text
  pub place : Bucket → Text
  pub object : World → Text → Option File
  pub open_bucket : S3Spec → World → Result Bucket × World
  -- With `ensure_bucket` off.
  pub attach : S3Spec → World → Result Bucket × World
  pub put : Bucket → Text → File → World → Result (Unit {0}) × World
  pub get : Bucket → Text → World → Result File × World
  pub list_keys : Bucket → Text → World → Result (List Text) × World
  pub delete : Bucket → Text → World → Result (Unit {0}) × World

-- A call touches no other file or object than the one that it names, and does what it says when
-- it returns. `unlink` is given `missing_ok=True` throughout.
pub record IsLawful (S : Storage) : Type 0 where
  pub write-file :
      (k : Text) (f : File) (w : Storage.World S)
      → (Storage.write S k f w).0 ≡ ok tt
      → lookup k (Storage.dir S (Storage.write S k f w).1) ≡ some f
  pub write-others :
      (k j : Text) (f : File) (w : Storage.World S)
      → k ≢ j
      → lookup j (Storage.dir S (Storage.write S k f w).1) ≡ lookup j (Storage.dir S w)
  pub write-objects :
      (k : Text) (f : File) (w : Storage.World S) (a : Text)
      → Storage.object S (Storage.write S k f w).1 a ≡ Storage.object S w a
  pub unlink-others :
      (k j : Text) (w : Storage.World S)
      → k ≢ j
      → lookup j (Storage.dir S (Storage.unlink S k w).1) ≡ lookup j (Storage.dir S w)
  pub unlink-file :
      (k : Text) (w : Storage.World S)
      → (lookup k (Storage.dir S (Storage.unlink S k w).1) ≡ lookup k (Storage.dir S w))
        ⊎ (lookup k (Storage.dir S (Storage.unlink S k w).1) ≡ none)
  pub unlink-objects :
      (k : Text) (w : Storage.World S) (a : Text)
      → Storage.object S (Storage.unlink S k w).1 a ≡ Storage.object S w a
  pub open_bucket-dir :
      (spec : S3Spec) (w : Storage.World S) (j : Text)
      → lookup j (Storage.dir S (Storage.open_bucket S spec w).1) ≡ lookup j (Storage.dir S w)
  pub put-object :
      (b : Storage.Bucket S) (k : Text) (f : File) (w : Storage.World S)
      → (Storage.put S b k f w).0 ≡ ok tt
      → Storage.object S (Storage.put S b k f w).1 (Storage.address S b k) ≡ some f
  pub put-others :
      (b : Storage.Bucket S) (k : Text) (f : File) (w : Storage.World S) (a : Text)
      → Storage.address S b k ≢ a
      → Storage.object S (Storage.put S b k f w).1 a ≡ Storage.object S w a
  pub put-dir :
      (b : Storage.Bucket S) (k : Text) (f : File) (w : Storage.World S) (j : Text)
      → lookup j (Storage.dir S (Storage.put S b k f w).1) ≡ lookup j (Storage.dir S w)
  pub list_keys-dir :
      (b : Storage.Bucket S) (p : Text) (w : Storage.World S) (j : Text)
      → lookup j (Storage.dir S (Storage.list_keys S b p w).1) ≡ lookup j (Storage.dir S w)
  pub list_keys-objects :
      (b : Storage.Bucket S) (p : Text) (w : Storage.World S) (a : Text)
      → Storage.object S (Storage.list_keys S b p w).1 a ≡ Storage.object S w a
  -- Every listed key has the prefix that was asked for.
  pub list_keys-prefix :
      (b : Storage.Bucket S) (p : Text) (w : Storage.World S) (found : List Text)
      → (Storage.list_keys S b p w).0 ≡ ok found
      → All (λ key. starts_with p key ≡ true) found
  pub delete-others :
      (b : Storage.Bucket S) (k : Text) (w : Storage.World S) (a : Text)
      → Storage.address S b k ≢ a
      → Storage.object S (Storage.delete S b k w).1 a ≡ Storage.object S w a
  pub delete-dir :
      (b : Storage.Bucket S) (k : Text) (w : Storage.World S) (j : Text)
      → lookup j (Storage.dir S (Storage.delete S b k w).1) ≡ lookup j (Storage.dir S w)

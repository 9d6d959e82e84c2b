-- ===== src/Runner/Deliver.antt =====
-- `_build_destinations`, `_upload` and `_deliver`: a snapshot reaches its destinations.
pub mod Puts
pub mod Stored
pub mod Complete
use cs_backup_helper.Base.{
  ℕ, Bool, true, false, not, ◌&&◌, Option, none, some, List, [], ◌∷◌, ◌++◌, any, is_empty,
  if◌then◌else◌,
}
use cs_backup_helper.Base.Text.{Text}
use cs_backup_helper.Base.Result.{Exn, Result, ok, raised}
use cs_backup_helper.Config.{S3Spec, DestinationSpec, local, s3, Job}
use cs_backup_helper.Storage.{File, Storage}
use cs_backup_helper.Runner.{
  Problem, s3_unavailable, upload_failed, kept_in_data_dir, Artifact, manifest_name,
}

-- A built destination: `LocalDestination(data_dir)` or an `S3Destination`.
pub data Destination (B : Type 0) : Type 0 where
  data_dir : Destination B
  bucket : B → Destination B

abbrev pub is_local : {B : Type 0} → Destination B → Bool
is_local data_dir = true
is_local (bucket b) = false

-- `_Delivery`; `fell_back` says that the data dir only stood in.
pub record Delivery (B : Type 0) : Type 0 where
  pub destinations : List (Destination B)
  pub stored : List (Destination B)
  pub fell_back : Bool

module _ (S : Storage) where
  abbrev pub W : Type 0
  W = Storage.World S

  abbrev pub D : Type 0
  D = Destination (Storage.Bucket S)

  -- `dest.put(path, key)`
  abbrev pub put_to : D → Text → File → W → Result (Unit {0}) × W
  put_to data_dir k f w = Storage.write S k f w
  put_to (bucket b) k f w = Storage.put S b k f w

  abbrev pub opened :
      Text → Result (Storage.Bucket S) → List D × List Problem → List D × List Problem
  opened name (ok b) (built, failures) = (bucket b ∷ built, failures)
  opened name (raised e) (built, failures) = (built, s3_unavailable name e ∷ failures)

  -- The destinations, and the problems met, in the order of the specs.
  unfoldable pub build_destinations : List DestinationSpec → W → (List D × List Problem) × W
  build_destinations [] w = (([], []), w)
  build_destinations (local ∷ specs) w =
      let ((built, failures), w') = build_destinations specs w in ((data_dir ∷ built, failures), w')
  build_destinations (s3 spec ∷ specs) w =
      let skipped = build_destinations specs w in
      let (r, w1) = Storage.open_bucket S spec w in
      let (rest, w2) = build_destinations specs w1 in
      if is_empty spec.bucket then skipped else (opened spec.bucket r rest, w2)

  abbrev pub then_put : D → Text → File → Result (Unit {0}) × W → Result (Unit {0}) × W
  then_put d k f (ok done, w) = put_to d k f w
  then_put d k f (raised e, w) = (raised e, w)

  -- The body of the `try`: the archive, then the sidecar.
  unfoldable pub put_both : D → Artifact → File → Text → W → Result (Unit {0}) × W
  put_both d artifact sidecar sid w =
      then_put d (manifest_name sid) sidecar (put_to d artifact.name artifact.content w)

  abbrev pub noted : D → Result (Unit {0}) → List D × List Problem → List D × List Problem
  noted d (ok done) (stored, failures) = (d ∷ stored, failures)
  noted d (raised e) (stored, failures) = (stored, upload_failed e ∷ failures)

  unfoldable pub upload : List D → Artifact → File → Text → W → (List D × List Problem) × W
  unfolding put_both
  upload [] artifact sidecar sid w = (([], []), w)
  upload (d ∷ ds) artifact sidecar sid w =
      let (r, w1) = put_both d artifact sidecar sid w in
      let (rest, w2) = upload ds artifact sidecar sid w1 in (noted d r rest, w2)

  -- With no destination and no failure, nothing is configured: the data dir is the default.
  abbrev pub or_default : List D × List Problem → List D
  or_default ([], []) = data_dir ∷ []
  or_default (built, _) = built

  abbrev pub fallback_note : List D → List Problem
  fallback_note [] = []
  fallback_note (_ ∷ _) = kept_in_data_dir ∷ []

  -- What follows the uploads: the data dir stands in if they stored nothing and it was not tried.
  unfoldable pub settle :
      Artifact
      → File
      → Text
      → List Problem
      → List D
      → (List D × List Problem) × W
      → (Delivery (Storage.Bucket S) × List Problem) × W
  settle artifact sidecar sid failures destinations ((stored, more), w) =
      let ((kept, last), w') = upload (data_dir ∷ []) artifact sidecar sid w in
      if is_empty stored && not (any is_local destinations)
      then (
        (
          record { destinations = destinations; stored = kept; fell_back = true },
          failures ++ (more ++ (last ++ fallback_note kept)),
        ),
        w',
      )
      else (
        (
          record { destinations = destinations; stored = stored; fell_back = false },
          failures ++ more,
        ),
        w,
      )

  unfoldable pub deliver :
      Job → Artifact → File → Text → W → (Delivery (Storage.Bucket S) × List Problem) × W
  deliver job artifact sidecar sid w =
      let (built, w1) = build_destinations job.destinations w in
      settle artifact sidecar sid built.1 (or_default built)
        (upload (or_default built) artifact sidecar sid w1)

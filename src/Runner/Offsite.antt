-- ===== src/Runner/Offsite.antt =====
-- `_track_offsite` and `_maybe_drop_local`: pending snapshots are shipped later, and the local copy
-- goes once an off-site destination has the snapshot.
pub mod Safe
pub mod Kept
use cs_backup_helper.Base.{
  ℕ, Bool, true, false, not, ◌&&◌, ◌||◌, Option, none, some, List, [], ◌∷◌, ◌++◌, map, any,
  is_empty, is_some, length, ltb, ◌==◌, keep_if, if◌then◌else◌,
}
use cs_backup_helper.Base.Text.{Text, text_eq, starts_with, strip_suffix}
use cs_backup_helper.Base.Dict.{Dict, lookup, keys}
use cs_backup_helper.Base.Sort.{sort_asc}
use cs_backup_helper.Base.Result.{Exn, Result, ok, raised}
use cs_backup_helper.Config.{DestinationSpec, Job, has_bucket, is_local_spec}
use cs_backup_helper.Storage.{File, bytes, manifest, marker, Storage}
use cs_backup_helper.Runner.{
  Problem, pending_upload, no_offsite_copy, Artifact, manifest_name, marker_name, pending_suffix,
  archive_suffix,
}
use cs_backup_helper.Runner.Act.{Act, done_at, calling, ◌>>◌, ◌>>=◌}
use cs_backup_helper.Runner.Deliver.{
  Destination, data_dir, bucket, is_local, Delivery, W, D, upload,
}

-- `data_dir.glob(pattern)` finds entries of the data dir itself.
abbrev pub is_nested : Text → Bool
is_nested name = any (λ c. c == b'/') name

-- `sorted(data_dir.glob(f"{sid}.tar.gz*"))[0]`
abbrev pub first_of : List Text → Option Text
first_of [] = none
first_of (name ∷ names) = some name

unfoldable pub find_artifact : Dict File → Text → Option Text
find_artifact dir sid = first_of (
    sort_asc (λ name. name)
      (keep_if (λ name. starts_with (sid ++ archive_suffix) name && not (is_nested name))
        (keys dir)))

-- The job that a marker names; a file that holds no marker is skipped.
abbrev pub owner_in : Option File → Option Text
owner_in (some (marker owner)) = some owner
owner_in _ = none

abbrev pub pending_of : Dict File → Text → Option Text → Option Text → List (Text × Text)
pending_of dir name (some sid) (some owner) = (sid, owner) ∷ []
pending_of dir name _ _ = []

unfoldable pub owners_from : Dict File → List Text → List (Text × Text)
owners_from dir [] = []
owners_from dir (name ∷ names) =
    pending_of dir name (strip_suffix pending_suffix name) (owner_in (lookup name dir))
    ++ owners_from dir names

-- Snapshot id -> the job its off-site pending marker names (snapshots.py).
unfoldable pub pending_owners : Dict File → List (Text × Text)
unfolding owners_from
pending_owners dir =
    owners_from dir (sort_asc (λ name. name) (keep_if (λ name. not (is_nested name)) (keys dir)))

unfoldable pub owned_by : Text → List (Text × Text) → List Text
owned_by job [] = []
owned_by job ((sid, owner) ∷ pending) =
    let rest = owned_by job pending in if text_eq owner job then sid ∷ rest else rest

unfoldable pub pending_ids : Dict File → Text → List Text
unfolding pending_owners owned_by
pending_ids dir job = owned_by job (pending_owners dir)

abbrev pub has_local : List DestinationSpec → Bool
has_local specs = any is_local_spec specs

abbrev pub offsite_configured : Job → Bool
offsite_configured job = any has_bucket job.destinations

module _ (S : Storage) where
  abbrev pub unlinking : Text → Act (W S) (Unit {0})
  unlinking k = calling (Storage.unlink S k)

  abbrev pub writing : Text → File → Act (W S) (Unit {0})
  writing k f = calling (Storage.write S k f)

  abbrev pub Buckets : Type 0
  Buckets = List (Storage.Bucket S)

  -- `[d for d in stored if not isinstance(d, LocalDestination)]`
  abbrev pub offsite : List (D S) → Buckets
  offsite [] = []
  offsite (data_dir ∷ ds) = offsite ds
  offsite (bucket b ∷ ds) = b ∷ offsite ds

  -- The uploaded files go when the job keeps none locally.
  abbrev pub drop_files : Bool → Text → Text → Act (W S) (Unit {0})
  drop_files true artifact sidecar = done_at tt
  drop_files false artifact sidecar = unlinking artifact >> unlinking sidecar

  -- One pending snapshot whose archive and sidecar are there.
  abbrev pub after_upload : Text → Text → Bool → Bool → List Problem → Act (W S) (Unit {0})
  after_upload sid artifact keeps_local true failures errors w =
      (ok tt, errors ++ map (pending_upload sid) failures, w)
  after_upload sid artifact keeps_local false failures errors w =
      (unlinking (marker_name sid) >> drop_files keeps_local artifact (manifest_name sid)) errors w

  unfoldable pub ship : Buckets → Text → Text → File → File → Bool → Act (W S) (Unit {0})
  ship stores sid artifact content sidecar keeps_local errors w =
      let ((stored, failures), w') =
        upload S (map bucket stores) (record { name = artifact; content = content }) sidecar sid
          w in
      after_upload sid artifact keeps_local (ltb (length stored) (length stores)) failures errors w'

  abbrev pub ship_found :
      Buckets → Text → Bool → Option Text → Option File → Option File → Act (W S) (Unit {0})
  ship_found stores sid keeps_local (some artifact) (some content) (some sidecar) =
      ship stores sid artifact content sidecar keeps_local
  ship_found stores sid keeps_local _ _ _ = unlinking (marker_name sid)

  abbrev pub content_of : Dict File → Option Text → Option File
  content_of dir none = none
  content_of dir (some name) = lookup name dir

  unfoldable pub ship_pending : Buckets → Text → Bool → Act (W S) (Unit {0})
  unfolding ship
  ship_pending stores sid keeps_local errors w =
      let dir = Storage.dir S w in
      let artifact = find_artifact dir sid in
      ship_found stores sid keeps_local artifact (content_of dir artifact)
        (lookup (manifest_name sid) dir) errors w

  unfoldable pub ship_all : Buckets → List Text → Bool → Act (W S) (Unit {0})
  ship_all stores [] keeps_local = done_at tt
  ship_all stores (sid ∷ sids) keeps_local =
      ship_pending stores sid keeps_local >> ship_all stores sids keeps_local

  unfoldable pub track_offsite : Job → Text → Delivery (Storage.Bucket S) → Act (W S) (Unit {0})
  track_offsite job sid delivery errors w =
      if is_empty (offsite delivery.stored)
      then if offsite_configured job && not (is_empty delivery.stored)
        then writing (marker_name sid) (marker job.name) errors w
        else done_at tt errors w
      else ship_all (offsite delivery.stored) (pending_ids (Storage.dir S w) job.name)
          (job.keep_local && has_local job.destinations) errors w

  unfoldable pub maybe_drop_local : Job → Text → Text → List (D S) → Act (W S) (Unit {0})
  maybe_drop_local job artifact sid stored errors w =
      if job.keep_local || not (has_local job.destinations)
      then done_at tt errors w
      else if not (any is_local stored)
      then done_at tt errors w
      else if not (any (λ d. not (is_local d)) stored)
      then (ok tt, errors ++ no_offsite_copy (offsite_configured job) ∷ [], w)
      else (unlinking artifact >> unlinking (manifest_name sid)) errors w

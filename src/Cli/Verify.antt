-- ===== src/Cli/Verify.antt =====
-- cli.py: `verify_snapshot` and `list_snapshots`.
pub mod Accepted
use cs_backup_helper.Base.{
  ℕ, Bool, true, false, Option, none, some, is_some, List, [], ◌∷◌, map, is_empty, if◌then◌else◌,
}
use cs_backup_helper.Base.Text.{Text, text_eq}
use cs_backup_helper.Base.Dict.{Dict, lookup, keys}
use cs_backup_helper.Base.Sort.{sort_asc}
use cs_backup_helper.Base.Result.{Exn, value_error, Result, ok, raised}
use cs_backup_helper.Manifest.{Manifest}
use cs_backup_helper.Storage.{daemon_start, File, bytes, manifest, marker, run_record, Storage}
use cs_backup_helper.Runner.{manifest_name}
use cs_backup_helper.Runner.Offsite.{find_artifact}
use cs_backup_helper.Runner.Prune.{ids_of_keys}

abbrev pub size_or_zero : (Text → ℕ) → Option Text → ℕ
size_or_zero size none = 0
size_or_zero size (some artifact) = size artifact

-- The ids of the manifests in the data dir, in the order of their files, each with the size of its
-- archive.
unfoldable pub list_snapshots : Dict File → (Text → ℕ) → List (Text × ℕ)
unfolding ids_of_keys
list_snapshots dir size =
    map (λ sid. (sid, size_or_zero size (find_artifact dir sid)))
      (ids_of_keys (sort_asc (λ key. key) (keys dir)))

module _ (S : Storage) (hash_of : Text → Storage.World S → Result Text × Storage.World S) where
  abbrev pub compared_with : Text → Result Text × Storage.World S → Result Bool × Storage.World S
  compared_with expected (ok hash, w) = (ok (text_eq hash expected), w)
  compared_with expected (raised e, w) = (raised e, w)

  abbrev pub verified : Option Text → Option File → Storage.World S → Result Bool × Storage.World S
  verified (some artifact) (some (manifest m)) w =
      if is_empty m.archive_sha256
      then (ok false, w)
      else compared_with m.archive_sha256 (hash_of artifact w)
  verified (some artifact) (some (bytes t)) w = (raised value_error, w)
  verified (some artifact) (some (marker t)) w = (ok false, w)
  verified (some artifact) (some (run_record r)) w = (ok false, w)
  verified (some artifact) (some (daemon_start t)) w = (ok false, w)
  verified (some artifact) none w = (ok false, w)
  verified none sidecar w = (ok false, w)

  unfoldable pub verify_snapshot : Text → Storage.World S → Result Bool × Storage.World S
  verify_snapshot sid w =
      let dir = Storage.dir S w in
      verified (find_artifact dir sid) (lookup (manifest_name sid) dir) w

-- ===== src/Runner/Engine.antt =====
-- What a run calls outside the modules that are modelled: sources, hooks, the notifier, the
-- archiver, the encryption tools and the work dir, as a record of operations over one world.
use cs_backup_helper.Base.{ℕ, Option, List}
use cs_backup_helper.Base.Text.{Text}
use cs_backup_helper.Base.Result.{Exn, Result}
use cs_backup_helper.Config.{SourceSpec}
use cs_backup_helper.Loader.Tree.{Json}
use cs_backup_helper.Manifest.{Status, Manifest}
use cs_backup_helper.Storage.{File, Storage}
use cs_backup_helper.Runner.{Problem}
use cs_backup_helper.Runner.Status.{Outcome}

-- `StagedComponent`; a missing path and a missing error are empty.
pub record StagedComponent : Type 0 where
  pub name : Text
  pub kind : Text
  pub path : Text
  pub warnings : List Text
  pub error : Text

-- The message of an alert: an outcome, or that the run was aborted.
pub data Message : Type 0 where
  finished : Outcome → Message
  aborted_before_end : Message

-- `AlertEvent`, without its title and its duration.
pub record AlertEvent : Type 0 where
  pub status : Status
  pub message : Message
  pub snapshot_id : Text
  pub job : Text
  pub total_bytes : ℕ
  pub errors : List Problem

pub record Engine (S : Storage) : Type 1 where
  -- A built source (plugins/registry.py), the name of its component, and its `produce`.
  pub Source : Type 0
  pub build_source : SourceSpec → Result Source
  pub component_name : Source → Result Text
  pub produce : Source → Storage.World S → Result (List StagedComponent) × Storage.World S
  -- `staging.iterdir()`; the removal of one entry.
  pub entries : Storage.World S → List Text
  pub remove : Text → Storage.World S → Result (Unit {0}) × Storage.World S
  -- `path.stat().st_size`, `sha256_file(path)` and the content of a file of the work dir.
  pub size_of : Text → Storage.World S → Result ℕ × Storage.World S
  pub sha256_file : Text → Storage.World S → Result Text × Storage.World S
  pub content : Text → Storage.World S → File
  -- `write_manifest(manifest, sidecar)`, into the work dir.
  pub write_manifest : Manifest → Storage.World S → Result (Unit {0}) × Storage.World S
  -- The embedded manifest, then `create_bundle(staging, archive)`.
  pub create_bundle : Manifest → Text → Storage.World S → Result (Unit {0}) × Storage.World S
  -- `run(argv, capture_output=True)`: the exit code.
  pub run : List Text → Storage.World S → Result ℕ × Storage.World S
  -- The work and staging dirs are made before a run and removed after it.
  pub prepare : Storage.World S → Result (Unit {0}) × Storage.World S
  pub clean_up : Storage.World S → Storage.World S
  pub hook : Text → Storage.World S → Result (Unit {0}) × Storage.World S
  pub notify : AlertEvent → Storage.World S → Result (Unit {0}) × Storage.World S
  -- `json.loads`
  pub loads : Text → Option Json
  -- `type(exc).__name__`, `_describe(exc)` and `redact`.
  pub type_name : Exn → Text
  pub describe : Exn → Text
  pub redact : Text → Text

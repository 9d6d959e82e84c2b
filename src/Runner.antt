-- ===== src/Runner.antt =====
-- runner.py: one run of a job, from its sources to its alert, and the restore of a snapshot.
pub mod Act
pub mod Status
pub mod Deliver
pub mod Engine
pub mod Produce
pub mod Run
pub mod Offsite
pub mod Restore
pub mod Samples
pub mod Tests
pub mod Prune
use cs_backup_helper.Base.{ℕ, Bool, List, ◌++◌}
use cs_backup_helper.Base.Text.{Text, codes}
use cs_backup_helper.Base.Result.{Exn}
use cs_backup_helper.Storage.{File}

-- The entries of a run's `errors`, one constructor for each text that the code writes. Where the
-- text shows an exception, `_describe` renders it; the exception itself stands here.
pub data Problem : Type 0 where
  source_raised : Text → Exn → Problem
  component_failed : Text → Text → Problem
  incomplete : Text → List Text → Problem
  stored_unencrypted : Exn → Problem
  s3_unavailable : Text → Exn → Problem
  upload_failed : Exn → Problem
  kept_in_data_dir : Problem
  no_copy : Problem
  pending_upload : Text → Problem → Problem
  retention_failed : Exn → Problem
  no_offsite_copy : Bool → Problem
  run_aborted : Exn → Problem

-- An archive with its file name.
pub record Artifact : Type 0 where
  pub name : Text
  pub content : File

abbrev pub manifest_suffix : Text
manifest_suffix = codes ".manifest.json"

abbrev pub pending_suffix : Text
pending_suffix = codes ".offsite-pending.json"

abbrev pub archive_suffix : Text
archive_suffix = codes ".tar.gz"

-- `f"{sid}.manifest.json"`
abbrev pub manifest_name : Text → Text
manifest_name sid = sid ++ manifest_suffix

abbrev pub marker_name : Text → Text
marker_name sid = sid ++ pending_suffix

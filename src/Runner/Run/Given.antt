-- ===== src/Runner/Run/Given.antt =====
-- runner.py: what `run_job` is given, and what it gives.
use cs_backup_helper.Base.{ℕ, Bool, Option, none, some, List, []}
use cs_backup_helper.Base.Text.{Text, codes}
use cs_backup_helper.Clock.{DateTime}
use cs_backup_helper.Config.{EncryptionMode, plain, age, gpg, Job}
use cs_backup_helper.Manifest.{Component, Status, Manifest}
use cs_backup_helper.Snapshots.{SnapshotScope, new_id}
use cs_backup_helper.Storage.{Storage}
use cs_backup_helper.Runner.{Problem, Artifact}
use cs_backup_helper.Runner.Engine.{AlertEvent, Message}
use cs_backup_helper.Runner.Deliver.{Delivery}

-- `archive` says whether the data dir holds the archive.
pub record JobResult : Type 0 where
  pub status : Status
  pub snapshot_id : Text
  pub archive : Option Text
  pub total_bytes : ℕ
  pub components : List Component
  pub errors : List Problem

-- What a run knows once its snapshot is delivered.
pub record Done (S : Storage) : Type 0 where
  pub artifact : Artifact
  pub sidecar : Manifest
  pub delivery : Delivery (Storage.Bucket S)

-- `_ENCRYPT_SUFFIX`
abbrev pub encrypt_suffix : EncryptionMode → Text
encrypt_suffix plain = []
encrypt_suffix age = codes ".age"
encrypt_suffix gpg = codes ".gpg"

-- The parameters of a run: the job, the instance's name, its start as a time and as ISO text.
pub record Params : Type 0 where
  pub job : Job
  pub instance_name : Text
  pub now : DateTime
  pub created_at : Text
  pub scope : SnapshotScope
  pub snapshot_id : Option Text
  pub has_notifier : Bool
  pub has_hooks : Bool

abbrev pub sid_of : Params → Text
sid_of p = elim p.snapshot_id [ none ↦ new_id p.scope p.now | some sid ↦ sid ]

-- `_event`
abbrev pub event : Params → Status → ℕ → List Problem → Message → AlertEvent
event p status total_bytes errors message = record {
  status = status;
  message = message;
  snapshot_id = sid_of p;
  job = p.job.name;
  total_bytes = total_bytes;
  errors = errors;
}

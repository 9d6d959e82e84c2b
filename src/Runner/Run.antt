-- ===== src/Runner/Run.antt =====
-- `run_job`: the pipeline of one job, and what it does when a step raises.
pub mod Results
pub mod Given
unfoldable pub use Given.*
use cs_backup_helper.Base.{
  ℕ, Bool, true, false, not, Option, none, some, List, [], ◌∷◌, ◌++◌, map, keep_if, is_empty,
  is_some, if◌then◌else◌,
}
use cs_backup_helper.Base.Text.{Text, codes}
use cs_backup_helper.Base.Dict.{lookup}
use cs_backup_helper.Base.Result.{Exn, Result, ok, raised}
use cs_backup_helper.Clock.{DateTime}
use cs_backup_helper.Config.{EncryptionMode, plain, age, gpg, Job}
use cs_backup_helper.Encryption.{encrypt}
use cs_backup_helper.Manifest.{Component, Status, error, has_error, Manifest, build_manifest}
use cs_backup_helper.Snapshots.{SnapshotScope, new_id}
use cs_backup_helper.State.{record_run}
use cs_backup_helper.Storage.{RunRecord, File, manifest, Storage}
use cs_backup_helper.Runner.{
  Problem, stored_unencrypted, no_copy, run_aborted, Artifact, archive_suffix,
}
use cs_backup_helper.Runner.Act.{Act, done_at, calling, noting, guarded, ◌>>=◌, ◌>>◌}
use cs_backup_helper.Runner.Status.{job_status, outcome}
use cs_backup_helper.Runner.Engine.{Engine, AlertEvent, Message, finished, aborted_before_end}
use cs_backup_helper.Runner.Produce.{produce}
use cs_backup_helper.Runner.Deliver.{data_dir, Delivery, D, deliver}
use cs_backup_helper.Runner.Offsite.{pending_ids, track_offsite, maybe_drop_local}
use cs_backup_helper.Runner.Prune.{apply_retention}

module _ (S : Storage) (E : Engine S) where
  abbrev pub Step : Type 0 → Type 0
  Step = Act (Storage.World S)

  -- The path of the archive that is stored; an encryption that fails leaves the plain one.
  unfoldable pub maybe_encrypt : Text → Job → Text → Step Text
  maybe_encrypt archive job sid =
      guarded
        (calling (
          encrypt (Engine.run E) archive
            (sid ++ (archive_suffix ++ encrypt_suffix job.encryption.mode)) job.encryption.mode
            job.encryption.recipient))
        (λ failure. noting (stored_unencrypted failure ∷ []) >> done_at archive)

  unfoldable pub retain_all : Params → List (D S) → Step (Unit {0})
  retain_all p [] = done_at tt
  retain_all p (d ∷ ds) = apply_retention S d p.job.retention p.now p.scope none >> retain_all p ds

  -- The fallback copies of the job itself.
  abbrev pub retain_fallback : Params → Bool → Step (Unit {0})
  retain_fallback p false errors w = (ok tt, errors, w)
  retain_fallback p true errors w =
      apply_retention S data_dir p.job.retention p.now p.scope
        (some (pending_ids (Storage.dir S w) p.job.name)) errors w

  abbrev pub run_hook : Params → Text → Step (Unit {0})
  run_hook p phase = if p.has_hooks then calling (Engine.hook E phase) else done_at tt

  abbrev pub gather : Params → Step (List Component)
  gather p = do run_hook p (codes "pre_backup"); produce S E p.job.sources

  abbrev pub built : Params → List Component → Text → Manifest
  built p components hash = build_manifest (sid_of p) p.instance_name p.created_at hash components

  abbrev pub artifact_at : Text → Step Artifact
  artifact_at path errors w =
      (ok (record { name = path; content = Engine.content E path w }), errors, w)

  abbrev pub deliver_step : Params → Artifact → Manifest → Step (Delivery (Storage.Bucket S))
  deliver_step p artifact sidecar errors w =
      let ((delivery, failures), w') = deliver S p.job artifact (manifest sidecar) (sid_of p) w in
      (ok delivery, errors ++ failures, w')

  abbrev pub note_unstored : Delivery (Storage.Bucket S) → List Problem
  note_unstored delivery = if is_empty delivery.stored then no_copy ∷ [] else []

  -- From the components to the delivered snapshot, its retention included.
  unfoldable pub store : Params → List Component → Step (Done S)
  unfolding maybe_encrypt retain_all
  store p components = do
    let archive = sid_of p ++ archive_suffix
    calling (Engine.create_bundle E (built p components []) archive)
    path ← maybe_encrypt archive p.job (sid_of p)
    hash ← calling (Engine.sha256_file E path)
    calling (Engine.write_manifest E (built p components hash))
    artifact ← artifact_at path
    delivery ← deliver_step p artifact (built p components hash)
    noting (note_unstored delivery)
    track_offsite S p.job (sid_of p) delivery
    retain_all p delivery.destinations
    retain_fallback p delivery.fell_back
    maybe_drop_local S p.job path (sid_of p) delivery.stored
    done_at (record { artifact = artifact; sidecar = built p components hash; delivery = delivery })

  abbrev pub run_record_of : Params → Status → List Component → RunRecord
  run_record_of p status components = record {
    job = p.job.name;
    snapshot_id = sid_of p;
    status = status;
    started_at = p.now;
    failed_components = map (λ (c : Component). c.name) (keep_if has_error components);
  }

  -- `_record_state` never fails the run.
  unfoldable pub record_state : Params → Status → List Component → Storage.World S → Storage.World S
  record_state p status components w = (record_run S (run_record_of p status components) w).1

  abbrev pub alerted : Bool → AlertEvent → Storage.World S → Result (Unit {0}) × Storage.World S
  alerted false alert w = (ok tt, w)
  alerted true alert w = Engine.notify E alert w

  -- A run that was aborted: the record and the alert, whose own failure is dropped, then the
  -- clean-up, and the exception goes on.
  unfoldable pub abort :
      Params
      → Exn
      → List Component
      → List Problem
      → Storage.World S
      → Result JobResult × Storage.World S
  unfolding record_state
  abort p failure components errors w =
      let noted = errors ++ (run_aborted failure ∷ []) in
      let recorded = record_state p error components w in
      let sent = alerted p.has_notifier (event p error 0 noted aborted_before_end) recorded in
      (raised failure, Engine.clean_up E sent.1)

  abbrev pub stored_archive : Text → Storage.World S → Option Text
  stored_archive name w = if is_some (lookup name (Storage.dir S w)) then some name else none

  abbrev pub result_of :
      Params → Done S → List Component → List Problem → Storage.World S → JobResult
  result_of p done components errors w = record {
    status = job_status components errors (not (is_empty done.delivery.stored));
    snapshot_id = sid_of p;
    archive = stored_archive done.artifact.name w;
    total_bytes = done.sidecar.total_bytes;
    components = components;
    errors = errors;
  }

  abbrev pub after_hook :
      JobResult
      → Result (Unit {0}) × List Problem × Storage.World S
      → Result JobResult × Storage.World S
  after_hook result (ok done, noted, w) = (ok result, w)
  after_hook result (raised failure, noted, w) = (raised failure, w)

  abbrev pub after_alert :
      Params → JobResult → Result (Unit {0}) × Storage.World S → Result JobResult × Storage.World S
  after_alert p result (raised failure, w) = (raised failure, w)
  after_alert p result (ok sent, w) = after_hook result (run_hook p (codes "post_backup") [] w)

  -- The end of a run whose snapshot is delivered.
  unfoldable pub finish :
      Params
      → Done S
      → List Component
      → List Problem
      → Storage.World S
      → Result JobResult × Storage.World S
  unfolding record_state
  finish p done components errors w =
      let cleaned = Engine.clean_up E w in
      let result = result_of p done components errors cleaned in
      let recorded = record_state p result.status components cleaned in
      let message =
        finished (outcome result.status components (not (is_empty done.delivery.stored))) in
      after_alert p result
        (alerted p.has_notifier (event p result.status result.total_bytes errors message) recorded)

  abbrev pub ended :
      Params
      → List Component
      → Result (Done S) × List Problem × Storage.World S
      → Result JobResult × Storage.World S
  ended p components (ok done, errors, w) = finish p done components errors w
  ended p components (raised failure, errors, w) = abort p failure components errors w

  abbrev pub gathered :
      Params
      → Result (List Component) × List Problem × Storage.World S
      → Result JobResult × Storage.World S
  gathered p (ok components, errors, w) = ended p components (store p components errors w)
  gathered p (raised failure, errors, w) = abort p failure [] errors w

  abbrev pub prepared :
      Params → Result (Unit {0}) × Storage.World S → Result JobResult × Storage.World S
  prepared p (raised failure, w) = (raised failure, w)
  prepared p (ok done, w) = gathered p (gather p [] w)

  unfoldable pub run_job : Params → Storage.World S → Result JobResult × Storage.World S
  unfolding store finish abort
  run_job p w = prepared p (Engine.prepare E w)

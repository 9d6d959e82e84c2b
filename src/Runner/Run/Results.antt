-- ===== src/Runner/Run/Results.antt =====
-- How a run ends: its record for the healthcheck.
pub mod Failed
use cs_backup_helper.Base.{
  inr, inl, Bool-cases, ap, ◌≡◌, refl, ◌∙◌, some, List, [], Bool, true, false,
}
use cs_backup_helper.Base.Text.{codes, Text}
use cs_backup_helper.Base.Dict.{lookup}
use cs_backup_helper.Base.Result.{ok-injective, raised, Exn, Result, ok}
use cs_backup_helper.Manifest.{Component, Status, error}
use cs_backup_helper.State.{job_file, record_run}
use cs_backup_helper.State.Records.{record_run-file}
use cs_backup_helper.Storage.{RunRecord, run_record, Storage, IsLawful}
use cs_backup_helper.Runner.{Problem}
use cs_backup_helper.Runner.Engine.{Engine, AlertEvent}
use cs_backup_helper.Runner.Run.{
  result_of, ended, gather, prepared, Done, store, gathered, after_alert, run_hook, run_job, finish,
  after_hook, JobResult, Params, alerted, run_record_of, record_state, abort,
}

module _ (S : Storage) (L : IsLawful S) (E : Engine S) (p : Params)
    (records : (r : RunRecord) (w : Storage.World S) → (record_run S r w).0 ≡ ok tt)
    (notify-dir : (a : AlertEvent) (w : Storage.World S)
      → lookup (job_file p.job.name) (Storage.dir S (Engine.notify E a w).1)
        ≡ lookup (job_file p.job.name) (Storage.dir S w))
    (hook-dir : (phase : Text) (w : Storage.World S)
      → lookup (job_file p.job.name) (Storage.dir S (Engine.hook E phase w).1)
        ≡ lookup (job_file p.job.name) (Storage.dir S w))
    (clean_up-dir : (w : Storage.World S)
      → lookup (job_file p.job.name) (Storage.dir S (Engine.clean_up E w))
        ≡ lookup (job_file p.job.name) (Storage.dir S w)) where
  -- The record names this run; a run that returned has the status of the record.
  pub Recorded : Result JobResult × Storage.World S → Type 0
  Recorded (r, w) =
      (status : Status) × (components : List Component) × (lookup (job_file p.job.name)
          (Storage.dir S w)
        ≡ some (run_record (run_record_of S E p status components)))
      × ((result : JobResult)
          → r ≡ ok result
          → (status ≡ result.status) × (components ≡ result.components))

  record_state-file :
      (status : Status) (components : List Component) (w : Storage.World S)
      → lookup (job_file p.job.name) (Storage.dir S (record_state S E p status components w))
        ≡ some (run_record (run_record_of S E p status components))
  unfolding record_state
  record_state-file status components w =
      record_run-file S L (run_record_of S E p status components) w (records _ w)

  alerted-dir :
      (b : Bool) (a : AlertEvent) (w : Storage.World S)
      → lookup (job_file p.job.name) (Storage.dir S (alerted S E b a w).1)
        ≡ lookup (job_file p.job.name) (Storage.dir S w)
  alerted-dir true a w = notify-dir a w
  alerted-dir false a w = refl

  pub abort-file :
      (failure : Exn) (components : List Component) (errors : List Problem) (w : Storage.World S)
      → lookup (job_file p.job.name) (Storage.dir S (abort S E p failure components errors w).1)
        ≡ some (run_record (run_record_of S E p error components))
  unfolding abort
  abort-file failure components errors w =
      clean_up-dir _ ∙ alerted-dir p.has_notifier _ _ ∙ record_state-file error components w

  abort-Recorded :
      (failure : Exn) (components : List Component) (errors : List Problem) (w : Storage.World S)
      → Recorded (abort S E p failure components errors w)
  unfolding abort Recorded
  abort-Recorded failure components errors w =
      (error, components, abort-file failure components errors w, λ result h. cc)

  run_hook-dir :
      (phase : Text) (errors : List Problem) (w : Storage.World S)
      → lookup (job_file p.job.name) (Storage.dir S (run_hook S E p phase errors w).2)
        ≡ lookup (job_file p.job.name) (Storage.dir S w)
  run_hook-dir phase errors w = elim (Bool-cases p.has_hooks) [
    | inl e ↦ rw e (hook-dir phase w)
    | inr e ↦ rw e refl
  ]

  module _ (result : JobResult) where
    HoldsResult : Storage.World S → Type 0
    HoldsResult w =
        lookup (job_file p.job.name) (Storage.dir S w)
        ≡ some (run_record (run_record_of S E p result.status result.components))

    Recorded-of :
        (r : Result JobResult) (w : Storage.World S)
        → HoldsResult w
        → ((other : JobResult) → r ≡ ok other → result ≡ other)
        → Recorded (r, w)
    unfolding Recorded HoldsResult
    Recorded-of r w h same = (
      result.status,
      result.components,
      h,
      λ other e. (
        ap (λ (x : JobResult). x.status) (same other e),
        ap (λ (x : JobResult). x.components) (same other e),
      ),
    )

    after_hook-Recorded :
        (t : Result (Unit {0}) × List Problem × Storage.World S)
        → HoldsResult t.2
        → Recorded (after_hook S E result t)
    after_hook-Recorded (ok done, noted, w) h =
        Recorded-of (ok result) w h (λ other e. ok-injective result other e)
    after_hook-Recorded (raised failure, noted, w) h =
        Recorded-of (raised failure) w h (λ other e. cc)

    after_alert-Recorded :
        (t : Result (Unit {0}) × Storage.World S)
        → HoldsResult t.1
        → Recorded (after_alert S E p result t)
    unfolding HoldsResult
    after_alert-Recorded (raised failure, w) h = Recorded-of (raised failure) w h (λ other e. cc)
    after_alert-Recorded (ok sent, w) h =
        after_hook-Recorded (run_hook S E p (codes "post_backup") [] w)
          (run_hook-dir (codes "post_backup") [] w ∙ h)

  ended-Recorded :
      (components : List Component) (t : Result (Done S) × List Problem × Storage.World S)
      → Recorded (ended S E p components t)
  unfolding finish HoldsResult
  ended-Recorded components (raised failure, errors, w) = abort-Recorded failure components errors w
  ended-Recorded components (ok done, errors, w) =
      let result = result_of S E p done components errors (Engine.clean_up E w) in
      after_alert-Recorded result _ (
        alerted-dir p.has_notifier _ _
        ∙ record_state-file result.status components (Engine.clean_up E w))

  gathered-Recorded :
      (t : Result (List Component) × List Problem × Storage.World S) → Recorded (gathered S E p t)
  gathered-Recorded (ok components, errors, w) =
      ended-Recorded components (store S E p components errors w)
  gathered-Recorded (raised failure, errors, w) = abort-Recorded failure [] errors w

  -- However a run ends whose work dir could be made, by returning or by raising, the data dir's
  -- record of the job is this run's, and when the run returned, it has the status and the failed
  -- components that were returned. Writing a record is assumed to succeed, and the notifier, the
  -- hooks and the clean-up are assumed to leave it alone.
  pub run_job-Recorded :
      (w : Storage.World S) → (Engine.prepare E w).0 ≡ ok tt → Recorded (run_job S E p w)
  unfolding run_job
  run_job-Recorded w h = prepared-Recorded (Engine.prepare E w) h
    where
      prepared-Recorded :
          (t : Result (Unit {0}) × Storage.World S) → t.0 ≡ ok tt → Recorded (prepared S E p t)
      prepared-Recorded (ok done, v) e = gathered-Recorded (gather S E p [] v)
      prepared-Recorded (raised failure, v) e = cc

-- ===== src/Runner/Run/Results/Failed.antt =====
-- The runs that failed, and their records.
use cs_backup_helper.Base.{◌≡◌, refl, sym, ap, ◌∙◌, subst, some, List, []}
use cs_backup_helper.Base.Text.{Text}
use cs_backup_helper.Base.Dict.{lookup}
use cs_backup_helper.Base.Result.{ok, raised, Exn, Result}
use cs_backup_helper.Manifest.{Component, error}
use cs_backup_helper.State.{job_file, record_run}
use cs_backup_helper.Storage.{RunRecord, run_record, Storage, IsLawful}
use cs_backup_helper.Runner.{Problem}
use cs_backup_helper.Runner.Engine.{Engine, AlertEvent}
use cs_backup_helper.Runner.Run.{
  gather, prepared, store, gathered, ended, run_job, JobResult, Params, Done, run_record_of,
}
use cs_backup_helper.Runner.Run.Results.{Recorded, abort-file, run_job-Recorded}

-- The run returned an error, or it raised: at the pre-backup hooks or in a source's name, or on the
-- way from the components to the delivered snapshot.
pub data HasFailed (S : Storage) (E : Engine S) (p : Params) (w : Storage.World S) : Type 0 where
  returned_error :
      (result : JobResult)
      → (run_job S E p w).0 ≡ ok result
      → result.status ≡ error
      → HasFailed S E p w
  gather_raised :
      (failure : Exn)
      → (gather S E p [] (Engine.prepare E w).1).0 ≡ raised failure
      → HasFailed S E p w
  store_raised :
      (components : List Component)
      → (errors : List Problem) → (v : Storage.World S) → (failure : Exn)
      → gather S E p [] (Engine.prepare E w).1 ≡ (ok components, errors, v)
      → (store S E p components errors v).0 ≡ raised failure
      → HasFailed S E p w

module _ (S : Storage) (L : IsLawful S) (E : Engine S) (p : Params)
    (records : (r : RunRecord) (w : Storage.World S) → (record_run S r w).0 ≡ ok tt)
    (notify-dir : (a : AlertEvent) (w : Storage.World S)
      → lookup (job_file p.job.name) (Storage.dir S (Engine.notify E a w).1)
        ≡ lookup (job_file p.job.name) (Storage.dir S w))
    (hook-dir : (phase : Text) (w : Storage.World S)
      → lookup (job_file p.job.name) (Storage.dir S (Engine.hook E phase w).1)
        ≡ lookup (job_file p.job.name) (Storage.dir S w))
    (clean_up-dir : (w : Storage.World S)
      → lookup (job_file p.job.name) (Storage.dir S (Engine.clean_up E w))
        ≡ lookup (job_file p.job.name) (Storage.dir S w)) where
  -- The record of this run says that it ended in an error.
  abbrev pub RecordedError : Storage.World S → Type 0
  RecordedError w =
      (components : List Component) × (lookup (job_file p.job.name) (Storage.dir S w)
        ≡ some (run_record (run_record_of S E p error components)))

  ended-RecordedError :
      (components : List Component) (t : Result (Done S) × List Problem × Storage.World S)
      (failure : Exn)
      → t.0 ≡ raised failure
      → RecordedError (ended S E p components t).1
  ended-RecordedError components (ok done, errors, v) failure e = cc
  ended-RecordedError components (raised x, errors, v) failure e = (
    components,
    abort-file S L E p records notify-dir hook-dir clean_up-dir x components errors v,
  )

  gathered-RecordedError :
      (t : Result (List Component) × List Problem × Storage.World S) (failure : Exn)
      → t.0 ≡ raised failure
      → RecordedError (gathered S E p t).1
  gathered-RecordedError (ok components, errors, v) failure e = cc
  gathered-RecordedError (raised x, errors, v) failure e =
      ([], abort-file S L E p records notify-dir hook-dir clean_up-dir x [] errors v)

  after_prepare :
      (w : Storage.World S)
      → (Engine.prepare E w).0 ≡ ok tt
      → run_job S E p w ≡ gathered S E p (gather S E p [] (Engine.prepare E w).1)
  unfolding run_job
  after_prepare w h = prepared-gathered (Engine.prepare E w) h
    where
      prepared-gathered :
          (t : Result (Unit {0}) × Storage.World S)
          → t.0 ≡ ok tt
          → prepared S E p t ≡ gathered S E p (gather S E p [] t.1)
      prepared-gathered (ok done, v) e = refl
      prepared-gathered (raised x, v) e = cc

  returned-RecordedError :
      (t : Result JobResult × Storage.World S) (result : JobResult)
      → Recorded S L E p records notify-dir hook-dir clean_up-dir t
      → t.0 ≡ ok result
      → result.status ≡ error
      → RecordedError t.1
  unfolding Recorded
  returned-RecordedError (r, v) result (status, components, there, same) e h = (
    components,
    subst
        (λ s.
          lookup (job_file p.job.name) (Storage.dir S v)
          ≡ some (run_record (run_record_of S E p s components)))
        ((same result e).0 ∙ h) there,
  )

  pub run_job-RecordedError :
      (w : Storage.World S)
      → (Engine.prepare E w).0 ≡ ok tt
      → HasFailed S E p w
      → RecordedError (run_job S E p w).1
  run_job-RecordedError w h (returned_error result e failed) =
      returned-RecordedError (run_job S E p w) result
        (run_job-Recorded S L E p records notify-dir hook-dir clean_up-dir w h) e failed
  run_job-RecordedError w h (gather_raised failure e) =
      subst (λ t. RecordedError t.1) (sym (after_prepare w h))
        (gathered-RecordedError (gather S E p [] (Engine.prepare E w).1) failure e)
  run_job-RecordedError w h (store_raised components errors v failure e g) =
      subst (λ t. RecordedError t.1) (sym (after_prepare w h ∙ ap (gathered S E p) e))
        (ended-RecordedError components (store S E p components errors v) failure g)

-- ===== src/Healthcheck/Alarm.antt =====
-- What the check makes of a recorded run.
use mathlib.Core.Option
use cs_backup_helper.Base.{
  ℕ, ◌≡◌, sym, subst, inl, inr, Bool, true, false, Option, some, List, [], ◌∷◌, keep_if, All-In, In,
  arith, refl, ◌≢◌, ◌⊎◌, ◌<◌, Bool-cases, All, none,
}
use cs_backup_helper.Base.Text.{Text, eq_iff}
use cs_backup_helper.Base.Dict.{Dict, lookup, keys}
use cs_backup_helper.Base.Members.{In-append, In-keep_if, In-map}
use cs_backup_helper.Config.{Job}
use cs_backup_helper.Snapshots.{scope_for}
use cs_backup_helper.Storage.{RunRecord, File, run_record, Storage, IsLawful}
use cs_backup_helper.State.{job_file, read_runs, record_run, read_daemon_start}
use cs_backup_helper.State.Found.{In-read_runs}
use cs_backup_helper.Clock.{DateTime, instant}
use cs_backup_helper.Base.Result.{ok}
use cs_backup_helper.Manifest.{error}
use cs_backup_helper.Runner.Engine.{Engine, AlertEvent}
use cs_backup_helper.Runner.Run.{Params, run_job, run_record_of}
use cs_backup_helper.Runner.Run.Results.Failed.{HasFailed, run_job-RecordedError}
use cs_backup_helper.Runner.Offsite.{pending_owners}
use cs_backup_helper.Healthcheck.{
  CheckedDir, AccessProblem, Health, unless_denied, access_problem, Run, is_healthy, manifest_runs,
  run_of_record, record_runs, is_later, judge, max_age_of, is_own, judge_jobs, known_runs, check,
}
use cs_backup_helper.Healthcheck.Verdicts.{IsFresh, judge_exact, judge_jobs_exact}

-- The runs that the verdict on a job rests on: with one job or none, all.
abbrev pub counted : List Job → List (Text × Text) → Job → List Run → List Run
counted (a ∷ b ∷ jobs) marked job runs = keep_if (is_own (scope_for (a ∷ b ∷ jobs) job) marked) runs
counted _ marked job runs = runs

judge_jobs-counted :
    (jobs : List Job) (runs : List Run) (marked : List (Text × Text)) (default now : ℕ)
    (started : Option ℕ) (job : Job)
    → In job jobs
    → is_healthy (judge_jobs jobs runs marked default now started) ≡ true
    → (judge (counted jobs marked job runs) (max_age_of job default) now started).healthy ≡ true
unfolding judge_jobs
judge_jobs-counted [] runs marked default now started job m h = elim m [ ]
judge_jobs-counted (only ∷ []) runs marked default now started job (inl e) h =
    subst (λ j. (judge runs (max_age_of j default) now started).healthy ≡ true) (sym e) h
judge_jobs-counted (only ∷ []) runs marked default now started job (inr m) h = elim m [ ]
judge_jobs-counted (a ∷ b ∷ jobs) runs marked default now started job m h =
    All-In _ (a ∷ b ∷ jobs) job ((judge_jobs_exact a b jobs runs marked default now started).0 h) m

-- A run that no more than ties with the given one did not fail and is young enough.
abbrev pub IsMadeGood : ℕ → ℕ → List Run → Run → Type 0
IsMadeGood max_age now runs run =
    (last : Run) × In last runs × (is_later last run ≡ false) × IsFresh max_age now last

judge-IsMadeGood :
    (runs : List Run) (max_age now : ℕ) (started : Option ℕ) (run : Run)
    → In run runs
    → (judge runs max_age now started).healthy ≡ true
    → IsMadeGood max_age now runs run
judge-IsMadeGood [] max_age now started run m h = elim m [ ]
judge-IsMadeGood (r ∷ runs) max_age now started run m h =
    let (last, (i, none_later), fresh) = (judge_exact r runs max_age now started).0 h in
    (last, i, All-In (λ other. is_later last other ≡ false) (r ∷ runs) run none_later m, fresh)

In-counted :
    (jobs : List Job) (marked : List (Text × Text)) (job : Job) (r : RunRecord) (runs : List Run)
    → job.name ≡ r.job
    → In (run_of_record r) runs
    → In (run_of_record r) (counted jobs marked job runs)
unfolding is_own run_of_record scope_for
In-counted [] marked job r runs e m = m
In-counted (only ∷ []) marked job r runs e m = m
In-counted (a ∷ b ∷ jobs) marked job r runs e m =
    In-keep_if _ runs (run_of_record r) m ((eq_iff r.job job.name).1 (sym e))

unless_denied-is_healthy :
    (problem : Option AccessProblem) (health : Health)
    → is_healthy (unless_denied problem health) ≡ true
    → is_healthy health ≡ true
unless_denied-is_healthy (some problem) health h = absurd (ground arith)
unless_denied-is_healthy none health h = h

module _ (parse_timestamp : Text → Option ℕ) (dir : Dict File) (default now : ℕ)
    (jobs : List Job) where
  In-known_runs :
      (r : RunRecord)
      → lookup (job_file r.job) dir ≡ some (run_record r)
      → In (run_of_record r) (known_runs parse_timestamp dir)
  unfolding known_runs record_runs
  In-known_runs r e =
      In-append (manifest_runs parse_timestamp dir (keys dir)) (record_runs dir) (run_of_record r)
        (inr (In-map run_of_record (read_runs dir) r (In-read_runs dir r e)))

  check-IsMadeGood :
      (is_dir can_write : CheckedDir → Bool) (job : Job) (r : RunRecord)
      → In job jobs
      → job.name ≡ r.job
      → lookup (job_file r.job) dir ≡ some (run_record r)
      → is_healthy (check parse_timestamp dir is_dir can_write default now jobs) ≡ true
      → IsMadeGood
          (max_age_of job default)
          now
          (counted jobs (pending_owners dir) job (known_runs parse_timestamp dir))
          (run_of_record r)
  unfolding check
  check-IsMadeGood is_dir can_write job r m e there h =
      let runs = known_runs parse_timestamp dir in
      let marked = pending_owners dir in
      judge-IsMadeGood (counted jobs marked job runs) (max_age_of job default) now
        (Option.map instant (read_daemon_start dir)) (run_of_record r)
        (In-counted jobs marked job r runs e (In-known_runs r there))
        (judge_jobs-counted jobs runs marked default now
          (Option.map instant (read_daemon_start dir)) job m
          (unless_denied-is_healthy (access_problem is_dir can_write) _ h))

-- Earlier than a run that started then, or failed.
abbrev pub HidesNothing : DateTime → Run → Type 0
HidesNothing started other =
    (other.at < instant started)
    ⊎ ((other.at ≡ instant started) × (other.rank < 1))
    ⊎ (other.failure ≢ none)

hidden_by_none :
    (r : RunRecord) (last : Run)
    → is_later last (run_of_record r) ≡ false
    → last.failure ≡ none
    → ¬ HidesNothing r.started_at last
unfolding is_later run_of_record
hidden_by_none r last h e (inl earlier) = absurd (ground arith)
hidden_by_none r last h e (inr (inl (same, rank))) = absurd (ground arith)
hidden_by_none r last h e (inr (inr failed)) = failed e

module _ (S : Storage) (L : IsLawful S) (E : Engine S) (p : Params)
    (records : (r : RunRecord) (w : Storage.World S) → (record_run S r w).0 ≡ ok tt)
    (notify-dir : (a : AlertEvent) (w : Storage.World S)
      → lookup (job_file p.job.name) (Storage.dir S (Engine.notify E a w).1)
        ≡ lookup (job_file p.job.name) (Storage.dir S w))
    (hook-dir : (phase : Text) (w : Storage.World S)
      → lookup (job_file p.job.name) (Storage.dir S (Engine.hook E phase w).1)
        ≡ lookup (job_file p.job.name) (Storage.dir S w))
    (clean_up-dir : (w : Storage.World S)
      → lookup (job_file p.job.name) (Storage.dir S (Engine.clean_up E w))
        ≡ lookup (job_file p.job.name) (Storage.dir S w)) where
  -- Once a run of a configured job has failed, by returning an error or by raising before its
  -- snapshot was delivered, the check is unhealthy, whatever its limits: unless, of the runs that
  -- the data dir then tells of and that count for the job, there is one that did not fail and is
  -- no earlier than this one. Writing a record is assumed to succeed, and the notifier, the hooks
  -- and the clean-up are assumed to leave it alone.
  pub failed_run_alarms :
      (w : Storage.World S) (parse_timestamp : Text → Option ℕ)
      (is_dir can_write : CheckedDir → Bool) (default now : ℕ) (jobs : List Job)
      → (Engine.prepare E w).0 ≡ ok tt
      → HasFailed S E p w
      → In p.job jobs
      → (let dir = Storage.dir S (run_job S E p w).1 in
          All
            (HidesNothing p.now)
            (counted jobs (pending_owners dir) p.job (known_runs parse_timestamp dir)))
      → is_healthy (
          check parse_timestamp
            (Storage.dir S (run_job S E p w).1)
            is_dir
            can_write
            default
            now
            jobs)
        ≡ false
  failed_run_alarms w parse_timestamp is_dir can_write default now jobs prepared failed m harmless =
      let dir = Storage.dir S (run_job S E p w).1 in
      let (components, there) =
        run_job-RecordedError S L E p records notify-dir hook-dir clean_up-dir w prepared failed in
      let r = run_record_of S E p error components in
      elim (Bool-cases (is_healthy (check parse_timestamp dir is_dir can_write default now jobs))) [
        | inl healthy ↦
            let (last, i, later, fresh) =
              check-IsMadeGood parse_timestamp dir default now jobs is_dir can_write p.job r m refl
                there healthy in
            absurd
              (hidden_by_none r last later fresh.0 (All-In (HidesNothing p.now) _ last harmless i))
        | inr unhealthy ↦ unhealthy
      ]

-- ===== src/Healthcheck/Tests.antt =====
-- Verdicts on a few runs.
use cs_backup_helper.Healthcheck.Separate.{IsFine, MustBeFine, judge_jobs-IsFine}
use cs_backup_helper.Snapshots.Ownership.{SlugsDiffer}
use cs_backup_helper.Base.{
  sym, subst, ◌∙◌, In, inr, inl, ℕ, ◌<◌, arith, ◌+◌, ◌≤◌, ◌≡◌, refl, ◌↔◌, Bool, true, false, Option,
  none, some, List, [], ◌∷◌, keep_if, All,
}
use cs_backup_helper.Base.Text.{Text, codes, starts_with, strip_suffix, text_eq, text_lt}
use cs_backup_helper.Config.{Job}
use cs_backup_helper.Snapshots.{job_slug, scope_for, owns}
use cs_backup_helper.Runner.Samples.{job, noon, pending, engine, params}
use cs_backup_helper.Base.Result.{raised, runtime_error}
use cs_backup_helper.Storage.Memory.{Memory, memory, memory-IsLawful}
use cs_backup_helper.State.{record_run, read_runs}
use cs_backup_helper.Runner.Offsite.{pending_owners}
use cs_backup_helper.Runner.Engine.{Engine}
use cs_backup_helper.Runner.Run.{run_job}
use cs_backup_helper.Runner.Run.Results.Failed.{gather_raised}
use cs_backup_helper.Clock.{instant}
use cs_backup_helper.Base.Dict.{keys, lookup, insert}
use cs_backup_helper.Base.Sort.{sort_asc}
use cs_backup_helper.Runner.Prune.{owner_of}
use cs_backup_helper.Manifest.{build_manifest}
use cs_backup_helper.Healthcheck.{
  CheckedDir, data_dir, state_dir, denied, access_problem, known_runs, check, Run, Failure,
  ended_in_error, is_healthy, judge, is_own, judge_jobs,
}
use cs_backup_helper.Healthcheck.Alarm.{counted, failed_run_alarms}
use cs_backup_helper.Healthcheck.Verdicts.{IsLatest, IsFresh, judge_exact}

abbrev run_at : ℕ → Option Failure → Text → Run
run_at at failure job = record { at = at; rank = 1; failure = failure; job = some job; sid = [] }

abbrev good : Run
good = run_at 20 none (codes "j")

abbrev bad : Run
bad = run_at 10 (some ended_in_error) (codes "k")

abbrev other_job : Job
other_job = record {
  name = codes "k";
  sources = [];
  destinations = [];
  keep_local = true;
  healthcheck_max_age = some 5;
  retention = job.retention;
  encryption = job.encryption;
}

-- The good run of one job does not hide the failure of the other.
two_jobs : is_healthy (judge_jobs (job ∷ other_job ∷ []) (bad ∷ good ∷ []) [] 15 30 none) ≡ false
unfolding judge_jobs judge cs_backup_helper.Base.Text.text_eq scope_for
two_jobs = refl

judge_exact_example :
    ((judge (bad ∷ good ∷ []) 15 30 none).healthy ≡ true
      → (last : Run) × IsLatest (bad ∷ good ∷ []) last × IsFresh 15 30 last)
    × (((last : Run) → IsLatest (bad ∷ good ∷ []) last → IsFresh 15 30 last)
        → (judge (bad ∷ good ∷ []) 15 30 none).healthy ≡ true)
    × ((judge [] 15 30 none).healthy ≡ true
        ↔ ((start : ℕ) × (none ≡ some start) × (30 ≤ start + 15)))
judge_exact_example = judge_exact bad (good ∷ []) 15 30 none

-- Both jobs ran well and not long ago.
abbrev fine_runs : List Run
fine_runs = run_at 28 none (codes "k") ∷ good ∷ []

fine : is_healthy (judge_jobs (job ∷ other_job ∷ []) fine_runs [] 15 30 none) ≡ true
unfolding judge_jobs judge cs_backup_helper.Base.Text.text_eq scope_for
fine = refl

own_slug : (x : Job) → In x (job ∷ other_job ∷ []) → job_slug x.name ≡ x.name
unfolding job_slug
own_slug x (inl e) = subst (λ (y : Job). job_slug y.name ≡ y.name) (sym e) refl
own_slug x (inr (inl e)) = subst (λ (y : Job). job_slug y.name ≡ y.name) (sym e) refl
own_slug x (inr (inr impossible)) = elim impossible [ ]

names_differ :
    (x y : Job)
    → In x (job ∷ other_job ∷ [])
    → In y (job ∷ other_job ∷ [])
    → SlugsDiffer x.name y.name
names_differ x y m n e = sym (own_slug x m) ∙ e ∙ own_slug y n

judge_jobs-IsFine_example :
    (is_healthy (judge_jobs (job ∷ other_job ∷ []) fine_runs [] 15 30 none) ≡ true
      → All (IsFine job other_job [] fine_runs [] 15 30 none) (job ∷ other_job ∷ []))
    × (All (MustBeFine job other_job [] fine_runs [] 15 30 none) (job ∷ other_job ∷ [])
        → is_healthy (judge_jobs (job ∷ other_job ∷ []) fine_runs [] 15 30 none) ≡ true)
judge_jobs-IsFine_example = judge_jobs-IsFine job other_job [] fine_runs [] 15 30 none names_differ

-- The pre-backup hooks fail, so that the run raises.
abbrev unhooked : Engine memory
unhooked = record engine { hook = λ phase w. (raised runtime_error, w) }

abbrev after_failed : Memory
after_failed = (run_job memory unhooked params pending).1

abbrev five : Text → Option ℕ
five t = some 5

abbrev yes : CheckedDir → Bool
yes place = true

-- A state dir that is there and cannot be written is found, one that is not there is no problem.
state_dir_denied :
    (access_problem yes (λ place. elim place [ data_dir ↦ true | state_dir ↦ false ])
      ≡ some (denied state_dir))
    × (access_problem
          (λ place. elim place [ data_dir ↦ true | state_dir ↦ false ])
          (λ place. elim place [ data_dir ↦ true | state_dir ↦ false ])
        ≡ none)
unfolding access_problem
state_dir_denied = (refl, refl)

abbrev seen : List Run
seen =
    counted (job ∷ other_job ∷ []) (pending_owners after_failed.files) job
      (known_runs five after_failed.files)

seen_runs :
    seen
    ≡ record { at = 5; rank = 0; failure = none; job = none; sid = codes "s" }
      ∷ run_at (instant noon) (some ended_in_error) (codes "j")
      ∷ []
unfolding run_job known_runs pending_owners is_own scope_for keys lookup insert sort_asc starts_with
    strip_suffix text_eq text_lt owns owner_of build_manifest record_run read_runs
    cs_backup_helper.Snapshots.parse_snapshot_id cs_backup_helper.Clock.Format.strptime
    cs_backup_helper.Clock.Format.field
seen_runs = refl

five-before_noon : 5 < instant noon
unfolding instant
five-before_noon = omega arith

failed_run_alarms_example :
    is_healthy (check five after_failed.files yes yes 1 1 (job ∷ other_job ∷ [])) ≡ false
unfolding record_run
failed_run_alarms_example =
    failed_run_alarms memory memory-IsLawful unhooked params (λ r w. refl) (λ a w. refl)
      (λ phase w. refl) (λ w. refl) pending five yes yes 1 1 (job ∷ other_job ∷ []) refl
      (gather_raised runtime_error refl) (inl refl)
      (rw seen_runs (inl five-before_noon, (inr (inr λ e. cc), tt)))

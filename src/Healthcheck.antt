-- ===== src/Healthcheck.antt =====
-- healthcheck.py: whether the backups of the data dir work, from run records and manifests.
-- Times and spans are microseconds; a verdict's text is not modelled, only which one it is.
pub mod Runs
unfoldable pub use Runs.*
pub mod Verdicts
pub mod Separate
pub mod Alarm
pub mod Tests
use mathlib.Core.Option
use cs_backup_helper.Base.{
  ℕ, ◌+◌, Bool, true, false, not, ◌&&◌, ◌||◌, Option, none, some, List, [], ◌∷◌, ◌++◌, map, any,
  ltb, ◌==◌, is_empty, keep_if, if◌then◌else◌,
}
use cs_backup_helper.Base.Text.{Text, text_eq, strip_suffix}
use cs_backup_helper.Base.Dict.{Dict, lookup, keys}
use cs_backup_helper.Clock.{instant}
use cs_backup_helper.Config.{Job}
use cs_backup_helper.Manifest.{Component, Status, error, success, warning, has_error, Manifest}
use cs_backup_helper.State.{read_runs, read_daemon_start}
use cs_backup_helper.Snapshots.{SnapshotScope, scope_for, owns, local_place}
use cs_backup_helper.Storage.{RunRecord, File, bytes, manifest, marker, run_record}
use cs_backup_helper.Runner.{manifest_suffix}
use cs_backup_helper.Runner.Offsite.{is_nested, pending_owners}
use cs_backup_helper.Runner.Prune.{owner_of}

pub data Reason : Type 0 where
  no_start in_grace grace_over stale fresh : Reason
  last_failed : Failure → Reason

-- The data dir, and the dir of the records in it.
pub data CheckedDir : Type 0 where
  data_dir state_dir : CheckedDir

pub data AccessProblem : Type 0 where
  missing : AccessProblem
  denied : CheckedDir → AccessProblem

-- The verdict on one set of runs, and the verdict of the check, on the data dir, on all runs or on
-- the runs of each job.
pub record Verdict : Type 0 where
  pub healthy : Bool
  pub reason : Reason

pub data Health : Type 0 where
  not_writable : AccessProblem → Health
  single : Verdict → Health
  per_job : Bool → List (Text × Verdict) → Health

abbrev pub is_healthy : Health → Bool
is_healthy (not_writable problem) = false
is_healthy (single verdict) = verdict.healthy
is_healthy (per_job healthy verdicts) = healthy

-- Whether `b` comes after `a` by `(at, rank)`.
unfoldable pub is_later : Run → Run → Bool
is_later a b = ltb a.at b.at || (a.at == b.at && ltb a.rank b.rank)

-- `max(runs, key=...)` of a first run and more: the first of the greatest.
unfoldable pub latest : Run → List Run → Run
unfolding is_later
latest best [] = best
latest best (r ∷ runs) = latest (if is_later best r then r else best) runs

unfoldable pub judge_latest : Run → ℕ → ℕ → Verdict
judge_latest r max_age now = elim r.failure [
  | some failure ↦ record { healthy = false; reason = last_failed failure }
  | none ↦
      if ltb (r.at + max_age) now
      then record { healthy = false; reason = stale }
      else record { healthy = true; reason = fresh }
]

unfoldable pub judge : List Run → ℕ → ℕ → Option ℕ → Verdict
unfolding latest judge_latest
judge [] max_age now none = record { healthy = false; reason = no_start }
judge [] max_age now (some started) =
    if ltb (started + max_age) now
    then record { healthy = false; reason = grace_over }
    else record { healthy = true; reason = in_grace }
judge (r ∷ runs) max_age now started = judge_latest (latest r runs) max_age now

-- `_max_age`
abbrev pub max_age_of : Job → ℕ → ℕ
max_age_of job default = elim job.healthcheck_max_age [ none ↦ default | some hours ↦ hours ]

-- A run of the job itself.
unfoldable pub is_own : SnapshotScope → List (Text × Text) → Run → Bool
is_own scope marked r = elim r.job [
  | some job ↦ text_eq job scope.job
  | none ↦ owns scope r.sid local_place (owner_of r.sid marked)
]

unfoldable pub job_verdict :
    List Job → List Run → List (Text × Text) → ℕ → ℕ → Option ℕ → Job → Text × Verdict
unfolding is_own
job_verdict jobs runs marked default now started job = (
  job.name,
  judge (keep_if (is_own (scope_for jobs job) marked) runs) (max_age_of job default) now started,
)

-- The failing verdicts, or all of them if none fails.
unfoldable pub combine : List (Text × Verdict) → Health
combine verdicts =
    let failing = keep_if (λ (name, verdict). not verdict.healthy) verdicts in
    per_job (is_empty failing) (if is_empty failing then verdicts else failing)

unfoldable pub judge_jobs : List Job → List Run → List (Text × Text) → ℕ → ℕ → Option ℕ → Health
unfolding job_verdict combine
judge_jobs [] runs marked default now started = single (judge runs default now started)
judge_jobs (job ∷ []) runs marked default now started =
    single (judge runs (max_age_of job default) now started)
judge_jobs (a ∷ b ∷ jobs) runs marked default now started =
    combine (map (job_verdict (a ∷ b ∷ jobs) runs marked default now started) (a ∷ b ∷ jobs))

module _ (is_dir can_write : CheckedDir → Bool) where
  unfoldable pub first_denied : List CheckedDir → Option AccessProblem
  first_denied [] = none
  first_denied (place ∷ places) =
      let rest = first_denied places in
      if is_dir place && not (can_write place) then some (denied place) else rest

  -- `_not_writable`, by what the file system answers.
  unfoldable pub access_problem : Option AccessProblem
  unfolding first_denied
  access_problem =
      if not (is_dir data_dir) then some missing else first_denied (data_dir ∷ state_dir ∷ [])

abbrev pub unless_denied : Option AccessProblem → Health → Health
unless_denied (some problem) health = not_writable problem
unless_denied none health = health

-- `check`
unfoldable pub check :
    (Text → Option ℕ)
    → Dict File
    → (CheckedDir → Bool)
    → (CheckedDir → Bool)
    → ℕ
    → ℕ
    → List Job
    → Health
unfolding judge_jobs known_runs access_problem
check parse_timestamp dir is_dir can_write default now jobs =
    let started = Option.map instant (read_daemon_start dir) in
    unless_denied (access_problem is_dir can_write)
      (judge_jobs jobs (known_runs parse_timestamp dir) (pending_owners dir) default now started)

-- ===== src/Cli/Prune.antt =====
-- cli.py: `prune`, and `create`, which runs every job once.
pub mod Kept
use cs_backup_helper.Base.{
  ℕ, Bool, true, false, not, ◌&&◌, Option, none, some, List, [], ◌∷◌, any, keep_if, if◌then◌else◌,
}
use cs_backup_helper.Base.Int.{ℤ}
use cs_backup_helper.Base.Words.{distinct}
use cs_backup_helper.Base.Text.{Text, text_eq, starts_with}
use cs_backup_helper.Base.Dict.{Dict, keys}
use cs_backup_helper.Base.Sort.{sort_asc}
use cs_backup_helper.Base.Result.{Result, ok, raised}
use cs_backup_helper.Clock.{DateTime}
use cs_backup_helper.Config.{Job}
use cs_backup_helper.Manifest.{Status, error}
use cs_backup_helper.Healthcheck.{is_error}
use cs_backup_helper.Retention.Manager.{RetentionConfig, select_prunable}
use cs_backup_helper.Snapshots.{scope_for, owns, local_place}
use cs_backup_helper.Storage.{File, Storage}
use cs_backup_helper.Runner.Act.{Act, done_at, returning, continue_with, ◌>>=◌, ◌>>◌}
use cs_backup_helper.Runner.Deliver.{data_dir, W}
use cs_backup_helper.Runner.Offsite.{is_nested, pending_owners}
use cs_backup_helper.Runner.Prune.{owner_of, own_snapshots, dotted, delete_keys}

abbrev pub targets : List Job → Option Text → List Job
targets jobs none = jobs
targets jobs (some name) = keep_if (λ job. text_eq job.name name) jobs

-- `--keep` stands in for the job's own count.
abbrev pub kept_by : Option ℤ → RetentionConfig → RetentionConfig
kept_by none retention = retention
kept_by (some keep) retention = record retention { count = keep }

unfoldable pub is_own_of : List Job → Job → List (Text × Text) → Text → Bool
is_own_of jobs target marked sid =
    owns (scope_for jobs target) sid local_place (owner_of sid marked)

module _ (S : Storage) where
  -- `dd.glob(f"{sid}.*")`, each of them unlinked.
  unfoldable pub delete_local : Text → Act (W S) (Unit {0})
  delete_local sid errors w =
      delete_keys S data_dir
        (keep_if (λ key. starts_with (dotted sid) key && not (is_nested key))
          (keys (Storage.dir S w)))
        errors w

  unfoldable pub delete_all : List Text → Act (W S) (Unit {0})
  unfolding delete_local
  delete_all [] = done_at tt
  delete_all (sid ∷ sids) = delete_local sid >> delete_all sids

  -- One job after the other; the names and the markers are those of the start.
  unfoldable pub prune_jobs :
      List Job
      → Option ℤ
      → DateTime
      → List Text
      → List (Text × Text)
      → Bool
      → List Job
      → Act (W S) (Unit {0})
  unfolding is_own_of delete_all
  prune_jobs jobs keep now names marked dry_run [] = done_at tt
  prune_jobs jobs keep now names marked dry_run (target ∷ others) =
      (returning (
          select_prunable (own_snapshots now (is_own_of jobs target marked) names)
            (kept_by keep target.retention) now)
        >>= λ pruned.
            if dry_run then done_at tt else delete_all (sort_asc (λ sid. sid) (distinct pruned)))
      >> prune_jobs jobs keep now names marked dry_run others

  unfoldable pub prune : List Job → Option Text → Option ℤ → DateTime → Bool → Act (W S) (Unit {0})
  unfolding prune_jobs
  prune jobs name keep now dry_run errors w =
      let dir = Storage.dir S w in
      prune_jobs jobs keep now (keys dir) (pending_owners dir) dry_run (targets jobs name) errors w

-- `run_all_now`: a run that raises ends it.
module _ {W : Type 0} (run : Job → W → Result Status × W) where
  abbrev pub and_then : Result Status × W → (W → Result Bool × W) → Result Bool × W
  and_then (raised e, w) rest = (raised e, w)
  and_then (ok status, w) rest =
      let (r, w') = rest w in
      (elim r [ ok fine ↦ ok (not (is_error status) && fine) | raised e ↦ raised e ], w')

  unfoldable pub all_fine : List Job → W → Result Bool × W
  all_fine [] w = (ok true, w)
  all_fine (job ∷ jobs) w = and_then (run job w) (all_fine jobs)

-- ===== src/Cli.antt =====
-- cli.py: which job a command is about, and the check of a stored snapshot.
pub mod Picks
pub mod Prune
pub mod Listing
pub mod Verify
pub mod Tests
use cs_backup_helper.Base.{
  Bool, true, false, not, ◌&&◌, Option, none, some, List, [], ◌∷◌, is_empty, if◌then◌else◌,
}
use cs_backup_helper.Base.Text.{Text, text_eq}
use cs_backup_helper.Config.{Job}
use cs_backup_helper.Snapshots.{parse_snapshot_id, job_slug}

-- `next((j for j in jobs if ...), None)`
unfoldable pub first_job : (Job → Bool) → List Job → Option Job
first_job p [] = none
first_job p (job ∷ jobs) = if p job then some job else first_job p jobs

unfoldable pub owner_by_slug : List Job → Option Text → Option Job
unfolding first_job
owner_by_slug jobs none = none
owner_by_slug jobs (some slug) = first_job (λ job. text_eq (job_slug job.name) slug) jobs

abbrev pub or_first : Job → Option Job → Option Job
or_first job none = some job
or_first job (some owner) = some owner

-- The job of `--job`; without it the job that the id names, else the first. No id is the empty one.
unfoldable pub pick_job : List Job → Option Text → Text → Option Job
unfolding owner_by_slug
pick_job [] name sid = none
pick_job (job ∷ jobs) (some name) sid = first_job (λ other. text_eq other.name name) (job ∷ jobs)
pick_job (job ∷ jobs) none sid = or_first job (owner_by_slug (job ∷ jobs) (parse_snapshot_id sid).1)

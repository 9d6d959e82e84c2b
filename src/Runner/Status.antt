-- ===== src/Runner/Status.antt =====
-- `job_status` and `_outcome`: how a run ended, and the alert's message for it.
use cs_backup_helper.Base.{Bool, not, ◌||◌, List, any, is_empty, if◌then◌else◌}
use cs_backup_helper.Manifest.{Component, Status, success, warning, error, has_error}
use cs_backup_helper.Runner.{Problem}

unfoldable pub job_status : List Component → List Problem → Bool → Status
job_status components errors stored =
    if not stored || any has_error components
    then error
    else if is_empty errors
    then success
    else warning

pub data Outcome : Type 0 where
  not_stored incomplete completed_with_warnings completed : Outcome

unfoldable pub outcome : Status → List Component → Bool → Outcome
outcome status components stored =
    if not stored
    then not_stored
    else if any has_error components
    then incomplete
    else elim status [ warning ↦ completed_with_warnings | _ ↦ completed ]

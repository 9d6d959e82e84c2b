-- ===== src/Healthcheck/Runs.antt =====
-- healthcheck.py: the runs that the data dir tells of.
use cs_backup_helper.Base.{
  ℕ, Bool, true, false, not, Option, none, some, List, [], ◌∷◌, ◌++◌, map, any, is_empty, keep_if,
  if◌then◌else◌,
}
use cs_backup_helper.Base.Text.{Text, strip_suffix}
use cs_backup_helper.Base.Dict.{Dict, lookup, keys}
use cs_backup_helper.Clock.{instant}
use cs_backup_helper.Manifest.{Component, Status, error, has_error, Manifest}
use cs_backup_helper.State.{read_runs}
use cs_backup_helper.Storage.{RunRecord, File, manifest}
use cs_backup_helper.Runner.{manifest_suffix}
use cs_backup_helper.Runner.Offsite.{is_nested}

-- Why a run counts as failed.
pub data Failure : Type 0 where
  failed_components : List Text → Failure
  status_error : Failure
  ended_in_error : Failure

-- `_Run`, whose `rank` is 1 for a run record and 0 for a manifest. A missing `sid` is empty.
pub record Run : Type 0 where
  pub at : ℕ
  pub rank : ℕ
  pub failure : Option Failure
  pub job : Option Text
  pub sid : Text

abbrev pub is_error : Status → Bool
is_error error = true
is_error _ = false

abbrev pub names : List Component → List Text
names components = map (λ (c : Component). c.name) (keep_if has_error components)

unfoldable pub manifest_failure : Manifest → Option Failure
manifest_failure m =
    if any has_error m.components
    then some (failed_components (names m.components))
    else if is_error m.status
    then some status_error
    else none

unfoldable pub record_failure : RunRecord → Option Failure
record_failure r =
    if not (is_error r.status)
    then none
    else if is_empty r.failed_components
    then some ended_in_error
    else some (failed_components r.failed_components)

module _ (parse_timestamp : Text → Option ℕ) where
  -- A file that is no manifest, or whose time does not parse, is skipped.
  unfoldable pub dated : Text → Manifest → Option ℕ → List Run
  unfolding manifest_failure
  dated sid m none = []
  dated sid m (some at) =
      record { at = at; rank = 0; failure = manifest_failure m; job = none; sid = sid } ∷ []

  unfoldable pub manifest_run : Option Text → Option File → List Run
  unfolding dated
  manifest_run (some sid) (some (manifest m)) = dated sid m (parse_timestamp m.created_at)
  manifest_run _ _ = []

  unfoldable pub manifest_runs : Dict File → List Text → List Run
  unfolding manifest_run
  manifest_runs dir [] = []
  manifest_runs dir (key ∷ ks) =
      manifest_run (if is_nested key then none else strip_suffix manifest_suffix key)
        (lookup key dir)
      ++ manifest_runs dir ks

unfoldable pub run_of_record : RunRecord → Run
unfolding record_failure
run_of_record r = record {
  at = instant r.started_at;
  rank = 1;
  failure = record_failure r;
  job = some r.job;
  sid = [];
}

unfoldable pub record_runs : Dict File → List Run
unfolding run_of_record
record_runs dir = map run_of_record (read_runs dir)

-- The runs that the data dir tells of.
unfoldable pub known_runs : (Text → Option ℕ) → Dict File → List Run
unfolding manifest_runs record_runs
known_runs parse_timestamp dir = manifest_runs parse_timestamp dir (keys dir) ++ record_runs dir

-- ===== src/State.antt =====
-- state.py: the records that the runs and the daemon leave in the data dir.
pub mod Records
pub mod Found
pub mod Apart
pub mod Tests
use cs_backup_helper.Base.{
  ℕ, Bool, not, ◌||◌, ◌&&◌, Option, none, some, List, [], ◌∷◌, ◌++◌, map, any, keep_if, drop, leb,
  ◌==◌, is_empty, is_some, if◌then◌else◌,
}
use cs_backup_helper.Base.Text.{Text, codes, starts_with, strip_suffix}
use cs_backup_helper.Base.Dict.{Dict, lookup, keys}
use cs_backup_helper.Base.Sort.{sort_asc}
use cs_backup_helper.Base.Result.{Result}
use cs_backup_helper.Clock.{DateTime}
use cs_backup_helper.Storage.{RunRecord, File, run_record, daemon_start, Storage}

-- `[A-Za-z0-9._-]`
unfoldable pub in_file_name : ℕ → Bool
in_file_name c =
    (leb b'A' c && leb c b'Z')
    || (leb b'a' c && leb c b'z')
    || (leb b'0' c && leb c b'9')
    || c == b'.'
    || c == b'_'
    || c == b'-'

abbrev underscored : ℕ → ℕ
underscored c = if in_file_name c then c else b'_'

-- The path of a job's record in the data dir.
unfoldable pub job_file : Text → Text
unfolding in_file_name
job_file job =
    let safe = map underscored job in
    codes ".state/job-" ++ ((if is_empty safe then b'_' ∷ [] else safe) ++ codes ".json")

-- A temporary file that replaces the job's previous record: one write of that file.
unfoldable pub record_run :
    (S : Storage) → RunRecord → Storage.World S → Result (Unit {0}) × Storage.World S
unfolding job_file
record_run S record_of w = Storage.write S (job_file record_of.job) (run_record record_of) w

abbrev pub has_slash : Text → Bool
has_slash = any (λ c. c == b'/')

-- `state_dir(data_dir).glob(f"{_JOB_PREFIX}*.json")` finds entries of the state dir itself.
unfoldable pub is_record_file : Text → Bool
is_record_file key =
    starts_with (codes ".state/job-") key
    && is_some (strip_suffix (codes ".json") key)
    && not (has_slash (drop 7 key))

-- A file that is no run record is skipped.
abbrev pub record_in : Option File → List RunRecord
record_in (some (run_record r)) = r ∷ []
record_in _ = []

unfoldable pub records_in : Dict File → List Text → List RunRecord
records_in dir [] = []
records_in dir (key ∷ ks) = record_in (lookup key dir) ++ records_in dir ks

unfoldable pub read_runs : Dict File → List RunRecord
unfolding records_in is_record_file
read_runs dir = records_in dir (sort_asc (λ key. key) (keep_if is_record_file (keys dir)))

abbrev daemon_file : Text
daemon_file = codes ".state/daemon.json"

unfoldable pub record_daemon_start :
    (S : Storage) → DateTime → Storage.World S → Result (Unit {0}) × Storage.World S
record_daemon_start S now w = Storage.write S daemon_file (daemon_start now) w

abbrev pub start_in : Option File → Option DateTime
start_in (some (daemon_start at)) = some at
start_in _ = none

unfoldable pub read_daemon_start : Dict File → Option DateTime
read_daemon_start dir = start_in (lookup daemon_file dir)

-- ===== src/State/Tests.antt =====
-- The run records of two jobs, "a b" and "a_b", whose files have one name.
use cs_backup_helper.Base.{In, map, ◌≡◌, ◌≢◌, refl, some, []}
use cs_backup_helper.Base.Text.{Text, codes}
use cs_backup_helper.Base.Dict.{lookup}
use cs_backup_helper.Manifest.{Status, success, error}
use cs_backup_helper.Storage.{RunRecord, run_record}
use cs_backup_helper.Storage.Memory.{memory, memory-IsLawful}
use cs_backup_helper.State.{underscored, read_runs, job_file, record_run}
use cs_backup_helper.State.Apart.{IsFileName, recorded-apart}
use cs_backup_helper.Runner.Samples.{noon, empty}

abbrev run_of : Text → Status → RunRecord
run_of job status = record {
  job = job;
  snapshot_id = codes "s";
  status = status;
  started_at = noon;
  failed_components = [];
}

abbrev failing : RunRecord
failing = run_of (codes "a b") error

abbrev passing : RunRecord
passing = run_of (codes "a_b") success

same_file : job_file passing.job ≡ job_file failing.job
unfolding job_file
same_file = refl

abbrev files_run : RunRecord
files_run = run_of (codes "files.nightly") success

recorded-apart_example :
    (let after = (record_run memory files_run (record_run memory passing empty).1).1.files in
      (IsFileName passing.job
        → IsFileName files_run.job
        → passing.job ≢ files_run.job
        → In passing (read_runs after) × In files_run (read_runs after))
      × (passing.job ≢ []
          → files_run.job ≢ []
          → map underscored passing.job ≡ map underscored files_run.job
          → lookup (job_file passing.job) after ≡ some (run_record files_run)))
unfolding record_run
recorded-apart_example = recorded-apart memory memory-IsLawful passing files_run empty refl refl

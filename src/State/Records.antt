-- ===== src/State/Records.antt =====
-- What the run records hold.
use cs_backup_helper.Base.{◌≡◌, some}
use cs_backup_helper.Base.Dict.{lookup}
use cs_backup_helper.Base.Result.{ok}
use cs_backup_helper.Storage.{RunRecord, run_record, Storage, IsLawful}
use cs_backup_helper.State.{job_file, record_run}

module _ (S : Storage) (L : IsLawful S) where
  pub record_run-file :
      (r : RunRecord) (w : Storage.World S)
      → (record_run S r w).0 ≡ ok tt
      → lookup (job_file r.job) (Storage.dir S (record_run S r w).1) ≡ some (run_record r)
  unfolding record_run
  record_run-file r w h = L.write-file (job_file r.job) (run_record r) w h

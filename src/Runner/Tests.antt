-- ===== src/Runner/Tests.antt =====
-- Runs of the pipeline, and its theorems at the sample job.
pub mod Copies
use cs_backup_helper.Runner.{Problem}
use cs_backup_helper.State.{record_run}
use cs_backup_helper.Storage.{RunRecord}
use cs_backup_helper.Storage.Memory.{Memory, memory, memory-IsLawful}
use cs_backup_helper.Base.{◌≡◌, refl, ◌↔◌, true, List, [], ◌∷◌}
use cs_backup_helper.Base.Text.{Text, codes, text_eq}
use cs_backup_helper.Base.Dict.{lookup}
use cs_backup_helper.Base.Result.{ok}
use cs_backup_helper.Manifest.{success, snapshot_status}
use cs_backup_helper.Runner.Produce.{produce}
use cs_backup_helper.Runner.Produce.Problems.{produce-snapshot_status}
use cs_backup_helper.Runner.Run.{run_job}
use cs_backup_helper.Runner.Run.Results.{Recorded, run_job-Recorded}
use cs_backup_helper.Runner.Restore.{only_is_restorable, specs_by_name, hydrate, restore_snapshot}
use cs_backup_helper.Runner.Restore.Guards.{Checked, restore_snapshot-Checked}
use cs_backup_helper.Runner.Samples.{
  job, sid, dumped, empty, pending, engine, restorer, params, database,
}

abbrev no_problems : List Problem
no_problems = []

produce-snapshot_status_example : (no_problems ≡ []) ↔ (snapshot_status (dumped ∷ []) ≡ success)
unfolding produce text_eq
produce-snapshot_status_example =
    produce-snapshot_status memory engine (λ t h. h) (database ∷ []) empty (dumped ∷ []) [] empty
      refl

records : (r : RunRecord) (w : Memory) → (record_run memory r w).0 ≡ ok tt
unfolding record_run
records r w = refl

run_job-Recorded_example :
    Recorded memory memory-IsLawful engine params records
      (λ a w. refl)
      (λ phase w. refl)
      (λ w. refl)
      (run_job memory engine params empty)
run_job-Recorded_example =
    run_job-Recorded memory memory-IsLawful engine params records (λ a w. refl) (λ phase w. refl)
      (λ w. refl) empty refl

restored :
    restore_snapshot memory engine restorer job sid (codes "db" ∷ []) true [] pending
    ≡ (ok true, [], pending)
unfolding restore_snapshot cs_backup_helper.Runner.Offsite.find_artifact
    cs_backup_helper.Base.Sort.sort_asc cs_backup_helper.Base.Dict.keys
    cs_backup_helper.Base.Text.starts_with lookup text_eq cs_backup_helper.Manifest.build_manifest
    only_is_restorable cs_backup_helper.Base.Dict.insert specs_by_name
    cs_backup_helper.Runner.Produce.spec_component_name cs_backup_helper.Base.Text.strip_suffix
restored = refl

restore_snapshot-Checked_example :
    Checked memory engine restorer job sid
      (codes "db" ∷ [])
      true
      (hydrate memory engine restorer job sid [] pending).2
restore_snapshot-Checked_example =
    restore_snapshot-Checked memory engine restorer job sid (codes "db" ∷ []) true [] [] pending
      pending restored

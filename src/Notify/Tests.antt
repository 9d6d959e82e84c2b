-- ===== src/Notify/Tests.antt =====
-- An alert for one known channel and one that does not exist.
use cs_backup_helper.Base.{◌≡◌, refl, List, [], ◌∷◌, ◌++◌, keep_if, if◌then◌else◌}
use cs_backup_helper.Base.Text.{Text, codes}
use cs_backup_helper.Base.Result.{Result, raised, os_error}
use cs_backup_helper.Manifest.{error}
use cs_backup_helper.Runner.Engine.{AlertEvent, aborted_before_end}
use cs_backup_helper.Notify.{warnings, is_known, passes_level, notify}
use cs_backup_helper.Notify.Fanout.{notify-attempts}

abbrev alert : AlertEvent
alert = record {
  status = error;
  message = aborted_before_end;
  snapshot_id = codes "s";
  job = codes "j";
  total_bytes = 0;
  errors = [];
}

abbrev failing_send : Text → AlertEvent → List Text → Result (Unit {0}) × List Text
failing_send name event tried = (raised os_error, tried ++ (name ∷ []))

abbrev channels : List Text
channels = codes "email" ∷ codes "pager" ∷ codes "ntfy" ∷ []

notify-attempts_example :
    notify failing_send channels warnings alert []
    ≡ [] ++ (if passes_level warnings error then keep_if is_known channels else [])
notify-attempts_example =
    notify-attempts failing_send (λ tried. tried) (λ name event tried. refl) channels warnings alert
      []

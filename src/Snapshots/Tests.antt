-- ===== src/Snapshots/Tests.antt =====
-- Snapshot ids and their owners at concrete jobs, with the theorems.
use cs_backup_helper.Base.{◌≡◌, refl, true, false, none, some, [], ◌∷◌}
use cs_backup_helper.Base.Int.{pos}
use cs_backup_helper.Base.Text.{Text, codes, text_eq}
use cs_backup_helper.Clock.{DateTime, is_valid}
use cs_backup_helper.Clock.Format.{stamp, strptime, two_digits, field, day_field, literal, at_end}
use cs_backup_helper.Config.{Job, local, plain}
use cs_backup_helper.Snapshots.{
  new_snapshot_id, parse_snapshot_id, parse_rest, job_slug, owns, scope_for, in_slug,
}
use cs_backup_helper.Snapshots.Ids.{parse-new_snapshot_id}
use cs_backup_helper.Snapshots.Ownership.{owns-exclusive}

abbrev now : DateTime
now = record { year = 2026; month = 7; day = 5; hour = 3; minute = 15; second = 0; micro = 250 }

abbrev later : DateTime
later = record now { hour = 12 }

scoped_id :
    new_snapshot_id now (some (codes "files.nightly")) ≡ codes "2026-07-05_03-15-00_files-nightly"
unfolding new_snapshot_id stamp two_digits job_slug
scoped_id = refl

foreign_id : parse_snapshot_id (codes "2026-02-30_03-15-00") ≡ (none, none)
unfolding parse_snapshot_id strptime field day_field literal at_end
foreign_id = refl

short_month :
    parse_snapshot_id (codes "2026-7-05_03-15-00") ≡ (some (record now { micro = 0 }), none)
unfolding parse_snapshot_id strptime field day_field literal at_end parse_rest
short_month = refl

parse-new_snapshot_id_example :
    parse_snapshot_id (new_snapshot_id now (some (codes "db")))
    ≡ (some (record now { micro = 0 }), some (codes "db"))
unfolding is_valid job_slug
parse-new_snapshot_id_example = parse-new_snapshot_id now (some (codes "db")) refl

abbrev job_named : Text → Job
job_named name = record {
  name = name;
  sources = [];
  destinations = local ∷ [];
  keep_local = true;
  healthcheck_max_age = none;
  retention = record {
    count = pos 14;
    age_days = 0;
    gfs = record { daily = 0; weekly = 0; monthly = 0 };
    smart_last = true;
  };
  encryption = record { mode = plain; recipient = []; identity_file = [] };
}

abbrev db : Job
db = job_named (codes "db")

abbrev files : Job
files = job_named (codes "files")

abbrev db_id : Text
db_id = codes "2026-07-05_03-15-00_db"

db_owns : owns (scope_for (db ∷ files ∷ []) db) db_id (codes "local") none ≡ true
unfolding owns scope_for parse_snapshot_id strptime field day_field literal at_end parse_rest
    in_slug job_slug text_eq
db_owns = refl

files_does_not_own : owns (scope_for (db ∷ files ∷ []) files) db_id (codes "local") none ≡ false
unfolding owns scope_for parse_snapshot_id strptime field day_field literal at_end parse_rest
    in_slug job_slug text_eq
files_does_not_own = refl

owns-exclusive_example : db.name ≡ db.name
owns-exclusive_example =
    owns-exclusive db files [] db db db_id (codes "local") none (λ _. refl) db_owns db_owns

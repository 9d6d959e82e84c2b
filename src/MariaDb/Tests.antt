-- ===== src/MariaDb/Tests.antt =====
-- sources/mariadb.py, run on a MySQL 26 whose second pass fails on the package query.
use cs_backup_helper.Base.{
  ℕ, ◌≡◌, refl, Bool, true, false, Option, none, some, List, [], ◌∷◌, ◌++◌, any, leb, ◌&&◌,
  if◌then◌else◌,
}
use cs_backup_helper.Base.Text.{Text, codes, text_eq}
use cs_backup_helper.Base.Dict.{Dict, insert}
use cs_backup_helper.Base.Result.{ok}
use cs_backup_helper.Runner.Engine.{StagedComponent}
use cs_backup_helper.Tools.{Completed, Tools}
use cs_backup_helper.MariaDb.{MySqlFamilyConfig, resolve_binary, build_env, needs_separate_routines}
use cs_backup_helper.MariaDb.Report.{is_client_notice}
use cs_backup_helper.MariaDb.Dump.{produce}
use cs_backup_helper.MariaDb.Dump.Complete.{IsDumped, produce-IsDumped}
use cs_backup_helper.MariaDb.Restore.{restore}

abbrev printed : ℕ → Text → Text → Completed
printed code stdout stderr = record { returncode = code; stdout = stdout; stderr = stderr }

abbrev package_error : Text
package_error = codes "mysqldump: Couldn't execute 'SHOW PACKAGE STATUS': syntax error (1064)"

abbrev has : Text → List Text → Bool
has flag argv = any (text_eq flag) argv

abbrev ran : List Text → Completed
ran argv =
    if has (codes "--force") argv
    then printed 2 (codes "CREATE FUNCTION f") package_error
    else if has (codes "--batch") argv
    then printed 0 (codes "26.1.0") []
    else printed 0 (codes "CREATE TABLE t;") []

-- Files by their paths, and the processes above.
abbrev server : Tools
server = record {
  World = Dict Text;
  run = λ argv env input w. (ok (ran argv), w);
  decode = λ t. t;
  decode_escaped = λ t. t;
  temporary_directory = λ dir w. (ok (codes "/tmp/x"), w);
  temporary_file = λ w. (ok (codes "/tmp/y"), w);
  remove_directory = λ dir w. w;
  unlink = λ path w. (ok tt, w);
  read = λ path w. (ok [], w);
  read_gzip = λ path w. (ok [], w);
  write = λ path new w. (ok tt, insert path new w);
  write_gzip = λ path new w. (ok tt, insert path new w);
  encode_escaped = λ t. t;
}

abbrev is_alnum : ℕ → Bool
is_alnum c = leb b'a' c && leb c b'z'

abbrev which : Text → Option Text
which name = if text_eq name (codes "mysqldump") then none else some name

abbrev cfg : MySqlFamilyConfig
cfg = record {
  kind = codes "mysql";
  host = codes "db";
  port = 3306;
  database = codes "app";
  databases = [];
  user = codes "root";
  password = codes "secret";
  binary = [];
  name = [];
}

abbrev staged : StagedComponent
staged = record {
  name = codes "app";
  kind = codes "mysql";
  path = codes "/tmp/app.sql.gz";
  warnings = [];
  error = [];
}

abbrev written : Dict Text
written = (codes "/tmp/app.sql.gz", codes "CREATE TABLE t;CREATE FUNCTION f") ∷ []

-- The first choice is not there, and the second one is.
binary_test : resolve_binary which cfg ≡ codes "mariadb-dump"
unfolding resolve_binary
binary_test = refl

version_test :
    (needs_separate_routines (codes "26.1.0") ≡ true)
    × (needs_separate_routines (codes "9.4.0") ≡ false)
    × (needs_separate_routines (codes "11.4.2-MariaDB-log") ≡ false)
unfolding needs_separate_routines
version_test = (refl, refl, refl)

notice_test :
    (is_client_notice is_alnum (codes "WARNING: option") ≡ true)
    × (is_client_notice is_alnum (codes "mysqldump: Warning: option") ≡ true)
    × (is_client_notice is_alnum (codes "warnings") ≡ false)
    × (is_client_notice is_alnum (codes "a b: notice") ≡ false)
    × (is_client_notice is_alnum (codes "mysqldump: Deprecated program name") ≡ true)
unfolding is_client_notice
notice_test = (refl, refl, refl, refl, refl)

produce_test :
    produce server is_alnum which (codes "mysql") cfg [] (codes "/tmp") []
    ≡ (ok (staged ∷ []), written)
unfolding produce insert
produce_test = refl

restore_test :
    restore server which (codes "mysql") cfg [] (codes "/tmp") (codes "app.sql.gz" ∷ []) []
    ≡ (ok tt, (codes "/tmp/y", []) ∷ [])
unfolding restore insert
restore_test = refl

produce-IsDumped_example :
    (dump : Text) × (before : Dict Text) × IsDumped server is_alnum which
      (codes "mysql")
      cfg
      (build_env [] cfg)
      []
      dump
      before
    × (Tools.write_gzip server staged.path dump before ≡ (ok tt, written))
unfolding produce insert
produce-IsDumped_example =
    produce-IsDumped server is_alnum which (codes "mysql") cfg [] (codes "/tmp") staged [] written
      refl refl

abbrev privileges : Text
privileges = codes "mysqldump: root has insufficient privileges to SHOW CREATE FUNCTION f"

abbrev report : Text
report = package_error ++ (10 ∷ privileges)

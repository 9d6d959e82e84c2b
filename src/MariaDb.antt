-- ===== src/MariaDb.antt =====
-- sources/mariadb.py: the configuration, the environment and the commands of a dump.
pub mod Report
pub mod Dump
pub mod Restore
pub mod Tests
use cs_backup_helper.Base.{
  ℕ, ◌+◌, ◌==◌, Bool, true, false, List, [], ◌∷◌, ◌++◌, map, not, ◌&&◌, ◌||◌, is_empty, is_some,
  any, leb, Option, none, some, if◌then◌else◌,
}
use cs_backup_helper.Base.Text.{Text, codes, text_eq}
use cs_backup_helper.Base.Words.{strip, find, is_digit, number_from, decimal_from}
use cs_backup_helper.Base.Dict.{Dict, insert}

-- Missing texts are empty; the rest is as validated.
pub record MySqlFamilyConfig : Type 0 where
  pub kind : Text
  pub host : Text
  pub port : ℕ
  pub database : Text
  pub databases : List Text
  pub user : Text
  pub password : Text
  pub binary : Text
  pub name : Text

unfoldable pub component_name : MySqlFamilyConfig → Text
component_name cfg =
    if not (is_empty cfg.name)
    then cfg.name
    else if not (is_empty cfg.database)
    then cfg.database
    else codes "database"

-- `_BINARY_PREFERENCE.get(kind, ("mariadb-dump",))`, and the same for the client of a restore: the
-- first one and the others.
unfoldable pub binary_preference : Text → Text × List Text
unfolding text_eq
binary_preference kind =
    if text_eq kind (codes "mariadb")
    then (codes "mariadb-dump", codes "mysqldump" ∷ [])
    else if text_eq kind (codes "mysql")
    then (codes "mysqldump", codes "mariadb-dump" ∷ [])
    else (codes "mariadb-dump", [])

unfoldable pub restore_binary_preference : Text → Text × List Text
unfolding text_eq
restore_binary_preference engine =
    if text_eq engine (codes "mariadb")
    then (codes "mariadb", codes "mysql" ∷ [])
    else if text_eq engine (codes "mysql")
    then (codes "mysql", codes "mariadb" ∷ [])
    else (codes "mariadb", [])

-- The first candidate that `which` finds.
unfoldable pub first_found : (Text → Option Text) → List Text → Option Text
first_found which [] = none
first_found which (candidate ∷ candidates) = elim (which candidate) [
  | none ↦ first_found which candidates
  | some found ↦ some found
]

abbrev pub found_or : Text → Option Text → Text
found_or first none = first
found_or first (some found) = found

abbrev pub preferred : (Text → Option Text) → Text × List Text → Text
preferred which (first, others) = found_or first (first_found which (first ∷ others))

unfoldable pub resolve_binary : (Text → Option Text) → MySqlFamilyConfig → Text
unfolding binary_preference first_found
resolve_binary which cfg =
    if not (is_empty cfg.binary) then cfg.binary else preferred which (binary_preference cfg.kind)

unfoldable pub restore_binary : (Text → Option Text) → Text → Text
unfolding restore_binary_preference first_found
restore_binary which engine = preferred which (restore_binary_preference engine)

-- A port has at most five digits.
unfoldable pub connection : MySqlFamilyConfig → List Text
unfolding decimal_from
connection cfg =
    codes "--host"
    ∷ cfg.host
    ∷ codes "--port"
    ∷ decimal_from 5 cfg.port
    ∷ codes "--user"
    ∷ cfg.user
    ∷ []

unfoldable pub targets : MySqlFamilyConfig → List Text
targets cfg =
    if not (is_empty cfg.databases)
    then codes "--databases" ∷ cfg.databases
    else if not (is_empty cfg.database)
    then cfg.database ∷ []
    else []

abbrev pub dump_flags : List Text
dump_flags =
    codes "--single-transaction"
    ∷ codes "--quick"
    ∷ codes "--routines"
    ∷ codes "--triggers"
    ∷ codes "--events"
    ∷ codes "--no-tablespaces"
    ∷ codes "--default-character-set=utf8mb4"
    ∷ []

abbrev pub routines_only_flags : List Text
routines_only_flags =
    codes "--single-transaction"
    ∷ codes "--routines"
    ∷ codes "--skip-triggers"
    ∷ codes "--no-create-info"
    ∷ codes "--no-data"
    ∷ codes "--no-create-db"
    ∷ codes "--no-tablespaces"
    ∷ codes "--default-character-set=utf8mb4"
    ∷ codes "--force"
    ∷ []

-- A flag of the main pass, with the routines or without.
abbrev pub flag_of : Bool → Text → Text
flag_of routines flag =
    if routines || not (text_eq flag (codes "--routines")) then flag else codes "--skip-routines"

unfoldable pub build_argv : MySqlFamilyConfig → Text → Bool → List Text
unfolding connection targets text_eq
build_argv cfg binary routines =
    binary ∷ (map (flag_of routines) dump_flags ++ (connection cfg ++ targets cfg))

unfoldable pub build_routines_argv : MySqlFamilyConfig → Text → List Text
unfolding connection targets
build_routines_argv cfg binary = binary ∷ (routines_only_flags ++ (connection cfg ++ targets cfg))

unfoldable pub build_env : Dict Text → MySqlFamilyConfig → Dict Text
unfolding insert
build_env environ cfg = insert (codes "MYSQL_PWD") cfg.password environ

abbrev pub low_code : ℕ → ℕ
low_code c = if leb b'A' c && leb c b'Z' then c + 32 else c

-- `re.match(r"(\d+)\.", v)`, over the digits of ASCII: what stands before the first dot.
unfoldable pub major_from : Text → Text → Option Text
unfolding is_digit
major_from digits [] = none
major_from digits (c ∷ v) =
    let more = major_from (digits ++ (c ∷ [])) v in
    if is_digit c then more else if (c == b'.') && not (is_empty digits) then some digits else none

abbrev pub is_calendar : Option Text → Bool
is_calendar none = false
is_calendar (some digits) = leb 10 (number_from 0 digits)

unfoldable pub needs_separate_routines : Text → Bool
unfolding strip major_from number_from find
needs_separate_routines server_version =
    is_calendar (major_from [] (strip server_version))
    && not (is_some (find (codes "mariadb") (map low_code server_version)))

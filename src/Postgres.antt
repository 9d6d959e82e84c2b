-- ===== src/Postgres.antt =====
-- sources/postgres.py: the configuration, the environment and the commands of a dump and a restore.
pub mod Objects
pub mod Listing
pub mod Plan
pub mod Prelude
pub mod Query
pub mod Script
pub mod Target
pub mod Session
pub mod Restore
pub mod Dump
pub mod Tests
use cs_backup_helper.Base.{
  ℕ, ◌==◌, Bool, true, false, List, [], ◌∷◌, ◌++◌, map, keep_if, not, is_empty, Option, none, some,
  if◌then◌else◌,
}
use cs_backup_helper.Base.Text.{Text, codes, text_eq}
use cs_backup_helper.Base.Words.{split_at, strip, ends_with, decimal_from}
use cs_backup_helper.Base.Dict.{Dict, insert, lookup, erase}

-- A missing `name` is empty. `keep_acl` and the rest are as validated.
pub record PostgresConfig : Type 0 where
  pub host : Text
  pub port : ℕ
  pub database : Text
  pub user : Text
  pub password : Text
  pub ssl_mode : Text
  pub dump_format : Text
  pub timeout : ℕ
  pub name : Text
  pub exclude_table_data : List Text
  pub keep_acl : Bool

-- `_csv_or_list` on a text.
unfoldable pub csv_items : Text → List Text
unfolding split_at strip
csv_items v = keep_if (λ p. not (is_empty p)) (map strip (split_at b',' v))

unfoldable pub component_name : PostgresConfig → Text
component_name cfg =
    if not (is_empty cfg.name)
    then cfg.name
    else if not (is_empty cfg.database)
    then cfg.database
    else codes "database"

-- The environment of the tools; a port has at most five digits.
unfoldable pub build_env : Dict Text → PostgresConfig → Dict Text
unfolding insert decimal_from
build_env environ cfg = insert (codes "PGSSLMODE") cfg.ssl_mode (
    insert (codes "PGPASSWORD") cfg.password (
      insert (codes "PGUSER") cfg.user (
        insert (codes "PGDATABASE") cfg.database (
          insert (codes "PGPORT") (decimal_from 5 cfg.port)
            (insert (codes "PGHOST") cfg.host environ)))))

unfoldable pub in_database_encoding : Dict Text → Dict Text
unfolding erase
in_database_encoding env = erase (codes "PGCLIENTENCODING") env

abbrev pub acl_flags : PostgresConfig → List Text
acl_flags cfg = if cfg.keep_acl then [] else codes "--no-acl" ∷ []

unfoldable pub is_custom : PostgresConfig → Bool
unfolding text_eq
is_custom cfg = text_eq cfg.dump_format (codes "custom")

unfoldable pub build_dump_argv : PostgresConfig → Text → List Text
unfolding is_custom
build_dump_argv cfg out_path =
    let exclude = map (λ t. codes "--exclude-table-data=" ++ t) cfg.exclude_table_data in
    if is_custom cfg
    then codes "pg_dump"
      ∷ (codes "--format=custom"
          ∷ (codes "--compress=6"
              ∷ (codes "--no-owner"
                  ∷ (acl_flags cfg ++ (exclude ++ (codes "--file" ∷ (out_path ∷ [])))))))
    else codes "pg_dump"
      ∷ (codes "--format=plain" ∷ (codes "--no-owner" ∷ (acl_flags cfg ++ exclude)))

abbrev pub clean_restore_flags : PostgresConfig → List Text
clean_restore_flags cfg =
    codes "--clean" ∷ (codes "--if-exists" ∷ (codes "--no-owner" ∷ acl_flags cfg))

abbrev pub psql_stdin : List Text
psql_stdin = codes "psql" ∷ (codes "--quiet" ∷ (codes "--set" ∷ (codes "ON_ERROR_STOP=1" ∷ [])))

-- `"".join(path.suffixes)`: what follows the leading dots of a name, from its next dot on.
abbrev pub after_dots : Text → Text
after_dots [] = []
after_dots (c ∷ s) = let rest = after_dots s in if c == b'.' then rest else c ∷ s

abbrev pub from_dot : Text → Text
from_dot [] = []
from_dot (c ∷ s) = let rest = from_dot s in if c == b'.' then c ∷ s else rest

unfoldable pub suffixes : Text → Text
unfolding ends_with
suffixes name = if ends_with (codes ".") name then [] else from_dot (after_dots name)

unfoldable pub is_custom_dump : Text → Bool
unfolding suffixes
is_custom_dump name = ends_with (codes ".dump") (suffixes name)

-- The command of a restore, for a dump of that name at that path.
unfoldable pub build_restore_argv : PostgresConfig → Text → Text → List Text
unfolding suffixes ends_with is_custom_dump
build_restore_argv cfg name path =
    if is_custom_dump name
    then codes "pg_restore"
      ∷ (clean_restore_flags cfg
          ++ (codes "--single-transaction" ∷ (codes "--dbname" ∷ (cfg.database ∷ (path ∷ [])))))
    else if ends_with (codes ".sql.gz") (suffixes name)
    then psql_stdin
    else psql_stdin ++ (codes "--file" ∷ (path ∷ []))

-- `_normalize`: `db` stands in for a missing `database`. Keys with no value are not in the
-- dictionary, and neither is `type`.
unfoldable pub normalize : Dict Text → Dict Text
unfolding lookup insert erase
normalize spec = elim (lookup (codes "database") spec) [
  | some database ↦ erase (codes "db") spec
  | none ↦ elim (lookup (codes "db") spec) [
    | some db ↦ insert (codes "database") db (erase (codes "db") spec)
    | none ↦ spec
  ]
]

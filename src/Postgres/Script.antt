-- ===== src/Postgres/Script.antt =====
-- sources/postgres.py: `_comment_out_header_line`, on the content of a script.
pub mod Exact
use cs_backup_helper.Base.{
  ℕ, zero, suc, ◌+◌, ◌*◌, ◌-◌, ltb, ◌==◌, Bool, true, false, not, ◌&&◌, ◌||◌, Option, none, some,
  List, [], ◌∷◌, ◌++◌, map, take, drop, length, is_empty, all, keep_if, if◌then◌else◌,
}
use cs_backup_helper.Base.Text.{Text, codes, text_eq, starts_with}
use cs_backup_helper.Base.Words.{strip, ends_with, find, is_digit}
use cs_backup_helper.Base.Sort.{sort_asc}
use cs_backup_helper.Base.Dict.{Dict}
use cs_backup_helper.Base.Result.{Result, ok, raised, source_error}
use cs_backup_helper.Postgres.{
  PostgresConfig, component_name, build_env, in_database_encoding, clean_restore_flags, psql_stdin,
  is_custom_dump, build_restore_argv,
}
use cs_backup_helper.Postgres.Objects.{LiveObject, ObjectKind, role, server_version, is_object}
use cs_backup_helper.Postgres.Listing.{nul_rows, live_objects, dump_keys}
use cs_backup_helper.Postgres.Plan.{Replacement, plain_plan, plan_of}
use cs_backup_helper.Postgres.Prelude.{replacement_prelude}
use cs_backup_helper.Postgres.Query.{catalog_setup, live_objects_sql}
use cs_backup_helper.Tools.{Completed, Tools, Call, next_of, ◌>>=◌, ◌>>◌, returning}

-- `pg_restore` writes this into every script.
abbrev pub transaction_timeout : Text
transaction_timeout = codes "SET transaction_timeout = 0;\n"

-- Writing over a part of a file.
unfoldable pub overwritten : ℕ → Text → Text → Text
overwritten i new s = take i s ++ (new ++ drop (i + length new) s)

abbrev pub is_before : Option ℕ → ℕ → Bool
is_before none at = false
is_before (some i) at = ltb i at

abbrev pub commented_at : Option ℕ → Option ℕ → Text → Text → Text
commented_at none first_object line script = script
commented_at (some at) first_object line script =
    if is_before first_object at
    then script
    else overwritten (at + 1) (codes "-- " ++ drop 3 line) script

-- A script after `_comment_out_header_line`.
unfoldable pub commented_out : Text → Text → Text
unfolding find overwritten
commented_out line script =
    let head = take 65536 script in
    commented_at (find (codes "\n" ++ line) head) (find (codes "\n--\n-- Name: ") head) line script

-- ===== src/Postgres/Restore.antt =====
-- sources/postgres.py: the restore of a dump.
pub mod Server
pub mod Frames
pub mod Atomic
use cs_backup_helper.Base.{
  ℕ, ltb, Bool, not, ◌&&◌, Option, none, some, List, [], ◌∷◌, ◌++◌, keep_if, if◌then◌else◌,
}
use cs_backup_helper.Base.Text.{Text, codes, starts_with}
use cs_backup_helper.Base.Words.{ends_with}
use cs_backup_helper.Base.Sort.{sort_asc}
use cs_backup_helper.Base.Dict.{Dict}
use cs_backup_helper.Base.Result.{Result, ok, raised, source_error}
use cs_backup_helper.Postgres.{
  PostgresConfig, component_name, build_env, in_database_encoding, clean_restore_flags, psql_stdin,
  is_custom_dump, build_restore_argv,
}
use cs_backup_helper.Postgres.Plan.{Replacement}
use cs_backup_helper.Postgres.Prelude.{replacement_prelude}
use cs_backup_helper.Postgres.Script.{transaction_timeout, commented_out}
use cs_backup_helper.Postgres.Target.{plan_replacement, server_version_num, checked}
use cs_backup_helper.Tools.{Completed, Tools, Call, ◌>>=◌, ◌>>◌, returning, unlinking}

-- A file of a directory.
abbrev pub in_directory : Text → Text → Text
in_directory dir name = dir ++ (codes "/" ++ name)

abbrev pub is_old : ℕ → Bool
is_old version = ltb 0 version && ltb version 170000

-- Both files in one call of `psql`, so in one transaction.
unfoldable pub apply_argv : Text → Text → List Text
apply_argv prelude script =
    codes "psql"
    ∷ codes "--no-psqlrc"
    ∷ codes "--quiet"
    ∷ codes "--set"
    ∷ codes "ON_ERROR_STOP=1"
    ∷ codes "--file"
    ∷ prelude
    ∷ codes "--file"
    ∷ script
    ∷ []

unfoldable pub generate_argv : PostgresConfig → Text → Text → List Text
generate_argv cfg script dump =
    codes "pg_restore"
    ∷ (clean_restore_flags cfg
        ++ (codes "--single-transaction" ∷ (codes "--file" ∷ (script ∷ (dump ∷ [])))))

module _ (T : Tools) where
  -- `_comment_out_header_line(script, line)`, in place.
  unfoldable pub comment_out : Text → Text → Call T (Unit {0})
  unfolding commented_out
  comment_out script line =
      Tools.read T script >>= λ content. Tools.write T script (commented_out line content)

  unfoldable pub commented_if_old : Replacement → Text → Call T (Unit {0})
  unfolding comment_out
  commented_if_old plan script =
      if is_old plan.server_version_num
      then comment_out script transaction_timeout
      else returning (ok tt)

  -- What `_restore_replacing` does in its temporary directory; its log lines are left out.
  unfoldable pub replace_in :
      PostgresConfig → Text → Replacement → Dict Text → Text → Call T (Unit {0})
  unfolding commented_if_old replacement_prelude in_database_encoding apply_argv generate_argv
  replace_in cfg dump plan env tmp =
      let prelude = in_directory tmp (codes "replace.sql") in
      let script = in_directory tmp (codes "restore.sql") in
      Tools.write T prelude (Tools.encode_escaped T (replacement_prelude plan))
      >> ((Tools.run T (generate_argv cfg script dump) env none >>= checked T) >>= λ _.
          (commented_if_old plan script
            >> ((Tools.run T (apply_argv prelude script) (in_database_encoding env) none
                  >>= checked T)
                >>= λ _. returning (ok tt))))

  -- `with tempfile.TemporaryDirectory() as tmp`
  abbrev pub removing : {A : Type 0} → Text → Result A × Tools.World T → Result A × Tools.World T
  removing tmp (r, w) = (r, Tools.remove_directory T tmp w)

  unfoldable pub restore_replacing :
      PostgresConfig → Text → Text → Replacement → Dict Text → Call T (Unit {0})
  unfolding replace_in
  restore_replacing cfg parent dump plan env = Tools.temporary_directory T parent >>= λ tmp w.
      removing tmp (replace_in cfg dump plan env tmp w)

  unfoldable pub copied : Text → Text → Text → Call T (Unit {0})
  unfolding ends_with
  copied name dump tmp =
      (if ends_with (codes ".gz") name then Tools.read_gzip T dump else Tools.read T dump)
      >>= λ content. Tools.write T tmp content

  unfoldable pub restore_copy : Bool → Dict Text → Text → Call T Completed
  unfolding comment_out
  restore_copy old_server env tmp =
      (if old_server then comment_out tmp transaction_timeout else returning (ok tt))
      >> Tools.run T psql_stdin env (some tmp)

  unfoldable pub restore_plain : PostgresConfig → Text → Text → Dict Text → Call T Completed
  unfolding server_version_num build_restore_argv copied restore_copy ends_with
  restore_plain cfg name dump env = server_version_num T env >>= λ version.
      if not (ends_with (codes ".gz") name) && not (is_old version)
      then Tools.run T (build_restore_argv cfg name dump) env none
      else Tools.temporary_file T >>= λ tmp.
          copied name dump tmp >> λ w. unlinking T tmp (restore_copy (is_old version) env tmp w)

  unfoldable pub restore_whole : PostgresConfig → Text → Text → Dict Text → Call T (Unit {0})
  unfolding build_restore_argv restore_plain is_custom_dump
  restore_whole cfg name dump env =
      ((if is_custom_dump name
          then Tools.run T (build_restore_argv cfg name dump) env none
          else restore_plain cfg name dump env)
        >>= checked T)
      >>= λ _. returning (ok tt)

  unfoldable pub restore_by :
      PostgresConfig → Text → Text → Text → Dict Text → Option Replacement → Call T (Unit {0})
  unfolding restore_whole restore_replacing
  restore_by cfg parent name dump env none = restore_whole cfg name dump env
  restore_by cfg parent name dump env (some plan) = restore_replacing cfg parent dump plan env

  -- `_pg_restore`
  unfoldable pub pg_restore : Dict Text → PostgresConfig → Text → Text → Call T (Unit {0})
  unfolding restore_by plan_replacement is_custom_dump build_env
  pg_restore environ cfg parent name =
      let dump = in_directory parent name in
      let env = build_env environ cfg in
      if is_custom_dump name
      then plan_replacement T dump env >>= restore_by cfg parent name dump env
      else restore_whole cfg name dump env

  unfoldable pub first_dump : Dict Text → PostgresConfig → Text → List Text → Call T (Unit {0})
  unfolding pg_restore
  first_dump environ cfg dir [] w = (raised source_error, w)
  first_dump environ cfg dir (name ∷ names) w = pg_restore environ cfg dir name w

  -- `PostgresSource.restore` from a directory with those files.
  unfoldable pub restore : Dict Text → PostgresConfig → Text → List Text → Call T (Unit {0})
  unfolding first_dump component_name sort_asc starts_with
  restore environ cfg dir files =
      first_dump environ cfg dir
        (sort_asc (λ n. n) (keep_if (starts_with (component_name cfg ++ codes ".")) files))

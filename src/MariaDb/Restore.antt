-- ===== src/MariaDb/Restore.antt =====
-- sources/mariadb.py: the restore of a dump.
use cs_backup_helper.Base.{
  ◌==◌, List, [], ◌∷◌, ◌++◌, Option, some, is_empty, keep_if, if◌then◌else◌,
}
use cs_backup_helper.Base.Text.{Text, codes, text_eq}
use cs_backup_helper.Base.Dict.{Dict}
use cs_backup_helper.Base.Result.{ok, raised, source_error}
use cs_backup_helper.Tools.{Completed, Tools, Call, ◌>>=◌, ◌>>◌, returning, unlinking}
use cs_backup_helper.MariaDb.{
  MySqlFamilyConfig, component_name, restore_binary, connection, build_env,
}

module _ (T : Tools) (which : Text → Option Text) (engine : Text) (cfg : MySqlFamilyConfig) where
  unfoldable pub client_argv : List Text
  unfolding restore_binary connection
  client_argv =
      restore_binary which engine
      ∷ (connection cfg ++ (if is_empty cfg.database then [] else cfg.database ∷ []))

  -- `_run_with_gunzipped_stdin`
  unfoldable pub run_with_gunzipped_stdin : List Text → Dict Text → Text → Call T Completed
  run_with_gunzipped_stdin argv env gz_path = Tools.temporary_file T >>= λ tmp.
      (Tools.read_gzip T gz_path >>= λ content. Tools.write T tmp content) >> λ w.
      unlinking T tmp (Tools.run T argv env (some tmp) w)

  abbrev pub settled : Completed → Call T (Unit {0})
  settled c = returning (if c.returncode == 0 then ok tt else raised source_error)

  unfoldable pub restore_first : Dict Text → Text → List Text → Call T (Unit {0})
  unfolding run_with_gunzipped_stdin client_argv build_env
  restore_first environ dir [] = returning (raised source_error)
  restore_first environ dir (name ∷ names) =
      run_with_gunzipped_stdin client_argv (build_env environ cfg) (dir ++ (codes "/" ++ name))
      >>= settled

  -- `MariaDBSource.restore` from a directory with those files; the name is no pattern.
  unfoldable pub restore : Dict Text → Text → List Text → Call T (Unit {0})
  unfolding restore_first component_name text_eq
  restore environ dir files =
      restore_first environ dir
        (keep_if (λ file. text_eq file (component_name cfg ++ codes ".sql.gz")) files)

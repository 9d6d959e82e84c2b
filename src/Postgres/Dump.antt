-- ===== src/Postgres/Dump.antt =====
-- sources/postgres.py: the dump of a database into the staging dir.
use cs_backup_helper.Base.{not, ◌==◌, List, [], ◌∷◌, ◌++◌, none, take, is_empty, if◌then◌else◌}
use cs_backup_helper.Base.Text.{Text, codes}
use cs_backup_helper.Base.Words.{strip}
use cs_backup_helper.Base.Dict.{Dict}
use cs_backup_helper.Base.Result.{Result, ok, raised, time_out}
use cs_backup_helper.Runner.Engine.{StagedComponent}
use cs_backup_helper.Postgres.{
  PostgresConfig, component_name, is_custom, build_env, build_dump_argv,
}
use cs_backup_helper.Tools.{Completed, Tools, Call, ◌>>=◌, ◌>>◌, returning}

-- The components of a dump that failed, after the removal of its file.
module _ (T : Tools) (cfg : PostgresConfig) where
  -- The text of `_error`, of what was printed as errors.
  unfoldable pub dump_error : Text → Text
  unfolding strip
  dump_error stderr =
      let shown = take 500 (strip (Tools.decode T stderr)) in
      codes "pg_dump failed: " ++ (if is_empty shown then codes "pg_dump failed" else shown)

  unfoldable pub failed : Text → Text → Call T (List StagedComponent)
  unfolding component_name dump_error
  failed out stderr =
      Tools.unlink T out
      >> returning (
          ok (
            record {
              name = component_name cfg;
              kind = codes "postgres";
              path = [];
              warnings = [];
              error = dump_error stderr;
            }
            ∷ []))

  unfoldable pub dumped : Text → Call T (List StagedComponent)
  unfolding component_name
  dumped out = returning (
      ok (
        record {
          name = component_name cfg;
          kind = codes "postgres";
          path = out;
          warnings = [];
          error = [];
        }
        ∷ []))

  -- A plain dump is what the process printed, compressed.
  unfoldable pub settled : Text → Completed → Call T (List StagedComponent)
  unfolding is_custom failed
  settled out c =
      if not (c.returncode == 0)
      then failed out c.stderr
      else if is_custom cfg
      then dumped out
      else Tools.write_gzip T out c.stdout >> dumped out

  -- `except subprocess.TimeoutExpired`
  unfoldable pub or_time_out :
      Text
      → Result (List StagedComponent) × Tools.World T
      → Result (List StagedComponent) × Tools.World T
  unfolding failed
  or_time_out out (ok staged, w) = (ok staged, w)
  or_time_out out (raised time_out, w) = failed out (codes "pg_dump timed out") w
  or_time_out out (raised e, w) = (raised e, w)

  -- `PostgresSource.produce`, without the metadata; the staging dir is there.
  unfoldable pub produce : Dict Text → Text → Call T (List StagedComponent)
  unfolding component_name is_custom build_env build_dump_argv settled or_time_out
  produce environ staging_dir w =
      let suffix = if is_custom cfg then codes ".dump" else codes ".sql.gz" in
      let out = staging_dir ++ (codes "/" ++ (component_name cfg ++ suffix)) in
      or_time_out out
        ((Tools.run T (build_dump_argv cfg out) (build_env environ cfg) none >>= settled out) w)

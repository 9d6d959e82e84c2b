-- ===== src/MariaDb/Dump.antt =====
-- sources/mariadb.py: the dump of databases into the staging dir, in one pass or two.
pub mod Complete
use cs_backup_helper.Base.{
  ℕ, Bool, true, false, not, ◌&&◌, ◌==◌, List, [], ◌∷◌, ◌++◌, Option, none, some, take, is_empty,
  if◌then◌else◌,
}
use cs_backup_helper.Base.Text.{Text, codes}
use cs_backup_helper.Base.Words.{strip}
use cs_backup_helper.Base.Dict.{Dict}
use cs_backup_helper.Base.Result.{Result, ok, Exn, raised, time_out}
use cs_backup_helper.Runner.Engine.{StagedComponent}
use cs_backup_helper.Tools.{Completed, Tools, Call, ◌>>=◌, ◌>>◌, returning}
use cs_backup_helper.MariaDb.{
  MySqlFamilyConfig, component_name, resolve_binary, restore_binary, connection, build_argv,
  build_routines_argv, build_env, needs_separate_routines,
}
use cs_backup_helper.MariaDb.Report.{only_package_errors}

abbrev pub is_time_out : Exn → Bool
is_time_out time_out = true
is_time_out e = false

-- What the `try` of `produce` leaves: a component at once, or the dump to be written.
pub data Passed : Type 0 where
  gave_up : StagedComponent → Passed
  dumped : Text → Passed

-- `engine` is the source's type, "mariadb" or "mysql"; `which` finds an executable.
module _ (T : Tools) (is_alnum : ℕ → Bool) (which : Text → Option Text) (engine : Text)
    (cfg : MySqlFamilyConfig) where
  unfoldable pub version_argv : List Text
  unfolding restore_binary connection
  version_argv =
      restore_binary which engine
      ∷ (connection cfg
          ++ (codes "--batch"
              ∷ codes "--skip-column-names"
              ∷ codes "--execute"
              ∷ codes "SELECT VERSION()"
              ∷ []))

  -- `_server_version`: empty if the query fails or takes too long.
  abbrev pub version_from : Result Completed × Tools.World T → Result Text × Tools.World T
  version_from (ok c, w) =
      (ok (if c.returncode == 0 then strip (Tools.decode T c.stdout) else []), w)
  version_from (raised e, w) = (if is_time_out e then ok [] else raised e, w)

  unfoldable pub server_version : Dict Text → Call T Text
  unfolding version_argv strip
  server_version env w = version_from (Tools.run T version_argv env none w)

  -- The text of `_error`, of what was printed as errors.
  unfoldable pub dump_error : Text → Text
  unfolding strip
  dump_error stderr =
      let shown = take 500 (strip (Tools.decode T stderr)) in
      engine ++ (codes "-dump failed: " ++ (if is_empty shown then codes "dump failed" else shown))

  abbrev pub staged_at : Text → Text → StagedComponent
  staged_at out error = record {
    name = component_name cfg;
    kind = engine;
    path = out;
    warnings = [];
    error = error;
  }

  unfoldable pub failed : Text → Text → Call T Passed
  unfolding component_name dump_error
  failed out stderr =
      Tools.unlink T out >> returning (ok (gave_up (staged_at [] (dump_error stderr))))

  -- The second pass, after a first one that printed `dump`.
  unfoldable pub both_passed : Text → Text → Completed → Call T Passed
  unfolding only_package_errors failed
  both_passed out dump routines =
      if not (routines.returncode == 0) && not (only_package_errors is_alnum T routines)
      then failed out routines.stderr
      else returning (ok (dumped (dump ++ routines.stdout)))

  unfoldable pub first_passed : Text → Dict Text → Bool → Completed → Call T Passed
  unfolding both_passed failed resolve_binary build_routines_argv
  first_passed out env separate result =
      if not (result.returncode == 0)
      then failed out result.stderr
      else if separate
      then Tools.run T (build_routines_argv cfg (resolve_binary which cfg)) env none
        >>= both_passed out result.stdout
      else returning (ok (dumped result.stdout))

  -- The calls of the `try`.
  unfoldable pub passes : Text → Dict Text → Call T Passed
  unfolding server_version first_passed resolve_binary build_argv needs_separate_routines
  passes out env = server_version env >>= λ version.
      let separate = needs_separate_routines version in
      Tools.run T (build_argv cfg (resolve_binary which cfg) (not separate)) env none
      >>= first_passed out env separate

  -- `except subprocess.TimeoutExpired`
  unfoldable pub or_time_out : Text → Result Passed × Tools.World T → Result Passed × Tools.World T
  unfolding failed
  or_time_out out (ok passed, w) = (ok passed, w)
  or_time_out out (raised e, w) =
      if is_time_out e then failed out (codes "dump timed out") w else (raised e, w)

  unfoldable pub stored : Text → Passed → Call T (List StagedComponent)
  unfolding component_name
  stored out (gave_up c) = returning (ok (c ∷ []))
  stored out (dumped dump) = Tools.write_gzip T out dump >> returning (ok (staged_at out [] ∷ []))

  -- `MariaDBSource.produce`, without the metadata; the staging dir is there.
  unfoldable pub produce : Dict Text → Text → Call T (List StagedComponent)
  unfolding component_name build_env passes or_time_out stored
  produce environ staging_dir =
      let out = staging_dir ++ (codes "/" ++ (component_name cfg ++ codes ".sql.gz")) in
      (λ w. or_time_out out (passes out (build_env environ cfg) w)) >>= stored out

-- ===== src/Postgres/Restore/Atomic.antt =====
-- A replacing restore that raises leaves the target database as it was.
use cs_backup_helper.Base.{
  ◌≡◌, ◌≢◌, refl, sym, ap, ◌∙◌, inl, inr, false, ◌==◌, Bool, Bool-cases, none, some, All, subst,
  ◌++◌, map,
}
use cs_backup_helper.Base.Text.{Text, codes}
use cs_backup_helper.Base.Dict.{Dict}
use cs_backup_helper.Base.Result.{Exn, time_out, Result, ok, raised}
use cs_backup_helper.Postgres.{clean_restore_flags, in_database_encoding, PostgresConfig}
use cs_backup_helper.Postgres.Plan.{Replacement}
use cs_backup_helper.Postgres.Prelude.{prelude_lines, replacement_prelude}
use cs_backup_helper.Postgres.Session.Opened.{prelude-stopped}
use cs_backup_helper.Postgres.Session.{command_of, execute, idle}
use cs_backup_helper.Postgres.Target.{checked}
use cs_backup_helper.Postgres.Restore.{
  returning, in_directory, generate_argv, apply_argv, commented_if_old, replace_in,
  restore_replacing, removing,
}
use cs_backup_helper.Postgres.Restore.Server.{Server, IsTransactional}
use cs_backup_helper.Postgres.Restore.Frames.{
  names_differ, flags_known, raised_differs, Unchanged, next_of-Unchanged, checked_keeps,
  checked_passes, commented_target, commented_content, HoldsScript, commented-HoldsScript,
}
use cs_backup_helper.Tools.{Completed, Tools, next_of}

module _ (T : Tools) (S : Server T) (laws : IsTransactional T S) where
  -- The encoded prelude of a plan in a file.
  abbrev HoldsPrelude : Replacement → Text → Tools.World T → Type 0
  HoldsPrelude plan prelude w =
      Server.content S prelude w ≡ some (Tools.encode_escaped T (replacement_prelude plan))

  -- What `psql` does to the target with both files, as it starts in `w`.
  abbrev session_of : Replacement → Text → Tools.World T → Bool × Server.Database S
  session_of plan script w =
      execute (Server.effect S w) (Server.can_commit S w)
        (map command_of (prelude_lines plan) ++ Server.parse S script)
        (idle (Server.effect S w) (Server.can_commit S w) (Server.target S w))

  session_runs :
      (plan : Replacement) (prelude script text : Text) (env : Dict Text) (w : Tools.World T)
      (c : Completed)
      → All (Server.IsStatement S) (prelude_lines plan)
      → HoldsPrelude plan prelude w
      → Server.content S script w ≡ some text
      → (Tools.run T (apply_argv prelude script) env none w).0 ≡ ok c
      → ((c.returncode == 0) ≡ (session_of plan text w).0)
        × (Server.target S (Tools.run T (apply_argv prelude script) env none w).1
            ≡ (session_of plan text w).1)
  unfolding replacement_prelude apply_argv
  session_runs plan prelude script text env w c statements held found ran =
      subst
        (λ cs.
          (let result =
              execute (Server.effect S w) (Server.can_commit S w) (cs ++ Server.parse S text)
                (idle (Server.effect S w) (Server.can_commit S w) (Server.target S w)) in
            ((c.returncode == 0) ≡ result.0)
            × (Server.target S (Tools.run T (apply_argv prelude script) env none w).1 ≡ result.1)))
        (laws.parse_lines (prelude_lines plan) statements)
        (laws.psql_runs prelude script _ text env w c held found ran)

  -- Both files in one session: a failure of `psql` is rolled back.
  apply-Unchanged :
      (prelude script : Text) (env : Dict Text) (plan : Replacement) (w : Tools.World T)
      → All (Server.IsStatement S) (prelude_lines plan)
      → HoldsPrelude plan prelude w
      → HoldsScript T S laws script w
      → Unchanged T S laws w
          (next_of (Tools.run T (apply_argv prelude script) env none w) (checked T))
  unfolding apply_argv
  apply-Unchanged prelude script env plan w statements held (text, found, ends) =
      by_result (Tools.run T (apply_argv prelude script) env none w) (session_of plan text w)
        (prelude-stopped (Server.effect S w) (Server.can_commit S w) (laws.settings_keep w) plan
          (Server.parse S text) (Server.target S w) ends)
        (λ c. session_runs plan prelude script text env w c statements held found)
        (laws.psql_raises prelude script env w)
    where
      by_result :
          (m : Result Completed × Tools.World T) (result : Bool × Server.Database S)
          → (result.0 ≡ false → result.1 ≡ Server.target S w)
          → ((c : Completed)
              → m.0 ≡ ok c
              → ((c.returncode == 0) ≡ result.0) × (Server.target S m.1 ≡ result.1))
          → ((e : Exn) → m.0 ≡ raised e → e ≢ time_out → Server.target S m.1 ≡ Server.target S w)
          → Unchanged T S laws w (next_of m (checked T))
      by_result (ok c, v) result stops runs raises = elim (Bool-cases (c.returncode == 0)) [
        | inl e ↦ rw e (λ x q n. absurd (raised_differs x c (sym q)))
        | inr e ↦ let (code, after) = runs c refl in rw e (λ x q n. after ∙ stops (sym code ∙ e))
      ]
      by_result (raised e, v) result stops runs raises = raises

  then_done :
      {A : Type 0} (w : Tools.World T) (m : Result A × Tools.World T)
      → Unchanged T S laws w m
      → Unchanged T S laws w (next_of m (λ _. returning (ok tt)))
  then_done w (ok a, v) h = λ e q n. absurd (raised_differs e tt (sym q))
  then_done w (raised x, v) h = λ e q n. h e (cc) n

  -- `pg_restore` leaves the prelude alone and writes a script of one transaction.
  generated-HoldsScript :
      (cfg : PostgresConfig) (script dump : Text) (env : Dict Text) (w : Tools.World T)
      (c : Completed)
      → (next_of (Tools.run T (generate_argv cfg script dump) env none w) (checked T)).0 ≡ ok c
      → HoldsScript T S laws script
          (next_of (Tools.run T (generate_argv cfg script dump) env none w) (checked T)).1
  unfolding generate_argv
  generated-HoldsScript cfg script dump env w c h =
      let ran = Tools.run T (generate_argv cfg script dump) env none w in
      let (returned, zero_code) = checked_passes T S laws ran c h in
      let (text, found, ends) =
        laws.generate_content (clean_restore_flags cfg) script dump env w c (flags_known cfg)
          returned zero_code in
      (text, checked_keeps T S laws (Server.content S script) ran ∙ found, ends)

  replace_in-Unchanged :
      (cfg : PostgresConfig) (dump tmp : Text) (plan : Replacement) (env : Dict Text)
      (w : Tools.World T)
      → All (Server.IsStatement S) (prelude_lines plan)
      → Unchanged T S laws w (replace_in T cfg dump plan env tmp w)
  unfolding replace_in generate_argv
  replace_in-Unchanged cfg dump tmp plan env w statements =
      let prelude = in_directory tmp (codes "replace.sql") in
      let script = in_directory tmp (codes "restore.sql") in
      let text = Tools.encode_escaped T (replacement_prelude plan) in
      let v1 = (Tools.write T prelude text w).1 in
      let t1 = laws.write_target prelude text w in
      let ran = Tools.run T (generate_argv cfg script dump) env none v1 in
      let m2 = next_of ran (checked T) in
      let t2 : Server.target S m2.1 ≡ Server.target S w =
        checked_keeps T S laws (Server.target S) ran
        ∙ laws.generate_target (clean_restore_flags cfg) script dump env v1 (flags_known cfg)
        ∙ t1 in
      let v3 = (commented_if_old T plan script m2.1).1 in
      let t3 : Server.target S v3 ≡ Server.target S w =
        commented_target T S laws plan script m2.1 ∙ t2 in
      next_of-Unchanged T S laws w (Tools.write T prelude text w) _ t1 λ u written.
        next_of-Unchanged T S laws w m2 _ t2 λ c generated.
          next_of-Unchanged T S laws w (commented_if_old T plan script m2.1) _ t3 λ u' commented.
            then_done w _ λ e failed n.
              apply-Unchanged prelude script (in_database_encoding env) plan v3 statements
                (commented_content T S laws plan script prelude m2.1 (names_differ tmp)
                  ∙ checked_keeps T S laws (Server.content S prelude) ran
                  ∙ laws.generate_content_other (clean_restore_flags cfg) script dump prelude env v1
                      (flags_known cfg) (names_differ tmp)
                  ∙ laws.write_content prelude text w u written)
                (commented-HoldsScript T S laws plan script m2.1 u'
                  (generated-HoldsScript cfg script dump env v1 c generated) commented)
                e failed n
              ∙ t3

  removing-Unchanged :
      {A : Type 0} (w : Tools.World T) (tmp : Text) (m : Result A × Tools.World T)
      → Unchanged T S laws w m
      → Unchanged T S laws w (removing T tmp m)
  removing-Unchanged w tmp (r, v) h = λ e q n. laws.remove_directory_target tmp v ∙ h e q n

  -- When a restore that replaces objects of the target raises anything but a time-out, the target
  -- database is as it was before, whichever call raised. Each line of the prelude has to be one
  -- statement for `psql`. `pg_restore --single-transaction` is assumed to write a script that ends
  -- in its only COMMIT, `psql` to run the statements of both files in one session, to stop at the
  -- first error and to exit with an error then, and the server to roll an open transaction back.
  pub restore_replacing_atomic :
      (cfg : PostgresConfig) (parent dump : Text) (plan : Replacement) (env : Dict Text)
      (w v : Tools.World T) (e : Exn)
      → All (Server.IsStatement S) (prelude_lines plan)
      → restore_replacing T cfg parent dump plan env w ≡ (raised e, v)
      → e ≢ time_out
      → Server.target S v ≡ Server.target S w
  unfolding restore_replacing
  restore_replacing_atomic cfg parent dump plan env w v e statements h n =
      let dir = Tools.temporary_directory T parent w in
      let u : Unchanged T S laws w (restore_replacing T cfg parent dump plan env w) =
        next_of-Unchanged T S laws w dir _ (laws.temporary_directory_target parent w) λ tmp made.
          removing-Unchanged w tmp (replace_in T cfg dump plan env tmp dir.1) λ x failed k.
            replace_in-Unchanged cfg dump tmp plan env dir.1 statements x failed k
            ∙ laws.temporary_directory_target parent w in
      sym (ap (λ r. Server.target S r.1) h) ∙ u e (ap (λ r. r.0) h) n

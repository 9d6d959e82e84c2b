-- ===== src/MariaDb/Dump/Complete.antt =====
-- What a dump that is staged without an error consists of.
use cs_backup_helper.Base.{
  ◌≡◌, ◌≢◌, ◌⊎◌, sym, ap, ◌∙◌, subst, Bool, true, false, not, Bool-cases, inl, inr, ℕ, ◌==◌, Option,
  none, [], ◌∷◌, ◌++◌, arith,
}
use cs_backup_helper.Base.Text.{Text, codes}
use cs_backup_helper.Base.Dict.{Dict}
use cs_backup_helper.Base.Result.{Result, ok, raised}
use cs_backup_helper.Runner.Engine.{StagedComponent}
use cs_backup_helper.Tools.{Completed, Tools, next_returns, returned, returning}
use mathlib.Core.List.{append-eq-nil_iff}
use cs_backup_helper.MariaDb.{
  MySqlFamilyConfig, component_name, resolve_binary, build_argv, build_routines_argv, build_env,
  needs_separate_routines,
}
use cs_backup_helper.MariaDb.Report.{only_package_errors}
use cs_backup_helper.MariaDb.Dump.{
  Passed, gave_up, dumped, is_time_out, server_version, dump_error, failed, both_passed,
  first_passed, passes, or_time_out, staged_at, stored, produce,
}

module _ (T : Tools) (is_alnum : ℕ → Bool) (which : Text → Option Text) (engine : Text)
    (cfg : MySqlFamilyConfig) where
  -- The passes that make a dump: one that succeeds, or, for a server that needs it, one without the
  -- routines that succeeds and one of the routines that succeeds or fails on the package query only.
  pub data IsDumped (env : Dict Text) : Tools.World T → Text → Tools.World T → Type 0 where
    one_pass :
        (version : Text) (c : Completed) (w v u : Tools.World T)
        → server_version T is_alnum which engine cfg env w ≡ (ok version, v)
        → needs_separate_routines version ≡ false
        → Tools.run T (build_argv cfg (resolve_binary which cfg) true) env none v ≡ (ok c, u)
        → c.returncode ≡ 0
        → IsDumped env w c.stdout u
    two_passes :
        (version : Text) (c r : Completed) (w v u t : Tools.World T)
        → server_version T is_alnum which engine cfg env w ≡ (ok version, v)
        → needs_separate_routines version ≡ true
        → Tools.run T (build_argv cfg (resolve_binary which cfg) false) env none v ≡ (ok c, u)
        → c.returncode ≡ 0
        → Tools.run T (build_routines_argv cfg (resolve_binary which cfg)) env none u ≡ (ok r, t)
        → (r.returncode ≡ 0) ⊎ (only_package_errors is_alnum T r ≡ true)
        → IsDumped env w (c.stdout ++ r.stdout) t

  -- What the `try` may leave: a component with an error, or a dump of those passes.
  abbrev IsPassed : Dict Text → Tools.World T → Passed → Tools.World T → Type 0
  IsPassed env w (gave_up c) last = StagedComponent.error c ≢ []
  IsPassed env w (dumped dump) last = IsDumped env w dump last

  dump_error_shown : (stderr : Text) → dump_error T is_alnum which engine cfg stderr ≢ []
  unfolding dump_error
  dump_error_shown stderr h = absurd (ground (arith, ((append-eq-nil_iff {p = engine}).0 h).1))

  module _ (env : Dict Text) (out : Text) (start : Tools.World T) where
    failed_passed :
        (stderr : Text) (w : Tools.World T) (p : Passed) (last : Tools.World T)
        → failed T is_alnum which engine cfg out stderr w ≡ (ok p, last)
        → IsPassed env start p last
    unfolding failed
    failed_passed stderr w p last h =
        let (_, v, _, e) = next_returns (Tools.unlink T out w) _ p last h in
        subst (λ q. IsPassed env start q last) (returned _ p v last e).0 (dump_error_shown stderr)

    -- A dump that the passes have made is what they leave.
    dumped_passed :
        (dump : Text) (w : Tools.World T) (p : Passed) (last : Tools.World T)
        → IsDumped env start dump w
        → returning (ok (dumped dump)) w ≡ (ok p, last)
        → IsPassed env start p last
    dumped_passed dump w p last made h =
        let (same, there) = returned (dumped dump) p w last h in
        subst (λ q. IsPassed env start q last) same (subst (IsDumped env start dump) there made)

    module _ (version : Text) (v u : Tools.World T) (c : Completed)
        (asked : server_version T is_alnum which engine cfg env start ≡ (ok version, v)) where
      second_passed :
          (r : Completed) (t : Tools.World T) (p : Passed) (last : Tools.World T)
          → needs_separate_routines version ≡ true
          → Tools.run T (build_argv cfg (resolve_binary which cfg) false) env none v ≡ (ok c, u)
          → c.returncode ≡ 0
          → Tools.run T (build_routines_argv cfg (resolve_binary which cfg)) env none u ≡ (ok r, t)
          → both_passed T is_alnum which engine cfg out c.stdout r t ≡ (ok p, last)
          → IsPassed env start p last
      unfolding both_passed
      second_passed r t p last separate ran done again h =
          let made = two_passes version c r start v u t asked separate ran done again in
          let after_all = dumped_passed (c.stdout ++ r.stdout) t p last in
          elim (Bool-cases (r.returncode == 0)) [
            | inl zero_code ↦ after_all (made (inl (ground arith))) (rw zero_code at h)
            | inr e ↦ elim (Bool-cases (only_package_errors is_alnum T r)) [
              | inl known ↦ after_all (made (inr known)) (rw (e, known) at h)
              | inr unknown ↦ failed_passed r.stderr t p last (rw (e, unknown) at h)
            ]
          ]

      first_passed_lem :
          (p : Passed) (last : Tools.World T)
          → Tools.run T
              (build_argv cfg (resolve_binary which cfg) (not (needs_separate_routines version)))
              env
              none
              v
            ≡ (ok c, u)
          → first_passed T is_alnum which engine cfg out env (needs_separate_routines version) c u
            ≡ (ok p, last)
          → IsPassed env start p last
      unfolding first_passed
      first_passed_lem p last ran h = elim (Bool-cases (c.returncode == 0)) [
        | inl zero_code ↦ elim (Bool-cases (needs_separate_routines version)) [
          | inl separate ↦
              let (r, t, again, later) =
                next_returns
                  (Tools.run T (build_routines_argv cfg (resolve_binary which cfg)) env none u) _ p
                  last (rw (zero_code, separate) at h) in
              second_passed r t p last separate (rw separate at ran) (ground arith) again later
          | inr whole ↦
              dumped_passed c.stdout u p last
                (one_pass version c start v u asked whole (rw whole at ran) (ground arith))
                (rw (zero_code, whole) at h)
        ]
        | inr e ↦ failed_passed c.stderr u p last (rw e at h)
      ]

    passes_passed :
        (p : Passed) (last : Tools.World T)
        → passes T is_alnum which engine cfg out env start ≡ (ok p, last)
        → IsPassed env start p last
    unfolding passes
    passes_passed p last h =
        let (version, v, asked, later) =
          next_returns (server_version T is_alnum which engine cfg env start) _ p last h in
        let (c, u, ran, settled) =
          next_returns
            (Tools.run T
              (build_argv cfg (resolve_binary which cfg) (not (needs_separate_routines version)))
              env none v)
            _ p last later in
        first_passed_lem version v u c asked p last ran settled

    caught_passed :
        (r : Result Passed × Tools.World T) (p : Passed) (last : Tools.World T)
        → (r ≡ (ok p, last) → IsPassed env start p last)
        → or_time_out T is_alnum which engine cfg out r ≡ (ok p, last)
        → IsPassed env start p last
    unfolding or_time_out
    caught_passed (ok q, w) p last f h = f h
    caught_passed (raised e, w) p last f h = elim (Bool-cases (is_time_out e)) [
      | inl timed_out ↦ failed_passed (codes "dump timed out") w p last (rw timed_out at h)
      | inr other ↦ absurd (ground (arith, ap (λ q. q.0) (rw other at h)))
    ]

  stored_dump :
      (env : Dict Text) (out : Text) (p : Passed) (c : StagedComponent)
      (start before last : Tools.World T)
      → IsPassed env start p before
      → stored T is_alnum which engine cfg out p before ≡ (ok (c ∷ []), last)
      → StagedComponent.error c ≡ []
      → (dump : Text) × IsDumped env start dump before
        × (Tools.write_gzip T out dump before ≡ (ok tt, last))
        × (StagedComponent.path c ≡ out)
  unfolding stored
  stored_dump env out (gave_up d) c start before last shown h no_error =
      let same : d ≡ c = ground (arith, (returned (d ∷ []) (c ∷ []) before last h).0) in
      absurd (shown (ap StagedComponent.error same ∙ no_error))
  stored_dump env out (dumped dump) c start before last made h no_error =
      let (_, w, wrote, e) = next_returns (Tools.write_gzip T out dump before) _ (c ∷ []) last h in
      let (staged, there) =
        returned (staged_at T is_alnum which engine cfg out [] ∷ []) (c ∷ []) w last e in
      let same : staged_at T is_alnum which engine cfg out [] ≡ c = ground (arith, staged) in
      let ended = subst (λ t. Tools.write_gzip T out dump before ≡ (ok tt, t)) there wrote in
      (dump, made, ended, sym (ap StagedComponent.path same))

  -- A component that is staged without an error is a file with a complete dump: everything that the
  -- one pass printed, or both passes, where the server's version needs a second one for the
  -- routines; each pass ended with exit code 0, or the second one reported the known problem only.
  pub produce-IsDumped :
      (environ : Dict Text) (staging_dir : Text) (c : StagedComponent) (start last : Tools.World T)
      → produce T is_alnum which engine cfg environ staging_dir start ≡ (ok (c ∷ []), last)
      → StagedComponent.error c ≡ []
      → (dump : Text) × (before : Tools.World T) × IsDumped
          (build_env environ cfg)
          start
          dump
          before
        × (Tools.write_gzip T (StagedComponent.path c) dump before ≡ (ok tt, last))
  unfolding produce
  produce-IsDumped environ staging_dir c start last h no_error =
      let out = staging_dir ++ (codes "/" ++ (component_name cfg ++ codes ".sql.gz")) in
      let env = build_env environ cfg in
      let (p, before, tried, later) =
        next_returns
          (or_time_out T is_alnum which engine cfg out
            (passes T is_alnum which engine cfg out env start))
          _ (c ∷ []) last h in
      let passed =
        caught_passed env out start (passes T is_alnum which engine cfg out env start) p before
          (passes_passed env out start p before) tried in
      let (dump, made, written, there) =
        stored_dump env out p c start before last passed later no_error in
      (dump, before, made, rw there written)

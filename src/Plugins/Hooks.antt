-- ===== src/Plugins/Hooks.antt =====
-- A hook that was registered runs after those of its phase, and only in its phase.
use cs_backup_helper.Base.{
  ◌≡◌, refl, sym, ap, ◌∙◌, inl, inr, Bool-cases, Option, none, some, List, [], ◌∷◌, ◌++◌,
  if◌then◌else◌,
}
use cs_backup_helper.Base.Text.{Text, text_eq, eq_iff}
use cs_backup_helper.Base.Dict.{Dict, lookup, lookup-insert}
use cs_backup_helper.Base.Result.{Result, ok, raised, ok-injective}
use cs_backup_helper.Plugins.{registered, register, hooks_of, call_next, call_all, run}

module _ {W H : Type 0} (call : H → W → Result (Unit {0}) × W) where
  call_all-last :
      (hooks : List H) (hook : H) (w : W)
      → call_all call (hooks ++ (hook ∷ [])) w
        ≡ call_next call (call_all call hooks w) (call_all call (hook ∷ []))
  unfolding call_all
  call_all-last [] hook w = refl
  call_all-last (first ∷ hooks) hook w = after_first (call first w) (call_all-last hooks hook)
    where
      after_first :
          (t : Result (Unit {0}) × W)
          → ((v : W)
              → call_all call (hooks ++ (hook ∷ [])) v
                ≡ call_next call (call_all call hooks v) (call_all call (hook ∷ [])))
          → call_next call t (call_all call (hooks ++ (hook ∷ [])))
            ≡ call_next call (call_next call t (call_all call hooks)) (call_all call (hook ∷ []))
      after_first (ok done, v) h = h v
      after_first (raised e, v) h = refl

  -- After a hook was registered for a phase, running the phase runs the hooks that it had and, if
  -- none of them raises, the new one; every other phase runs as before.
  run-register :
      (phase other : Text) (hook : H) (hooks after : Dict (List H)) (w : W)
      → register call phase hook hooks ≡ ok after
      → run call other after w ≡ (
          if text_eq phase other
          then call_next call (run call other hooks w) (call_all call (hook ∷ []))
          else run call other hooks w)
  unfolding register run
  run-register phase other hook hooks after w h = with_found (lookup phase hooks) refl h
    where
      with_found :
          (found : Option (List H))
          → lookup phase hooks ≡ found
          → registered call phase hook hooks found ≡ ok after
          → call_all call (hooks_of call (lookup other after)) w ≡ (
              if text_eq phase other
              then call_next call
                  (call_all call (hooks_of call (lookup other hooks)) w)
                  (call_all call (hook ∷ []))
              else call_all call (hooks_of call (lookup other hooks)) w)
      with_found none e q = cc
      with_found (some old) e q =
          let there : lookup other after
              ≡ (if text_eq phase other then some (old ++ (hook ∷ [])) else lookup other hooks) =
            ap (lookup other) (sym (ok-injective _ _ q))
            ∙ lookup-insert phase other (old ++ (hook ∷ [])) hooks in
          elim (Bool-cases (text_eq phase other)) [
            | inl t ↦
                let here : lookup other hooks ≡ some old =
                  ap (λ p. lookup p hooks) (sym ((eq_iff phase other).0 t)) ∙ e in
                let new : lookup other after ≡ some (old ++ (hook ∷ [])) = there ∙ rw t refl in
                rw (t, new, here) (call_all-last old hook w)
            | inr t ↦
                let same : lookup other after ≡ lookup other hooks = there ∙ rw t refl in
                rw (t, same) refl
          ]

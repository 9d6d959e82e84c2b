-- ===== src/Runner/Act.antt =====
-- The steps of a run: a step may raise, appends to the run's `errors`, and changes the world.
use cs_backup_helper.Base.{List, ◌++◌, ◌≡◌, refl}
use cs_backup_helper.Base.Result.{Exn, Result, ok, raised}
use cs_backup_helper.Runner.{Problem}

-- The problems noted so far and the world stay as they are when a step raises.
abbrev pub Act : Type 0 → Type 0 → Type 0
Act W A = List Problem → W → Result A × List Problem × W

module _ {W : Type 0} where
  abbrev pub done_at : {A : Type 0} → A → Act W A
  done_at a errors w = (ok a, errors, w)

  abbrev pub continue_with :
      {A B : Type 0} → Result A × List Problem × W → (A → Act W B) → Result B × List Problem × W
  continue_with (ok a, errors, w) next = next a errors w
  continue_with (raised e, errors, w) next = (raised e, errors, w)

  infixl 12 ◌>>=◌ ◌>>◌
  abbrev pub ◌>>=◌ : {A B : Type 0} → Act W A → (A → Act W B) → Act W B
  ◌>>=◌ act next errors w = continue_with (act errors w) next

  abbrev pub ◌>>◌ : {B : Type 0} → Act W (Unit {0}) → Act W B → Act W B
  act >> next = act >>= λ _. next

  -- A call outside, and a result that is at hand.
  abbrev pub calling : {A : Type 0} → (W → Result A × W) → Act W A
  calling call errors w = let (r, w') = call w in (r, errors, w')

  abbrev pub returning : {A : Type 0} → Result A → Act W A
  returning r errors w = (r, errors, w)

  abbrev pub noting : List Problem → Act W (Unit {0})
  noting problems errors w = (ok tt, errors ++ problems, w)

  -- `except Exception as exc`
  abbrev pub recovered :
      {A : Type 0} → (Exn → Act W A) → Result A × List Problem × W → Result A × List Problem × W
  recovered handler (ok a, errors, w) = (ok a, errors, w)
  recovered handler (raised e, errors, w) = handler e errors w

  abbrev pub guarded : {A : Type 0} → Act W A → (Exn → Act W A) → Act W A
  guarded act handler errors w = recovered handler (act errors w)

  -- What holds of the world after two steps in a row, whether they return or raise.
  pub continue_with-step :
      {A B : Type 0} (P R : W → Type 0) (next : A → Act W B) (first : Result A × List Problem × W)
      → P first.2
      → ((v : W) → P v → R v)
      → ((a : A) (errors : List Problem) (v : W) → first.0 ≡ ok a → P v → R (next a errors v).2)
      → R (continue_with first next).2
  continue_with-step P R next (ok a, errors, v) h weaken step = step a errors v refl h
  continue_with-step P R next (raised x, errors, v) h weaken step = weaken v h

  -- Two steps in a row return only if both do.
  pub continue_with-returned :
      {A B : Type 0} (next : A → Act W B) (first : Result A × List Problem × W) (b : B)
      (errors : List Problem) (w : W)
      → continue_with first next ≡ (ok b, errors, w)
      → (a : A) × (more : List Problem) × (v : W) × (first ≡ (ok a, more, v))
        × (next a more v ≡ (ok b, errors, w))
  continue_with-returned next (ok a, more, v) b errors w h = (a, more, v, refl, h)
  continue_with-returned next (raised x, more, v) b errors w h = cc

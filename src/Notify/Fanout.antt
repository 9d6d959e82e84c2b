-- ===== src/Notify/Fanout.antt =====
-- Every known channel gets an alert that passes the level, whichever of the others fail.
use cs_backup_helper.Base.{
  ◌≡◌, refl, sym, ap, ◌∙◌, inl, inr, Bool-cases, List, [], ◌∷◌, ◌++◌, keep_if, if◌then◌else◌,
}
use cs_backup_helper.Base.Text.{Text}
use cs_backup_helper.Base.Result.{Result}
use cs_backup_helper.Runner.Engine.{AlertEvent}
use cs_backup_helper.Notify.{Level, is_known, passes_level, deliver_to, deliver_all, notify}

append_nil : (xs : List Text) → xs ++ [] ≡ xs
append_nil [] = refl
append_nil (x ∷ xs) = ap (λ t. x ∷ t) (append_nil xs)

append_assoc : (xs ys zs : List Text) → (xs ++ ys) ++ zs ≡ xs ++ (ys ++ zs)
append_assoc [] ys zs = refl
append_assoc (x ∷ xs) ys zs = ap (λ t. x ∷ t) (append_assoc xs ys zs)

module _ {W : Type 0} (send : Text → AlertEvent → W → Result (Unit {0}) × W)
    (attempts : W → List Text)
    (attempted : (name : Text) (event : AlertEvent) (w : W)
      → attempts (send name event w).1 ≡ attempts w ++ (name ∷ [])) where
  deliver_all-attempts :
      (names : List Text) (event : AlertEvent) (w : W)
      → attempts (deliver_all send names event w) ≡ attempts w ++ keep_if is_known names
  unfolding deliver_all deliver_to
  deliver_all-attempts [] event w = sym (append_nil (attempts w))
  deliver_all-attempts (name ∷ names) event w = elim (Bool-cases (is_known name)) [
    | inl e ↦ rw e (
        deliver_all-attempts names event (send name event w).1
        ∙ ap (λ t. t ++ keep_if is_known names) (attempted name event w)
        ∙ append_assoc (attempts w) (name ∷ []) (keep_if is_known names))
    | inr e ↦ rw e (deliver_all-attempts names event w)
  ]

  -- An alert that passes the level is tried on every configured channel that is known, once and
  -- in their order, whichever of them fail; another alert is tried on none. `attempts` is assumed
  -- to list the channels that were tried.
  pub notify-attempts :
      (channels : List Text) (level : Level) (event : AlertEvent) (w : W)
      → attempts (notify send channels level event w)
        ≡ attempts w ++ (if passes_level level event.status then keep_if is_known channels else [])
  unfolding notify
  notify-attempts [] level event w = elim (Bool-cases (passes_level level event.status)) [
    | inl e ↦ rw e (sym (append_nil (attempts w)))
    | inr e ↦ rw e (sym (append_nil (attempts w)))
  ]
  notify-attempts (name ∷ names) level event w =
      elim (Bool-cases (passes_level level event.status)) [
        | inl e ↦ rw e (deliver_all-attempts (name ∷ names) event w)
        | inr e ↦ rw e (sym (append_nil (attempts w)))
      ]

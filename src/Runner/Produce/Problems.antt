-- ===== src/Runner/Produce/Problems.antt =====
-- What `_produce` reports: a problem for each component that is not whole.
use cs_backup_helper.Base.{
  ◌≡◌, ◌↔◌, refl, sym, ap, ◌∙◌, inl, inr, Bool, true, false, not, ◌&&◌, ◌||◌, Bool-cases, List, [],
  ◌∷◌, ◌++◌, any, is_empty, any-append, arith, keep_if, subst,
}
use cs_backup_helper.Base.Text.{Text, codes, text_eq, elem}
use cs_backup_helper.Base.Result.{Result, ok, raised}
use cs_backup_helper.Config.{SourceSpec}
use cs_backup_helper.Manifest.{Component, success, has_error, has_warnings, snapshot_status}
use cs_backup_helper.Storage.{Storage}
use cs_backup_helper.Runner.{Problem, source_raised}
use cs_backup_helper.Runner.Act.{Act, continue_with, ◌>>=◌, done_at, calling}
use cs_backup_helper.Runner.Engine.{StagedComponent, Engine}
use cs_backup_helper.Runner.Produce.{
  is_enabled, failed, message, error_text, with_data, staged_component, staged_components,
  remove_all, remove_new_entries, produced, taken, produce_one, produce, report_source_warnings,
  spec_component_name,
}

-- No component failed, and none has warnings.
abbrev pub whole : List Component → Bool
whole components = not (any has_error components) && not (any has_warnings components)

whole-append : (xs ys : List Component) → whole (xs ++ ys) ≡ (whole xs && whole ys)
whole-append xs ys = ground (arith, any-append has_error xs ys, any-append has_warnings xs ys)

whole-snapshot_status :
    (components : List Component)
    → (whole components ≡ true) ↔ (snapshot_status components ≡ success)
unfolding snapshot_status
whole-snapshot_status components = ground arith

append_assoc : (xs ys zs : List Problem) → (xs ++ ys) ++ zs ≡ xs ++ (ys ++ zs)
append_assoc [] ys zs = refl
append_assoc (x ∷ xs) ys zs = ap (λ t. x ∷ t) (append_assoc xs ys zs)

append-nil : (xs : List Problem) → xs ++ [] ≡ xs
append-nil [] = refl
append-nil (x ∷ xs) = ap (λ t. x ∷ t) (append-nil xs)

is_empty-nil : (xs : List Problem) → is_empty xs ≡ true → xs ≡ []
is_empty-nil [] h = refl
is_empty-nil (x ∷ xs) h = ground arith

is_empty-append : (xs ys : List Problem) → is_empty (xs ++ ys) ≡ (is_empty xs && is_empty ys)
is_empty-append [] ys = refl
is_empty-append (x ∷ xs) ys = refl

is_empty-append_right : (xs : Text) (c : _) (ys : Text) → is_empty (xs ++ (c ∷ ys)) ≡ false
is_empty-append_right [] c ys = refl
is_empty-append_right (x ∷ xs) c ys = refl

module _ {W : Type 0} where
  -- A step that returns adds problems exactly when what it gives is not whole.
  Reported :
      {A : Type 0} → (A → List Component) → List Problem → Result A × List Problem × W → Type 0
  Reported given errors (raised e, more, w) = Unit
  Reported given errors (ok a, more, w) =
      (problems : List Problem) × (more ≡ errors ++ problems)
      × (is_empty problems ≡ whole (given a))

  Reported-calling :
      {A B : Type 0} (given : B → List Component) (errors : List Problem) (r : Result A × W)
      (next : A → Act W B)
      → ((a : A) (w : W) → Reported given errors (next a errors w))
      → Reported given errors (continue_with (calling (λ _. r) errors r.1) next)
  unfolding Reported
  Reported-calling given errors (ok a, w) next h = h a w
  Reported-calling given errors (raised e, w) next h = tt

  Reported-again :
      (errors : List Problem) (problems : List Problem) (cs : List Component)
      (rest : Result (List Component) × List Problem × W)
      → is_empty problems ≡ whole cs
      → Reported (λ more. more) (errors ++ problems) rest
      → Reported (λ all. all) errors (continue_with rest (λ more. done_at (cs ++ more)))
  unfolding Reported
  Reported-again errors problems cs (raised x, other, w) e h = tt
  Reported-again errors problems cs (ok more, other, w) e (added, p, q) = (
    problems ++ added,
    p ∙ append_assoc errors problems added,
    is_empty-append problems added ∙ (rw (e, q) (sym (whole-append cs more))),
  )

  Reported-then :
      {A : Type 0} (given : A → List Component) (errors : List Problem)
      (first : Result A × List Problem × W) (rest : Act W (List Component))
      → Reported given errors first
      → ((more : List Problem) (w : W) → Reported (λ cs. cs) more (rest more w))
      → Reported
          (λ cs. cs)
          errors
          (continue_with first (λ a. rest >>= λ more. done_at (given a ++ more)))
  unfolding Reported
  Reported-then given errors (raised x, other, w) rest h k = tt
  Reported-then given errors (ok a, other, w) rest (problems, p, q) k = rw p (
      Reported-again errors problems (given a) (rest (errors ++ problems) w) q
        (k (errors ++ problems) w))

module _ (S : Storage) (E : Engine S)
    (redact_nonempty : (t : Text) → is_empty t ≡ false → is_empty (Engine.redact E t) ≡ false) where
  error_text-nonempty : (t : Text) → is_empty (error_text S E t) ≡ false
  error_text-nonempty [] = refl
  error_text-nonempty (c ∷ t) = redact_nonempty (c ∷ t) refl

  warned :
      (sc : StagedComponent)
      → is_empty (report_source_warnings sc) ≡ not (not (is_empty sc.warnings) || false)
  unfolding report_source_warnings
  warned sc = ground arith

  staged_component-Reported :
      (sc : StagedComponent) (errors : List Problem) (w : Storage.World S)
      → Reported (λ c. c ∷ []) errors (staged_component S E sc errors w)
  unfolding staged_component with_data Reported
  staged_component-Reported sc errors w =
      elim (Bool-cases (not (is_empty sc.error) || is_empty sc.path)) [
        | inl e ↦ rw e (_, refl, ground (arith, error_text-nonempty sc.error))
        | inr e ↦ rw e (
            Reported-calling (λ c. c ∷ []) errors (Engine.size_of E sc.path w) _
              (λ size v.
                Reported-calling (λ c. c ∷ []) errors (Engine.sha256_file E sc.path v) _
                  (λ hash u. (report_source_warnings sc, refl, warned sc))))
      ]

  staged_components-Reported :
      (staged : List StagedComponent) (errors : List Problem) (w : Storage.World S)
      → Reported (λ cs. cs) errors (staged_components S E staged errors w)
  unfolding staged_components Reported
  staged_components-Reported [] errors w = ([], sym (append-nil errors), refl)
  staged_components-Reported (sc ∷ staged) errors w =
      Reported-then (λ c. c ∷ []) errors (staged_component S E sc errors w)
        (staged_components S E staged) (staged_component-Reported sc errors w)
        (λ more v. staged_components-Reported staged more v)

  remove_all-errors :
      (entries : List Text) (errors : List Problem) (w : Storage.World S)
      → (remove_all S E entries errors w).1 ≡ errors
  unfolding remove_all
  remove_all-errors [] errors w = refl
  remove_all-errors (entry ∷ entries) errors w =
      same_errors (Engine.remove E entry w) (remove_all S E entries) (remove_all-errors entries)
    where
      same_errors :
          (r : Result (Unit {0}) × Storage.World S) (next : Act (Storage.World S) (Unit {0}))
          → ((more : List Problem) (v : Storage.World S) → (next more v).1 ≡ more)
          → (continue_with (calling (λ (_ : Storage.World S). r) errors w) (λ _. next)).1 ≡ errors
      same_errors (ok done, v) next h = h errors v
      same_errors (raised x, v) next h = refl

  failed-Reported :
      (errors : List Problem) (problem : Problem) (name kind error : Text)
      (t : Result (Unit {0}) × List Problem × Storage.World S)
      → t.1 ≡ errors ++ (problem ∷ [])
      → is_empty error ≡ false
      → Reported (λ cs. cs) errors (continue_with t (λ _. done_at (failed name kind error [] ∷ [])))
  unfolding Reported
  failed-Reported errors problem name kind error (raised x, more, w) e h = tt
  failed-Reported errors problem name kind error (ok done, more, w) e h =
      (problem ∷ [], e, ground (arith, h))

  taken-Reported :
      (spec : SourceSpec) (before : List Text) (staged : Result (List StagedComponent))
      (errors : List Problem) (w : Storage.World S)
      → Reported (λ cs. cs) errors (taken S E spec before staged errors w)
  unfolding remove_new_entries
  taken-Reported spec before (ok staged) errors w = staged_components-Reported staged errors w
  taken-Reported spec before (raised x) errors w =
      let name = spec_component_name S E spec in
      failed-Reported errors (source_raised name x) name spec.type (message S E x)
        (remove_new_entries S E before (errors ++ (source_raised name x ∷ [])) w)
        (remove_all-errors (keep_if (λ entry. not (elem entry before)) (Engine.entries E w)) _ w)
        (is_empty-append_right (Engine.type_name E x) _ _)

  produce_one-Reported :
      (spec : SourceSpec) (errors : List Problem) (w : Storage.World S)
      → Reported (λ cs. cs) errors (produce_one S E spec errors w)
  unfolding produce_one Reported
  produce_one-Reported spec errors w = elim (Bool-cases (not (is_enabled S E spec.enabled))) [
    | inl e ↦ rw e ([], sym (append-nil errors), refl)
    | inr e ↦ elim (Bool-cases (text_eq spec.type (codes "s3") && is_empty spec.bucket)) [
      | inl f ↦ rw (e, f) ([], sym (append-nil errors), refl)
      | inr f ↦
          let (staged, v) = produced S E (Engine.build_source E spec) w in
          rw (e, f) (taken-Reported spec (Engine.entries E w) staged errors v)
    ]
  ]

  produce-Reported :
      (specs : List SourceSpec) (errors : List Problem) (w : Storage.World S)
      → Reported (λ cs. cs) errors (produce S E specs errors w)
  unfolding produce Reported
  produce-Reported [] errors w = ([], sym (append-nil errors), refl)
  produce-Reported (spec ∷ specs) errors w =
      Reported-then (λ cs. cs) errors (produce_one S E spec errors w) (produce S E specs)
        (produce_one-Reported spec errors w) (λ more v. produce-Reported specs more v)

  -- When the sources of a job have run, no problem was noted exactly when the status that the
  -- manifest records for the components is success; `redact` is assumed to make no text empty.
  pub produce-snapshot_status :
      (specs : List SourceSpec) (w : Storage.World S) (components : List Component)
      (errors : List Problem) (w' : Storage.World S)
      → produce S E specs [] w ≡ (ok components, errors, w')
      → (errors ≡ []) ↔ (snapshot_status components ≡ success)
  unfolding Reported
  produce-snapshot_status specs w components errors w' e =
      let (problems, p, q) = subst (Reported (λ cs. cs) []) e (produce-Reported specs [] w) in
      let t = whole-snapshot_status components in
      (λ h. t.0 (sym q ∙ ap is_empty (sym p ∙ h)), λ h. p ∙ is_empty-nil problems (q ∙ t.1 h))

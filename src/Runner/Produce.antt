-- ===== src/Runner/Produce.antt =====
-- `_produce`: every source of a job gives its components.
pub mod Problems
use cs_backup_helper.Base.{
  some, Option, ◌==◌, ℕ, Bool, true, false, not, ◌&&◌, ◌||◌, List, [], ◌∷◌, ◌++◌, is_empty, keep_if,
  if◌then◌else◌,
}
use cs_backup_helper.Base.Text.{Text, codes, text_eq, elem}
use cs_backup_helper.Base.Result.{Exn, Result, ok, raised}
use cs_backup_helper.Loader.Tree.{
  Json, null_value, boolean, number, text, array, object, no_items, item, no_fields, field,
}
use cs_backup_helper.Config.{SourceSpec, Job}
use cs_backup_helper.Manifest.{Component}
use cs_backup_helper.Storage.{Storage}
use cs_backup_helper.Runner.{Problem, source_raised, component_failed, incomplete}
use cs_backup_helper.Runner.Act.{Act, done_at, calling, noting, continue_with, ◌>>=◌, ◌>>◌}
use cs_backup_helper.Runner.Engine.{StagedComponent, Engine}

abbrev or_text : Text → Text → Text
or_text first second = if is_empty first then second else first

abbrev is_database : Text → Bool
is_database type = elem type (codes "postgres" ∷ codes "mariadb" ∷ codes "mysql" ∷ [])

-- The name that a source without a built object has.
unfoldable pub default_name : SourceSpec → Text
default_name spec =
    if not (is_empty spec.name)
    then spec.name
    else if is_database spec.type
    then or_text spec.database (or_text spec.db (codes "database"))
    else spec.type

abbrev or_name : Text → Result Text → Text
or_name default (ok name) = name
or_name default (raised e) = default

-- A component that holds no data.
abbrev pub failed : Text → Text → Text → List Text → Component
failed name kind error warnings = record {
  name = name;
  kind = kind;
  size = 0;
  sha256 = [];
  error = error;
  warnings = warnings;
}

unfoldable pub report_source_warnings : StagedComponent → List Problem
report_source_warnings sc = if is_empty sc.warnings then [] else incomplete sc.name sc.warnings ∷ []

module _ (S : Storage) (E : Engine S) where
  abbrev pub name_of : Result (Engine.Source E) → Result Text
  name_of (ok source) = Engine.component_name E source
  name_of (raised e) = raised e

  unfoldable pub spec_component_name : SourceSpec → Text
  unfolding default_name
  spec_component_name spec = or_name (default_name spec) (name_of (Engine.build_source E spec))

  -- `f"{type(exc).__name__}: {_describe(exc)}"`
  abbrev pub message : Exn → Text
  message e = Engine.type_name E e ++ (codes ": " ++ Engine.describe E e)

  -- `redact(sc.error) if sc.error else "no output"`
  abbrev pub error_text : Text → Text
  error_text error = if is_empty error then codes "no output" else Engine.redact E error

  abbrev pub without_data : StagedComponent → Act (Storage.World S) Component
  without_data sc = do
    noting (component_failed sc.name (error_text sc.error) ∷ [])
    done_at (failed sc.name sc.kind (error_text sc.error) sc.warnings)

  unfoldable pub with_data : StagedComponent → Act (Storage.World S) Component
  unfolding report_source_warnings
  with_data sc = do
    size ← calling (Engine.size_of E sc.path)
    hash ← calling (Engine.sha256_file E sc.path)
    noting (report_source_warnings sc)
    done_at (record {
      name = sc.name;
      kind = sc.kind;
      size = size;
      sha256 = hash;
      error = [];
      warnings = sc.warnings;
    })

  unfoldable pub staged_component : StagedComponent → Act (Storage.World S) Component
  unfolding with_data
  staged_component sc =
      if not (is_empty sc.error) || is_empty sc.path then without_data sc else with_data sc

  unfoldable pub staged_components : List StagedComponent → Act (Storage.World S) (List Component)
  unfolding staged_component
  staged_components [] = done_at []
  staged_components (sc ∷ staged) = do
    component ← staged_component sc
    components ← staged_components staged
    done_at (component ∷ components)

  unfoldable pub remove_all : List Text → Act (Storage.World S) (Unit {0})
  remove_all [] = done_at tt
  remove_all (entry ∷ entries) = calling (Engine.remove E entry) >> remove_all entries

  unfoldable pub remove_new_entries : List Text → Act (Storage.World S) (Unit {0})
  unfolding remove_all
  remove_new_entries before errors w =
      remove_all (keep_if (λ entry. not (elem entry before)) (Engine.entries E w)) errors w

  abbrev pub produced :
      Result (Engine.Source E) → Storage.World S → Result (List StagedComponent) × Storage.World S
  produced (ok source) w = Engine.produce E source w
  produced (raised e) w = (raised e, w)

  -- What a source staged, or its failure as one component.
  abbrev pub taken :
      SourceSpec
      → List Text
      → Result (List StagedComponent)
      → Act (Storage.World S) (List Component)
  taken spec before (ok staged) = staged_components staged
  taken spec before (raised e) = do
    let name = spec_component_name spec
    noting (source_raised name e ∷ [])
    remove_new_entries before
    done_at (failed name spec.type (message e) [] ∷ [])

  -- `bool(value)`; the number 0 is the false one.
  abbrev pub truth : Json → Bool
  truth null_value = false
  truth (boolean b) = b
  truth (number n) = not (n == 0)
  truth (text t) = not (is_empty t)
  truth (array no_items) = false
  truth (array (item first rest)) = true
  truth (object no_fields) = false
  truth (object (field k v rest)) = true

  abbrev pub truth_of_text : Text → Option Json → Bool
  truth_of_text t (some (number n)) = truth (number n)
  truth_of_text t _ = not (is_empty t)

  -- `_enabled`
  unfoldable pub is_enabled : Json → Bool
  is_enabled (text t) = truth_of_text t (Engine.loads E t)
  is_enabled value = truth value

  unfoldable pub produce_one : SourceSpec → Act (Storage.World S) (List Component)
  unfolding staged_components remove_new_entries spec_component_name is_enabled
  produce_one spec errors w =
      let (staged, w') = produced (Engine.build_source E spec) w in
      if not (is_enabled spec.enabled)
      then (ok [], errors, w)
      else if text_eq spec.type (codes "s3") && is_empty spec.bucket
      then (ok [], errors, w)
      else taken spec (Engine.entries E w) staged errors w'

  unfoldable pub produce : List SourceSpec → Act (Storage.World S) (List Component)
  unfolding produce_one
  produce [] = done_at []
  produce (spec ∷ specs) = do
    components ← produce_one spec
    more ← produce specs
    done_at (components ++ more)

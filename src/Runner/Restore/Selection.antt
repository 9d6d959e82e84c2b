-- ===== src/Runner/Restore/Selection.antt =====
-- `restore_snapshot`: the selected components, and why one of them cannot be restored.
use cs_backup_helper.Base.{
  Bool, Option, none, some, List, [], ◌∷◌, ◌++◌, is_empty, is_some, if◌then◌else◌,
}
use cs_backup_helper.Base.Text.{Text}
use cs_backup_helper.Base.Dict.{Dict, lookup, insert}
use cs_backup_helper.Base.Sort.{sort_asc}
use cs_backup_helper.Config.{SourceSpec}
use cs_backup_helper.Manifest.{Component, has_error, Manifest}

-- `{_spec_component_name(s): s for s in job.sources}`: the last source of a name.
unfoldable pub specs_by_name :
    (SourceSpec → Text) → List SourceSpec → Dict SourceSpec → Dict SourceSpec
specs_by_name name_of [] specs = specs
specs_by_name name_of (spec ∷ sources) specs =
    specs_by_name name_of sources (insert (name_of spec) spec specs)

unfoldable pub components_by_name : List Component → Dict Component → Dict Component
components_by_name [] by_name = by_name
components_by_name (c ∷ components) by_name =
    components_by_name components (insert c.name c by_name)

-- Why a selected name cannot be restored.
pub data Refusal : Type 0 where
  not_in_snapshot : Text → Refusal
  holds_no_data : Text → Text → Refusal
  no_source : Text → Refusal

abbrev pub refusal_of : Dict SourceSpec → Text → Option Component → List Refusal
refusal_of specs name none = not_in_snapshot name ∷ []
refusal_of specs name (some c) =
    if has_error c
    then holds_no_data name c.error ∷ []
    else if is_some (lookup name specs)
    then []
    else no_source name ∷ []

unfoldable pub refusal : Dict Component → Dict SourceSpec → Text → List Refusal
refusal by_name specs name = refusal_of specs name (lookup name by_name)

unfoldable pub refusals : Dict Component → Dict SourceSpec → List Text → List Refusal
unfolding refusal
refusals by_name specs [] = []
refusals by_name specs (name ∷ names) = refusal by_name specs name ++ refusals by_name specs names

unfoldable pub only_is_restorable : List Text → Manifest → Dict SourceSpec → Bool
unfolding refusals components_by_name
only_is_restorable only m specs =
    is_empty (refusals (components_by_name m.components []) specs (sort_asc (λ name. name) only))

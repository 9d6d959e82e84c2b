-- ===== src/Loader/Apply.antt =====
-- config/loader.py: the layers of `load_config`, from the base to the overrides.
pub mod Secrets
use cs_backup_helper.Base.{
  ℕ, ◌+◌, ◌==◌, leb, Bool, true, false, not, ◌&&◌, ◌||◌, Option, none, some, List, [], ◌∷◌, ◌++◌,
  map, keep_if, is_empty, drop, if◌then◌else◌,
}
use cs_backup_helper.Base.Text.{Text, codes, elem, starts_with}
use cs_backup_helper.Base.Words.{put_first, find}
use cs_backup_helper.Base.Dict.{Dict, lookup}
use cs_backup_helper.Base.Result.{
  Exn, key_error, value_error, config_error, Result, ok, raised, ◌>>=◌,
}
use cs_backup_helper.Loader.Tree.{Json, object, Fields, no_fields, deep_merge, interpolate}
use cs_backup_helper.Loader.Overrides.{coerce}
use cs_backup_helper.Loader.Schema.{override_kind}
use cs_backup_helper.Loader.Paths.{segment, set_path}

-- `s.lower()` over ASCII.
abbrev pub lower : Text → Text
lower = map (λ c. if leb b'A' c && leb c b'Z' then c + 32 else c)

-- `s.split("__")`
unfoldable pub split_double : Text → List Text
split_double [] = [] ∷ []
split_double (c ∷ []) = (c ∷ []) ∷ []
split_double (c ∷ d ∷ s) =
    let after = split_double s in
    let next = split_double (d ∷ s) in
    if (c == b'_') && (d == b'_') then [] ∷ after else put_first c next

abbrev pub control_vars : List Text
control_vars =
    codes "BACKUP_CONFIG_JSON" ∷ codes "BACKUP_CONFIG_JSON_BASE64" ∷ codes "BACKUP_CONFIG_FILE" ∷ []

-- The path that a variable overrides; none if it overrides nothing.
unfoldable pub override_path : Text → List Text
unfolding starts_with find split_double
override_path key =
    if not (starts_with (codes "BACKUP_") key) || elem key control_vars
    then []
    else elim (find (codes "__") key) [
      | none ↦ []
      | some at ↦ map lower (keep_if (λ seg. not (is_empty seg)) (split_double (drop 7 key)))
    ]

module _ (loads : Text → Option Json) where
  unfoldable pub apply_override : Text → Text → Json → Json
  unfolding override_path set_path segment coerce override_kind
  apply_override key value base =
      let path = override_path key in
      if is_empty path
      then base
      else set_path (map segment path) (coerce loads value (override_kind path)) base

  unfoldable pub apply_overrides : Dict Text → Json → Json
  unfolding apply_override
  apply_overrides [] base = base
  apply_overrides ((key, value) ∷ env) base = apply_overrides env (apply_override key value base)

  -- The rest is outside: the bytes of a base64 text as text, the file at a path, and YAML.
  module _ (b64decode : Text → Option Text) (read_text : Text → Option Text)
      (safe_load : Text → Option Json) where
    abbrev pub as_object : Option Json → Result Fields
    as_object (some (object o)) = ok o
    as_object other = raised config_error

    abbrev pub parsed_inline : Option Text → Result (Option Fields)
    parsed_inline none = raised config_error
    parsed_inline (some raw) = as_object (loads raw) >>= λ o. ok (some o)

    -- `_read_inline_json`: an empty base64 text counts as none.
    unfoldable pub read_inline_json : Dict Text → Result (Option Fields)
    unfolding lookup
    read_inline_json env = elim (lookup (codes "BACKUP_CONFIG_JSON") env) [
      | some raw ↦ parsed_inline (some raw)
      | none ↦ elim (lookup (codes "BACKUP_CONFIG_JSON_BASE64") env) [
        | none ↦ ok none
        | some raw ↦ if is_empty raw then ok none else parsed_inline (b64decode raw)
      ]
    ]

    -- `_read_config_file`
    unfoldable pub read_config_file : Text → Result Fields
    read_config_file path = elim (read_text path) [
      | none ↦ raised config_error
      | some content ↦ as_object (safe_load content)
    ]

    abbrev pub over_base : Fields → Option Fields → Fields
    over_base base none = base
    over_base base (some inline) = deep_merge base inline

    abbrev pub file_base : Option Text → Result Fields
    file_base none = ok no_fields
    file_base (some path) =
        if is_empty path
        then ok no_fields
        else read_config_file path >>= λ o. ok (deep_merge no_fields o)

    unfoldable pub load_base : Dict Text → Result Fields
    unfolding lookup read_inline_json read_config_file deep_merge
    load_base env = file_base (lookup (codes "BACKUP_CONFIG_FILE") env) >>= λ base.
        read_inline_json env >>= λ inline. ok (over_base base inline)

    -- `except MissingEnvVar`, a KeyError.
    abbrev pub missing_as_config_error : Result Json → Result Json
    missing_as_config_error (ok v) = ok v
    missing_as_config_error (raised key_error) = raised config_error
    missing_as_config_error (raised e) = raised e

    -- `load_config`; the validation is a parameter, and so is what it gives.
    unfoldable pub load_config : {C : Type 0} → (Json → Option C) → Dict Text → Result C
    unfolding load_base interpolate apply_overrides
    load_config validate env = load_base env >>= λ base.
        missing_as_config_error (interpolate (object base) env) >>= λ tree.
        elim (validate (apply_overrides env tree)) [ none ↦ raised config_error | some c ↦ ok c ]

-- ===== src/Plugins.antt =====
-- plugins/hooks.py and plugins/registry.py: lifecycle hooks, and the class of a source.
pub mod Hooks
pub mod Tests
use cs_backup_helper.Base.{Option, none, some, List, [], ◌∷◌, ◌++◌}
use cs_backup_helper.Base.Text.{Text, codes}
use cs_backup_helper.Base.Dict.{Dict, lookup, insert}
use cs_backup_helper.Base.Result.{Exn, value_error, source_not_found, Result, ok, raised}

-- A hook is a call with the context of its phase, which may raise.
module _ {W H : Type 0} (call : H → W → Result (Unit {0}) × W) where
  -- `HookRegistry()`
  abbrev pub no_hooks : Dict (List H)
  no_hooks =
      (codes "pre_backup", [])
      ∷ (codes "post_backup", [])
      ∷ (codes "pre_dump", [])
      ∷ (codes "post_dump", [])
      ∷ (codes "pre_restore", [])
      ∷ (codes "post_restore", [])
      ∷ []

  abbrev pub registered : Text → H → Dict (List H) → Option (List H) → Result (Dict (List H))
  registered phase hook hooks none = raised value_error
  registered phase hook hooks (some old) = ok (insert phase (old ++ (hook ∷ [])) hooks)

  unfoldable pub register : Text → H → Dict (List H) → Result (Dict (List H))
  register phase hook hooks = registered phase hook hooks (lookup phase hooks)

  abbrev pub hooks_of : Option (List H) → List H
  hooks_of none = []
  hooks_of (some found) = found

  abbrev pub call_next : Result (Unit {0}) × W → (W → Result (Unit {0}) × W) → Result (Unit {0}) × W
  call_next (ok done, w) next = next w
  call_next (raised e, w) next = (raised e, w)

  -- The hooks one after the other; one that raises is the last.
  unfoldable pub call_all : List H → W → Result (Unit {0}) × W
  call_all [] w = (ok tt, w)
  call_all (hook ∷ hooks) w = call_next (call hook w) (call_all hooks)

  unfoldable pub run : Text → Dict (List H) → W → Result (Unit {0}) × W
  unfolding call_all
  run phase hooks = call_all (hooks_of (lookup phase hooks))

abbrev pub or_not_found : {C : Type 0} → Option C → Result C
or_not_found none = raised source_not_found
or_not_found (some found) = ok found

abbrev pub or_plugin : {C : Type 0} → Option C → Option C → Result C
or_plugin none plugin = or_not_found plugin
or_plugin (some builtin) plugin = ok builtin

-- A built-in source wins over a plugin of the same name.
unfoldable pub get_source_class : {C : Type 0} → Text → Dict C → Dict C → Result C
get_source_class name builtins plugins = or_plugin (lookup name builtins) (lookup name plugins)

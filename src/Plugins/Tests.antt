-- ===== src/Plugins/Tests.antt =====
-- A hook that gates the backup.
use cs_backup_helper.Base.{◌≡◌, refl, List, [], ◌∷◌, ◌++◌}
use cs_backup_helper.Base.Text.{Text, codes, text_eq}
use cs_backup_helper.Base.Dict.{Dict, lookup, insert}
use cs_backup_helper.Base.Result.{Result, ok}
use cs_backup_helper.Plugins.{no_hooks, run}

abbrev logging : Text → List Text → Result (Unit {0}) × List Text
logging name tried = (ok tt, tried ++ (name ∷ []))

abbrev one_hook : Dict (List Text)
one_hook = insert (codes "pre_backup") (codes "check" ∷ []) (no_hooks logging)

gate_test : run logging (codes "pre_backup") one_hook [] ≡ (ok tt, codes "check" ∷ [])
unfolding run lookup insert text_eq
gate_test = refl

-- ===== src/Loader.antt =====
-- config/interpolation.py and the merging of config/loader.py.
pub mod Placeholders
pub mod Tree
pub mod Overrides
pub mod Paths
pub mod Schema
pub mod Apply
pub mod Tests
use cs_backup_helper.Base.{
  ℕ, zero, suc, Bool, true, false, not, ◌&&◌, Option, none, some, List, [], ◌∷◌, ◌++◌, length,
  is_empty, ◌==◌, if◌then◌else◌,
}
use cs_backup_helper.Base.Text.{Text}
use cs_backup_helper.Base.Dict.{Dict, lookup}
use cs_backup_helper.Base.Result.{Exn, key_error, Result, ok, raised, ◌>>=◌}

abbrev pub consed : ℕ → Option (Text × Text) → Option (Text × Text)
consed c none = none
consed c (some (name, after)) = some (c ∷ name, after)

-- What precedes the first `}`, and what follows it.
unfoldable pub up_to_close : Text → Option (Text × Text)
up_to_close [] = none
up_to_close (c ∷ t) =
    let rest = consed c (up_to_close t) in if c == b'}' then some ([], t) else rest

abbrev pub named : Option (Text × Text) → Option (Text × Text)
named none = none
named (some ([], after)) = none
named (some (c ∷ name, after)) = some (c ∷ name, after)

abbrev pub after_dollar : Text → Option (Text × Text)
unfolding up_to_close
after_dollar [] = none
after_dollar (c ∷ t) = if c == b'{' then named (up_to_close t) else none

-- A match of `\$\{([^}]+)\}` at the start of a text: the name, and what follows.
unfoldable pub placeholder : Text → Option (Text × Text)
unfolding up_to_close after_dollar
placeholder [] = none
placeholder (c ∷ t) = if c == b'$' then after_dollar t else none

abbrev pub value_of : Option Text → Result Text
value_of none = raised key_error
value_of (some value) = ok value

abbrev pub put_before : Text → Result Text → Result Text
put_before start (ok rest) = ok (start ++ rest)
put_before start (raised e) = raised e

abbrev pub replaced : Result Text → Result Text → Result Text
replaced (raised e) rest = raised e
replaced (ok value) rest = put_before value rest

-- A code point that starts no placeholder stays; a placeholder becomes its value.
abbrev pub continued :
    ℕ → Dict Text → Option (Text × Text) → Result Text → (Text → Result Text) → Result Text
continued c env none rest next = put_before (c ∷ []) rest
continued c env (some (name, after)) rest next = replaced (value_of (lookup name env)) (next after)

-- `_PLACEHOLDER.sub(_replace, text)`; the fuel is the length of the text.
unfoldable pub substitute : ℕ → Dict Text → Text → Result Text
unfolding placeholder
substitute fuel env [] = ok []
substitute zero env (c ∷ t) = ok (c ∷ t)
substitute (suc fuel) env (c ∷ t) =
    continued c env (placeholder (c ∷ t)) (substitute fuel env t) (substitute fuel env)

unfoldable pub interpolate_str : Text → Dict Text → Result Text
unfolding substitute
interpolate_str text env = substitute (length text) env text

-- ===== src/Archive.antt =====
-- archive/bundle.py: which members of a bundle are extracted.
pub mod Inside
pub mod Tests
use cs_backup_helper.Base.{
  ℕ, ◌==◌, Bool, true, false, not, ◌&&◌, ◌||◌, List, [], ◌∷◌, keep_if, any, is_empty, if◌then◌else◌,
}
use cs_backup_helper.Base.Text.{Text, codes, text_eq, starts_with, elem}
use cs_backup_helper.Base.Words.{split_at}

-- A component that `PurePosixPath` keeps: it drops empty ones and `.`.
unfoldable pub is_part : Text → Bool
unfolding text_eq
is_part part = not (is_empty part) && not (text_eq part (codes "."))

-- `pure.parts`, without the root.
unfoldable pub parts : Text → List Text
unfolding split_at is_part
parts name = keep_if is_part (split_at b'/' name)

-- `PurePosixPath(name).is_absolute()`
unfoldable pub is_absolute : Text → Bool
unfolding starts_with
is_absolute name = starts_with (codes "/") name

abbrev pub is_separator : ℕ → Bool
is_separator c = (c == b'/') || (c == b'\\')

-- `PureWindowsPath(name).is_absolute()`, as of Python 3.14: a drive and its root, or a share.
abbrev pub is_windows_absolute : Text → Bool
is_windows_absolute [] = false
is_windows_absolute (a ∷ []) = false
is_windows_absolute (a ∷ b ∷ []) = is_separator a && is_separator b
is_windows_absolute (a ∷ b ∷ c ∷ name) =
    is_separator a && is_separator b || (b == b':') && is_separator c

-- `_is_safe_member`
unfoldable pub is_safe_member : Text → Bool
unfolding is_absolute parts text_eq
is_safe_member name =
    if is_absolute name || is_windows_absolute name
    then false
    else not (elem (codes "..") (parts name))

-- The members that `extract_bundle` hands to the extraction.
unfoldable pub safe_members : List Text → List Text
unfolding is_safe_member
safe_members names = keep_if is_safe_member names

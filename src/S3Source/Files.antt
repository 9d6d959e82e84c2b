-- ===== src/S3Source/Files.antt =====
-- sources/s3_bucket.py: the files of a mirror, by the keys of its objects.
use cs_backup_helper.Base.{
  Bool, not, ◌&&◌, ◌||◌, Option, none, some, ◌++◌, any, is_empty, if◌then◌else◌,
}
use cs_backup_helper.Base.Text.{Text, codes, elem, starts_with}
use cs_backup_helper.Base.Words.{join}
use cs_backup_helper.Base.Dict.{Dict, lookup, insert}
use cs_backup_helper.Base.Result.{Result, ok, raised, os_error}
use cs_backup_helper.Archive.{parts, is_absolute}

-- Whether `objects_dir / key` stays in the directory; a key with `..` counts as one that does not.
unfoldable pub is_inside : Text → Bool
unfolding parts is_absolute
is_inside key = not (is_absolute key) && not (elem (codes "..") (parts key))

-- The path of a key's file below `objects_dir`: several keys may share one.
unfoldable pub dest : Text → Text
unfolding parts join
dest key = join (codes "/") (parts key)

-- A directory stands where the file would, or a file where one of its directories would.
abbrev pub clashes : Text → Dict Text → Bool
clashes path files =
    any (λ (file, _). starts_with (file ++ codes "/") path || starts_with (path ++ codes "/") file)
      files

-- `dest.parent.mkdir(...)` and `dest.write_bytes(body)`; a file outside the directory is not among
-- those that the snapshot takes.
unfoldable pub write_bytes : Text → Text → Dict Text → Result (Dict Text)
unfolding starts_with insert
write_bytes key body files =
    if not (is_inside key)
    then ok files
    else if is_empty (dest key) || clashes (dest key) files
    then raised os_error
    else ok (insert (dest key) body files)

abbrev pub body_or : Option Text → Result Text
body_or none = raised os_error
body_or (some body) = ok body

-- `(objects_dir / key).read_bytes()`
unfoldable pub read_bytes : Text → Dict Text → Result Text
unfolding lookup
read_bytes key files = if is_inside key then body_or (lookup (dest key) files) else raised os_error

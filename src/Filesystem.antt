-- ===== src/Filesystem.antt =====
-- sources/filesystem.py: a directory tree as one archive.
pub mod Glob
pub mod Pruning
pub mod Archive
pub mod Listed
pub mod Tests
use cs_backup_helper.Base.{
  ◌==◌, ℕ, ◌-◌, ◌+◌, leb, Bool, true, false, not, ◌&&◌, ◌||◌, Option, none, some, List, [], ◌∷◌,
  ◌++◌, map, any, keep_if, length, take, is_empty, if◌then◌else◌,
}
use cs_backup_helper.Base.Text.{Text, codes, text_eq, text_lt, strip_suffix}
use cs_backup_helper.Base.Words.{split_at, strip, decimal_from}
use cs_backup_helper.Base.Sort.{sort_asc}
use cs_backup_helper.Base.Result.{Exn, os_error, Result, ok, raised}
use cs_backup_helper.Filesystem.Glob.{fnmatch}

-- Without `subdirs` there is one root, the path itself.
pub record FilesystemConfig : Type 0 where
  pub name : Text
  pub path : Text
  pub subdirs : List Text
  pub exclude : List Text

-- `_csv_or_list` on a text: without a part, `subdirs` is unset and `exclude` is empty.
unfoldable pub csv_parts : Text → List Text
unfolding split_at strip
csv_parts v = keep_if (λ part. not (is_empty part)) (map strip (split_at b',' v))

-- What the system says to opening a path: it can be read, or not, for a reason (`exc.strerror`).
pub data Access : Type 0 where
  granted : Access
  refused : Text → Access

abbrev pub is_granted : Access → Bool
is_granted granted = true
is_granted (refused reason) = false

-- The entries of a directory: a file that is a regular one or not, a directory that can be listed or
-- not, with its entries, and a link to a directory, which `os.walk` does not enter.
pub data Entries : Type 0 where
  end : Entries
  file : Text → Bool → Entries → Entries
  directory : Text → Access → Entries → Entries → Entries
  dir_link : Text → Entries → Entries

-- A path relative to the configured one; none is that one itself.
abbrev pub Place : Type 0
Place = Option Text

abbrev pub below : Place → Text → Text
below none name = name
below (some dir) name = dir ++ (b'/' ∷ name)

-- `_unreadable_dir` below the configured path: what it adds to `skipped`.
abbrev pub unreadable_dir : Text → Text → Text → List Text
unreadable_dir name rel reason =
    if text_eq name (codes "lost+found")
    then []
    else (rel ++ (codes "/ (directory not readable: " ++ (reason ++ codes ")"))) ∷ []

abbrev pub within : Text → Text → Access → List Text → List Text
within name rel granted found = found
within name rel (refused reason) found = unreadable_dir name rel reason

module _ (exclude : List Text) where
  unfoldable pub is_excluded : Text → Bool
  unfolding fnmatch
  is_excluded arcname = any (fnmatch arcname) exclude

  -- `pat.endswith("/*") and fnmatch.fnmatch(rel, pat[:-2])`
  abbrev pub prunes_by : Text → Option Text → Bool
  prunes_by rel none = false
  prunes_by rel (some start) = fnmatch rel start

  unfoldable pub is_pruned : Text → Bool
  unfolding strip_suffix fnmatch text_eq
  is_pruned rel = any (λ pat. prunes_by rel (strip_suffix (codes "/*") pat)) exclude

  -- The archive names that the walk of a directory collects.
  unfoldable pub members : Place → Entries → List Text
  unfolding is_excluded is_pruned
  members place end = []
  members place (file name is_regular rest) =
      let more = members place rest in
      if is_regular && not (is_excluded (below place name)) then below place name ∷ more else more
  members place (directory name access inside rest) =
      let more = members place rest in
      let found = members (some (below place name)) inside in
      if is_pruned (below place name) || not (is_granted access) then more else found ++ more
  members place (dir_link name rest) = members place rest

  -- What the walk of a directory reports by `onerror`.
  unfoldable pub unreadable : Place → Entries → List Text
  unfolding is_pruned text_eq
  unreadable place end = []
  unreadable place (file name is_regular rest) = unreadable place rest
  unreadable place (directory name access inside rest) =
      let more = unreadable place rest in
      let found = unreadable (some (below place name)) inside in
      if is_pruned (below place name)
      then more
      else within name (below place name) access found ++ more
  unreadable place (dir_link name rest) = unreadable place rest

-- `path.name`
abbrev pub last_part : Text → Text
last_part [] = []
last_part (c ∷ s) =
    let rest = last_part s in
    if any (λ d. d == b'/') s then rest else if c == b'/' then s else c ∷ s

-- What stands at a root: the path itself or one of `subdirs`; a root that is missing is skipped.
pub data Root : Type 0 where
  missing : Root
  listed : Place → Entries → Root
  not_listed : Place → Text → Root

-- `_collect` from its roots: the members in order, and what was skipped; an unreadable path raises.
abbrev pub collected :
    Result (List Text × List Text) → List Text → List Text → Result (List Text × List Text)
collected (raised e) arcnames skipped = raised e
collected (ok (more, others)) arcnames skipped = ok (arcnames ++ more, skipped ++ others)

unfoldable pub collect_roots : List Text → List Root → Result (List Text × List Text)
unfolding members unreadable text_eq
collect_roots exclude [] = ok ([], [])
collect_roots exclude (missing ∷ roots) = collect_roots exclude roots
collect_roots exclude (listed place entries ∷ roots) =
    collected (collect_roots exclude roots) (members exclude place entries)
      (unreadable exclude place entries)
collect_roots exclude (not_listed none reason ∷ roots) = raised os_error
collect_roots exclude (not_listed (some dir) reason ∷ roots) =
    collected (collect_roots exclude roots) [] (unreadable_dir (last_part dir) dir reason)

abbrev pub in_order : Result (List Text × List Text) → Result (List Text × List Text)
in_order (raised e) = raised e
in_order (ok (arcnames, skipped)) = ok (sort_asc (λ name. name) arcnames, skipped)

unfoldable pub collect : List Text → List Root → Result (List Text × List Text)
unfolding collect_roots sort_asc text_lt
collect exclude roots = in_order (collect_roots exclude roots)

-- `_write_deterministic_targz`: the files that are archived, and the reports of the others.
unfoldable pub written : (Text → Access) → List Text → List Text
written opens arcnames = keep_if (λ name. is_granted (opens name)) arcnames

abbrev pub unreadable_file : Text → Access → List Text
unreadable_file name granted = []
unreadable_file name (refused reason) =
    (name ++ (codes " (file not readable: " ++ (reason ++ codes ")"))) ∷ []

unfoldable pub not_written : (Text → Access) → List Text → List Text
not_written opens [] = []
not_written opens (name ∷ arcnames) =
    unreadable_file name (opens name) ++ not_written opens arcnames

-- `_summarize`
unfoldable pub summarize : List Text → List Text
unfolding decimal_from
summarize skipped =
    if leb (length skipped) 20
    then skipped
    else take 20 skipped
      ++ ((codes "... and "
            ++ (decimal_from (length skipped) (length skipped - 20) ++ codes " more"))
          ∷ [])

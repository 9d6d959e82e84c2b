-- ===== src/Filesystem/Tests.antt =====
-- sources/filesystem.py, run on a small tree.
use cs_backup_helper.Filesystem.Listed.{RootListed}
use cs_backup_helper.Base.{All, List, [], ◌∷◌, true, false, none, some, ◌≡◌, refl}
use cs_backup_helper.Base.Text.{Text, codes}
use cs_backup_helper.Base.Result.{ok, raised, os_error}
use cs_backup_helper.Filesystem.{
  sort_asc, collect_roots, FilesystemConfig, csv_parts, Access, granted, refused, Entries, end,
  file, directory, dir_link, missing, listed, not_listed, is_pruned, members, collect,
}
use cs_backup_helper.Filesystem.Glob.{fnmatch}
use cs_backup_helper.Filesystem.Pruning.{all_members, members-eq-all_members}
use cs_backup_helper.Filesystem.Archive.{produce, archive, produce_complete}

abbrev exclude : List Text
exclude = codes "cache/*" ∷ codes "*.log" ∷ []

-- Uploads with a cache that is not to be read, a log, a private directory and a link.
abbrev uploads : Entries
uploads =
    directory (codes "cache") (refused (codes "Permission denied")) (file (codes "x") true end) (
      file (codes "z.txt") true (
        directory (codes "img") granted
          (file (codes "b.png") true (file (codes "run.log") true (file (codes "pipe") false end)))
          (dir_link (codes "old") end)))

abbrev private : Entries
private = directory (codes "keys") (refused (codes "Permission denied")) end uploads

abbrev site : FilesystemConfig
site = record { name = codes "site"; path = codes "/srv"; subdirs = []; exclude = exclude }

abbrev opens : Text → Access
opens name = granted

abbrev collected_names : List Text
collected_names = codes "img/b.png" ∷ codes "z.txt" ∷ []

csv_test : csv_parts (codes " a, ,b ,") ≡ codes "a" ∷ codes "b" ∷ []
unfolding csv_parts
csv_test = refl

-- `*` crosses directories; a class may start with a closing bracket, and one left open is literal.
glob_test :
    (fnmatch (codes "img/run.log") (codes "*.log") ≡ true)
    × (fnmatch (codes "a-c") (codes "?[]!-]c") ≡ true)
    × (fnmatch (codes "b5") (codes "b[0-4]") ≡ false)
    × (fnmatch (codes "b5") (codes "b[!0-4]") ≡ true)
    × (fnmatch (codes "b[5") (codes "b[5") ≡ true)
unfolding fnmatch
glob_test = (refl, refl, refl, refl, refl)

pruned_test : (is_pruned exclude (codes "cache") ≡ true) × (is_pruned exclude (codes "img") ≡ false)
unfolding is_pruned
pruned_test = (refl, refl)

collect_test : collect exclude (listed none uploads ∷ []) ≡ ok (collected_names, [])
unfolding collect
collect_test = refl

unreadable_test :
    collect exclude (missing ∷ listed (some (codes "w")) private ∷ [])
    ≡ ok (
      codes "w/img/b.png" ∷ codes "w/z.txt" ∷ [],
      codes "w/keys/ (directory not readable: Permission denied)"
          ∷ codes "w/cache/ (directory not readable: Permission denied)"
          ∷ [],
    )
unfolding collect
unreadable_test = refl

not_listed_test :
    collect exclude (not_listed none (codes "Permission denied") ∷ []) ≡ raised os_error
unfolding collect
not_listed_test = refl

members-eq-all_members_example : members exclude none uploads ≡ all_members exclude none uploads
members-eq-all_members_example = members-eq-all_members exclude none uploads

produce_complete_example :
    All (RootListed exclude) (listed none uploads ∷ [])
    × ((found : List Text) × (collect_roots exclude (listed none uploads ∷ []) ≡ ok (found, []))
        × (collected_names ≡ sort_asc (λ name. name) found))
unfolding produce
produce_complete_example =
    produce_complete site true (listed none uploads ∷ []) opens (codes "/tmp")
      (archive site (codes "/tmp/site.tar.gz") []) collected_names refl refl refl

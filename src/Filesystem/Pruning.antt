-- ===== src/Filesystem/Pruning.antt =====
-- A directory that is not entered has nothing that the archive would hold.
use cs_backup_helper.Base.{
  ◌≡◌, refl, sym, subst, true, not, ◌&&◌, Bool-cases, some, Option-cases, List, [], ◌∷◌, ◌++◌,
  any-In, In-any, inl, inr, if◌then◌else◌, arith,
}
use cs_backup_helper.Base.Text.{Text, codes, strip_suffix}
use cs_backup_helper.Filesystem.{
  Entries, end, file, directory, dir_link, is_granted, Place, below, is_excluded, is_pruned,
  prunes_by, members,
}
use cs_backup_helper.Filesystem.Glob.{fnmatch}
use cs_backup_helper.Filesystem.Glob.Below.{fnmatch-below, strip_suffix-append}
use mathlib.Core.List.{append_assoc}

-- The regular files of a tree that are not excluded, where every directory that can be is entered.
unfoldable pub all_members : List Text → Place → Entries → List Text
all_members exclude place end = []
all_members exclude place (file name is_regular rest) =
    let more = all_members exclude place rest in
    if is_regular && not (is_excluded exclude (below place name))
    then below place name ∷ more
    else more
all_members exclude place (directory name access inside rest) =
    let more = all_members exclude place rest in
    let found = all_members exclude (some (below place name)) inside in
    if is_granted access then found ++ more else more
all_members exclude place (dir_link name rest) = all_members exclude place rest

module _ (exclude : List Text) where
  -- What stands below a pruned directory is excluded.
  below_pruned :
      (dir more : Text)
      → is_pruned exclude dir ≡ true
      → is_excluded exclude (dir ++ (b'/' ∷ more)) ≡ true
  unfolding is_pruned is_excluded
  below_pruned dir more h =
      let (pat, m, e) =
        In-any (λ (p : Text). prunes_by exclude dir (strip_suffix (codes "/*") p)) exclude h in
      elim (Option-cases (strip_suffix (codes "/*") pat)) [
        | inl n ↦ absurd (ground arith)
        | inr (start, q) ↦
            let pruned : fnmatch dir start ≡ true = ground arith in
            let split : pat ≡ start ++ codes "/*" = strip_suffix-append (codes "/*") pat start q in
            any-In (fnmatch (dir ++ (b'/' ∷ more))) exclude pat m (
              subst (λ p. fnmatch (dir ++ (b'/' ∷ more)) p ≡ true) (sym split)
                (fnmatch-below dir more start pruned))
      ]

  -- A place at or below a directory.
  abbrev Under : Text → Text → Type 0
  Under dir p = (name : Text) → (more : Text) × (below (some p) name ≡ dir ++ (b'/' ∷ more))

  itself-Under : (dir : Text) → Under dir dir
  itself-Under dir name = (name, refl)

  below-Under : (dir p n : Text) → Under dir p → Under dir (below (some p) n)
  below-Under dir p n u name =
      let (more, e) = u n in
      (more ++ (b'/' ∷ name), rw e (append_assoc dir (b'/' ∷ more) (b'/' ∷ name)))

  nothing_below :
      (dir p : Text) (entries : Entries)
      → is_pruned exclude dir ≡ true
      → Under dir p
      → all_members exclude (some p) entries ≡ []
  unfolding all_members
  nothing_below dir p end h u = refl
  nothing_below dir p (file name is_regular rest) h u =
      let (more, e) = u name in
      let out : is_excluded exclude (below (some p) name) ≡ true = rw e (below_pruned dir more h) in
      let later = nothing_below dir p rest h u in ground arith
  nothing_below dir p (directory name access inside rest) h u =
      let later = nothing_below dir p rest h u in
      let within = nothing_below dir (below (some p) name) inside h (below-Under dir p name u) in
      elim (Bool-cases (is_granted access)) [ inl e ↦ rw (e, within) later | inr e ↦ rw e later ]
  nothing_below dir p (dir_link name rest) h u = nothing_below dir p rest h u

  -- Not entering the directories of the `<dir>/*` excludes changes nothing: the walk collects, in the
  -- same order, just the regular files that are not excluded in all directories that can be listed.
  pub members-eq-all_members :
      (place : Place) (entries : Entries)
      → members exclude place entries ≡ all_members exclude place entries
  unfolding members all_members
  members-eq-all_members place end = refl
  members-eq-all_members place (file name is_regular rest) = rw (members-eq-all_members place rest)
  members-eq-all_members place (directory name access inside rest) =
      let dir = below place name in
      let within = members-eq-all_members (some dir) inside in
      let later = members-eq-all_members place rest in
      elim (Bool-cases (is_pruned exclude dir)) [
        | inl e ↦ rw (e, later, nothing_below dir dir inside e (itself-Under dir)) (ground arith)
        | inr e ↦ rw (e, later, within) (ground arith)
      ]
  members-eq-all_members place (dir_link name rest) = members-eq-all_members place rest

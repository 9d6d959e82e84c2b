-- ===== src/Archive/Inside.antt =====
-- What is extracted stays below the directory.
use cs_backup_helper.Base.{
  ◌≡◌, refl, false, not, Bool-cases, inl, inr, List, [], ◌∷◌, ◌++◌, keep_if, if◌then◌else◌, In,
  arith,
}
use cs_backup_helper.Base.Text.{Text, codes, text_eq, elem, eq_iff, eq_refl}
use cs_backup_helper.Base.Members.{kept_by_keep_if}
use cs_backup_helper.Base.Words.{split_at}
use cs_backup_helper.Archive.{is_part, parts, is_absolute, is_safe_member, safe_members}
use mathlib.Core.List.{append_assoc}

-- Where a system goes from a directory, innermost component first, by the components of a path: an
-- empty one and `.` stay, `..` leaves the directory, and the root has no parent but itself.
abbrev pub parent : List Text → List Text
parent [] = []
parent (part ∷ dir) = dir

unfoldable pub walk : List Text → List Text → List Text
unfolding is_part text_eq
walk dir [] = dir
walk dir (part ∷ path) =
    let here = walk dir path in
    let up = walk (parent dir) path in
    let down = walk (part ∷ dir) path in
    if not (is_part part) then here else if text_eq part (codes "..") then up else down

-- Where a name leads from a directory: an absolute one starts at the root.
unfoldable pub place_of : List Text → Text → List Text
unfolding walk is_absolute split_at
place_of dir name = walk (if is_absolute name then [] else dir) (split_at b'/' name)

walk_below :
    (dir path : List Text)
    → elem (codes "..") (keep_if is_part path) ≡ false
    → (more : List Text) × (walk dir path ≡ more ++ dir)
unfolding walk
walk_below dir [] h = ([], refl)
walk_below dir (part ∷ path) h = elim (Bool-cases (is_part part)) [
  | inr dropped ↦ rw dropped (walk_below dir path (rw dropped at h))
  | inl kept ↦ elim (Bool-cases (text_eq part (codes ".."))) [
    | inl up ↦
        absurd (ground (arith, kept, h, eq_refl (codes ".."), (eq_iff part (codes "..")).0 up))
    | inr down ↦
        let (more, e) = walk_below (part ∷ dir) path (ground arith) in
        (more ++ (part ∷ []), rw (kept, down, e, append_assoc more (part ∷ []) dir) refl)
  ]
]

-- Whatever a bundle names its members, each one that is extracted leads below the directory.
pub safe_members_inside :
    (dir names : List Text) (name : Text)
    → In name (safe_members names)
    → (more : List Text) × (place_of dir name ≡ more ++ dir)
unfolding safe_members is_safe_member place_of parts
safe_members_inside dir names name m =
    let safe = (kept_by_keep_if is_safe_member names name m).1 in
    let relative : is_absolute name ≡ false = ground arith in
    let no_parent : elem (codes "..") (parts name) ≡ false = ground arith in
    rw relative (walk_below dir (split_at b'/' name) no_parent)

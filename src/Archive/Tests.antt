-- ===== src/Archive/Tests.antt =====
-- Members of a hostile bundle.
use cs_backup_helper.Base.{◌≡◌, refl, List, [], ◌∷◌, ◌++◌, inl, inr}
use cs_backup_helper.Base.Text.{Text, codes}
use cs_backup_helper.Archive.{safe_members}
use cs_backup_helper.Archive.Inside.{place_of, safe_members_inside}

abbrev names : List Text
names =
    codes "db/app.dump"
    ∷ codes "../x"
    ∷ codes "a/../../x"
    ∷ codes "/etc/x"
    ∷ codes "c:/x"
    ∷ codes "\\\\host/x"
    ∷ codes "./..x//y"
    ∷ []

extracted : safe_members names ≡ codes "db/app.dump" ∷ codes "./..x//y" ∷ []
unfolding safe_members
extracted = refl

places :
    (place_of (codes "dest" ∷ []) (codes "./..x//y") ≡ codes "y" ∷ codes "..x" ∷ codes "dest" ∷ [])
    × (place_of (codes "dest" ∷ []) (codes "a/../../x") ≡ codes "x" ∷ [])
unfolding place_of
places = (refl, refl)

safe_members_inside_example :
    (more : List Text) × (place_of (codes "dest" ∷ []) (codes "./..x//y")
      ≡ more ++ (codes "dest" ∷ []))
unfolding safe_members
safe_members_inside_example =
    safe_members_inside (codes "dest" ∷ []) names (codes "./..x//y") (inr (inl refl))

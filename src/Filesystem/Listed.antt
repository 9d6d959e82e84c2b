-- ===== src/Filesystem/Listed.antt =====
-- A walk without a report listed every directory.
use cs_backup_helper.Base.Sort.{sort_asc}
use cs_backup_helper.Base.{
  ◌⊎◌, none, some, All, List, [], ◌∷◌, ◌++◌, true, Bool-cases, ◌≡◌, refl, ap, inl, inr, sym,
}
use cs_backup_helper.Base.Text.{Text, codes, text_eq, eq_iff}
use cs_backup_helper.Base.Result.{Result, ok, raised, ok-injective}
use cs_backup_helper.Filesystem.{
  Place, Entries, end, file, directory, dir_link, below, is_pruned, missing, listed, not_listed,
  last_part, unreadable_dir, within, unreadable, members, collected, collect_roots, in_order,
  Access, granted, refused, is_granted, Root,
}
use mathlib.Core.List.{append-eq-nil_iff}

module _ (exclude : List Text) where
  -- Every directory that the excludes do not prune is listed, at every depth: or it is named
  -- `lost+found`.
  abbrev pub AllListed : Place → Entries → Type 0
  AllListed place end = Unit
  AllListed place (file name is_regular rest) = AllListed place rest
  AllListed place (directory name access inside rest) =
      ((is_pruned exclude (below place name) ≡ true)
        ⊎ ((is_granted access ≡ true) × AllListed (some (below place name)) inside)
        ⊎ (name ≡ codes "lost+found"))
      × AllListed place rest
  AllListed place (dir_link name rest) = AllListed place rest

  abbrev pub RootListed : Root → Type 0
  RootListed missing = Unit
  RootListed (listed place entries) = AllListed place entries
  RootListed (not_listed none reason) = ⊥
  RootListed (not_listed (some dir) reason) = last_part dir ≡ codes "lost+found"

  no_report-lost_found :
      (name rel reason : Text) → unreadable_dir name rel reason ≡ [] → name ≡ codes "lost+found"
  no_report-lost_found name rel reason h = elim (Bool-cases (text_eq name (codes "lost+found"))) [
    | inl e ↦ (eq_iff name (codes "lost+found")).0 e
    | inr e ↦ let g = rw e at h in cc
  ]

  unreadable-AllListed :
      (place : Place) (entries : Entries)
      → unreadable exclude place entries ≡ []
      → AllListed place entries
  unfolding unreadable
  unreadable-AllListed place end h = tt
  unreadable-AllListed place (file name is_regular rest) h = unreadable-AllListed place rest h
  unreadable-AllListed place (dir_link name rest) h = unreadable-AllListed place rest h
  unreadable-AllListed place (directory name access inside rest) h =
      elim (Bool-cases (is_pruned exclude (below place name))) [
        | inl e ↦ (inl e, unreadable-AllListed place rest (rw e at h))
        | inr e ↦
            let g : within name (below place name) access
                    (unreadable exclude (some (below place name)) inside)
                  ++ unreadable exclude place rest
                ≡ [] =
              rw e at h in
            let (here, later) = (append-eq-nil_iff {q = unreadable exclude place rest}).0 g in
            (
              inr (
                  entered access (unreadable exclude (some (below place name)) inside) here
                    (unreadable-AllListed (some (below place name)) inside)),
              unreadable-AllListed place rest later,
            )
      ]
    where
      entered :
          (access : Access) (found : List Text)
          → within name (below place name) access found ≡ []
          → (found ≡ [] → AllListed (some (below place name)) inside)
          → ((is_granted access ≡ true) × AllListed (some (below place name)) inside)
            ⊎ (name ≡ codes "lost+found")
      entered granted found e k = inl (refl, k e)
      entered (refused reason) found e k =
          inr (no_report-lost_found name (below place name) reason e)

  collected-none_skipped :
      (r : Result (List Text × List Text)) (arcnames skipped found : List Text)
      → collected r arcnames skipped ≡ ok (found, [])
      → (skipped ≡ []) × ((more : List Text) × (r ≡ ok (more, [])))
  collected-none_skipped (raised e) arcnames skipped found h = cc
  collected-none_skipped (ok (more, others)) arcnames skipped found h =
      let g : skipped ++ others ≡ [] = ap (λ p. p.1) (ok-injective _ _ h) in
      let (here, later) = (append-eq-nil_iff {p = skipped}).0 g in
      (here, (more, ap (λ o. ok (more, o)) later))

  pub collect_roots-RootListed :
      (roots : List Root) (found : List Text)
      → collect_roots exclude roots ≡ ok (found, [])
      → All RootListed roots
  unfolding collect_roots
  collect_roots-RootListed [] found h = tt
  collect_roots-RootListed (missing ∷ roots) found h = (tt, collect_roots-RootListed roots found h)
  collect_roots-RootListed (listed place entries ∷ roots) found h =
      let (here, (more, later)) =
        collected-none_skipped (collect_roots exclude roots) (members exclude place entries)
          (unreadable exclude place entries) found h in
      (unreadable-AllListed place entries here, collect_roots-RootListed roots more later)
  collect_roots-RootListed (not_listed none reason ∷ roots) found h = cc
  collect_roots-RootListed (not_listed (some dir) reason ∷ roots) found h =
      let (here, (more, later)) =
        collected-none_skipped (collect_roots exclude roots) []
          (unreadable_dir (last_part dir) dir reason) found h in
      (
        no_report-lost_found (last_part dir) dir reason here,
        collect_roots-RootListed roots more later,
      )

  pub in_order-none_skipped :
      (r : Result (List Text × List Text)) (files : List Text)
      → in_order r ≡ ok (files, [])
      → (found : List Text) × (r ≡ ok (found, [])) × (files ≡ sort_asc (λ name. name) found)
  in_order-none_skipped (raised e) files h = cc
  in_order-none_skipped (ok (found, skipped)) files h =
      let pair = ok-injective _ _ h in
      (found, ap (λ s. ok (found, s)) (ap (λ p. p.1) pair), sym (ap (λ p. p.0) pair))

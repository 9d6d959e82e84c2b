-- ===== src/Filesystem/Archive.antt =====
-- sources/filesystem.py: the archive of a job's directory, and what it leaves out.
use cs_backup_helper.Filesystem.Listed.{RootListed, collect_roots-RootListed, in_order-none_skipped}
use cs_backup_helper.Base.Sort.{sort_asc}
use cs_backup_helper.Base.{
  All, List, [], ◌∷◌, ◌++◌, Bool, true, false, Bool-cases, leb, length, if◌then◌else◌, ◌≡◌, refl,
  ap, inl, inr, arith, sym, ◌∙◌,
}
use cs_backup_helper.Base.Text.{Text, codes}
use cs_backup_helper.Base.Result.{Result, ok, raised}
use cs_backup_helper.Runner.Engine.{StagedComponent}
use cs_backup_helper.Filesystem.{
  collect_roots, FilesystemConfig, Access, granted, refused, is_granted, Root, collect, written,
  not_written, unreadable_file, summarize,
}
use mathlib.Core.List.{append-eq-nil_iff}

module _ (cfg : FilesystemConfig) where
  -- The component when the configured path is not there.
  abbrev pub not_found : StagedComponent
  not_found = record {
    name = cfg.name;
    kind = codes "filesystem";
    path = [];
    warnings = [];
    error = codes "path not found: " ++ cfg.path;
  }

  abbrev pub archive : Text → List Text → StagedComponent
  archive out skipped = record {
    name = cfg.name;
    kind = codes "filesystem";
    path = out;
    warnings = summarize skipped;
    error = [];
  }

  -- The archive's component and the files in it, from the collected ones and the reports so far.
  abbrev pub archived :
      (Text → Access) → Text → Result (List Text × List Text) → Result (StagedComponent × List Text)
  archived opens out (raised e) = raised e
  archived opens out (ok (arcnames, skipped)) =
      ok (archive out (skipped ++ not_written opens arcnames), written opens arcnames)

  -- `FilesystemSource.produce`: whether the path exists, its roots, and which files can be opened.
  unfoldable pub produce :
      Bool → List Root → (Text → Access) → Text → Result (StagedComponent × List Text)
  unfolding collect written not_written summarize
  produce exists roots opens staging_dir =
      let out = staging_dir ++ (codes "/" ++ (cfg.name ++ codes ".tar.gz")) in
      if exists then archived opens out (collect cfg.exclude roots) else ok (not_found, [])

summarize_empty : (skipped : List Text) → summarize skipped ≡ [] → skipped ≡ []
unfolding summarize
summarize_empty [] h = refl
summarize_empty (report ∷ skipped) h = elim (Bool-cases (leb (length (report ∷ skipped)) 20)) [
  | inl e ↦ rw e at h
  | inr e ↦ absurd (ground arith)
]

written_first :
    (name : Text) (a : Access) (more kept arcnames : List Text)
    → unreadable_file name a ++ more ≡ []
    → (more ≡ [] → kept ≡ arcnames)
    → (if is_granted a then name ∷ kept else kept) ≡ name ∷ arcnames
written_first name granted more kept arcnames h f = ap (λ l. name ∷ l) (f h)
written_first name (refused reason) more kept arcnames h f = absurd (ground arith)

written_all :
    (opens : Text → Access) (arcnames : List Text)
    → not_written opens arcnames ≡ []
    → written opens arcnames ≡ arcnames
unfolding written not_written
written_all opens [] h = refl
written_all opens (name ∷ arcnames) h =
    written_first name (opens name) (not_written opens arcnames) (written opens arcnames) arcnames h
      (written_all opens arcnames)

archived_complete :
    (cfg : FilesystemConfig) (opens : Text → Access) (out : Text)
    (collection : Result (List Text × List Text)) (c : StagedComponent) (files : List Text)
    → archived cfg opens out collection ≡ ok (c, files)
    → StagedComponent.warnings c ≡ []
    → collection ≡ ok (files, [])
archived_complete cfg opens out (raised e) c files h no_warning = absurd (ground arith)
archived_complete cfg opens out (ok (arcnames, skipped)) c files h no_warning =
    let reports = skipped ++ not_written opens arcnames in
    let same : archive cfg out reports ≡ c = ground arith in
    let kept : written opens arcnames ≡ files = ground arith in
    let none_reported = summarize_empty reports (ap StagedComponent.warnings same ∙ no_warning) in
    let (no_dir, no_file) = (append-eq-nil_iff {p = skipped}).0 none_reported in
    rw (no_dir, sym (written_all opens arcnames no_file), kept)

-- An archive without a warning is complete: it has just the files that the walk collects, in
-- order, each root that is there was listed, and so was, at every depth, each directory that no
-- exclude prunes, except those named `lost+found`, which are left out without a word.
pub produce_complete :
    (cfg : FilesystemConfig) (exists : Bool) (roots : List Root) (opens : Text → Access)
    (staging_dir : Text) (c : StagedComponent) (files : List Text)
    → produce cfg exists roots opens staging_dir ≡ ok (c, files)
    → StagedComponent.error c ≡ []
    → StagedComponent.warnings c ≡ []
    → All (RootListed cfg.exclude) roots
      × ((found : List Text) × (collect_roots cfg.exclude roots ≡ ok (found, []))
          × (files ≡ sort_asc (λ name. name) found))
unfolding produce collect
produce_complete cfg false roots opens staging_dir c files h ok_error no_warning =
    let same : not_found cfg ≡ c = ground arith in
    absurd (ground (arith, ap StagedComponent.error same))
produce_complete cfg true roots opens staging_dir c files h ok_error no_warning =
    let whole =
      archived_complete cfg opens (staging_dir ++ (codes "/" ++ (cfg.name ++ codes ".tar.gz")))
        (collect cfg.exclude roots) c files h no_warning in
    let (found, e, sorted) =
      in_order-none_skipped cfg.exclude (collect_roots cfg.exclude roots) files whole in
    (collect_roots-RootListed cfg.exclude roots found e, (found, e, sorted))

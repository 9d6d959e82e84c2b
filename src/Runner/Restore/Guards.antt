-- ===== src/Runner/Restore/Guards.antt =====
-- What a restore checks before it touches live data.
use mathlib.Core.Option.{some-injective}
use cs_backup_helper.Base.{
  ◌&&◌, subst, ◌≡◌, ◌↔◌, ◌⊎◌, inl, inr, refl, sym, ap, ◌∙◌, Bool, true, false, ◌||◌, Bool-cases,
  Option, some, none, is_some, List, [], ◌∷◌, ◌++◌, any, is_empty, In, any-In, In-any, All,
  All-of_In, All-In, arith,
}
use cs_backup_helper.Base.Text.{eq_refl, Text, text_eq, eq_iff}
use cs_backup_helper.Base.Dict.{Dict, lookup}
use cs_backup_helper.Base.Sort.{sort_asc, any-sort_asc}
use cs_backup_helper.Base.Result.{ok-injective, ok}
use cs_backup_helper.Config.{SourceSpec, Job}
use cs_backup_helper.Manifest.{Component, has_error, Manifest}
use cs_backup_helper.Storage.{daemon_start, File, bytes, manifest, marker, run_record, Storage}
use cs_backup_helper.Runner.{Problem, manifest_name}
use cs_backup_helper.Runner.Act.{done_at, continue_with-returned, calling}
use cs_backup_helper.Runner.Engine.{Engine}
use cs_backup_helper.Runner.Offsite.{find_artifact}
use cs_backup_helper.Runner.Restore.{
  specs_of, refusal_of, Refusal, Restorer, refusal, refusals, components_by_name,
  only_is_restorable, is_intact, is_allowed, hydrate, restore_snapshot, restore_found,
  restore_intact, restore_local,
}

-- A selected name can be restored.
abbrev pub CanRestore : Dict Component → Dict SourceSpec → Text → Type 0
CanRestore by_name specs name =
    ((c : Component) × (lookup name by_name ≡ some c) × (has_error c ≡ false))
    × (is_some (lookup name specs) ≡ true)

refusal_of-none :
    (specs : Dict SourceSpec) (name : Text) (found : Option Component)
    → (is_empty (refusal_of specs name found) ≡ true) ↔ (
        ((c : Component) × (found ≡ some c) × (has_error c ≡ false))
        × (is_some (lookup name specs) ≡ true))
refusal_of-none specs name none = (λ h. absurd (ground arith), λ ((c, p, q), r). cc)
refusal_of-none specs name (some c) = (
  λ h. ((c, refl, ground (arith, h)), ground (arith, h)),
  λ ((d, p, q), r).
      let same : c ≡ d = some-injective c d p in
      let no_error : has_error c ≡ false = ap (λ x. has_error x) same ∙ q in rw (no_error, r) refl,
)

refusals-CanRestore :
    (by_name : Dict Component) (specs : Dict SourceSpec) (names : List Text)
    → (is_empty (refusals by_name specs names) ≡ true) ↔ All (CanRestore by_name specs) names
unfolding refusals refusal
refusals-CanRestore by_name specs [] = (λ h. tt, λ h. refl)
refusals-CanRestore by_name specs (name ∷ names) =
    let one = refusal_of-none specs name (lookup name by_name) in
    let rest = refusals-CanRestore by_name specs names in
    let both =
      is_empty-append (refusal_of specs name (lookup name by_name))
        (refusals by_name specs names) in
    (
      λ h. (one.0 (ground (arith, both, h)), rest.0 (ground (arith, both, h))),
      λ (g, h). both ∙ rw (one.1 g, rest.1 h) refl,
    )
  where
    is_empty-append : (xs ys : List Refusal) → is_empty (xs ++ ys) ≡ (is_empty xs && is_empty ys)
    is_empty-append [] ys = refl
    is_empty-append (x ∷ xs) ys = refl

In-sort_asc : (x : Text) (names : List Text) → In x names ↔ In x (sort_asc (λ name. name) names)
In-sort_asc x names =
    let same = any-sort_asc (λ name. name) (text_eq x) names in
    (
      λ m. to_In _ (same ∙ any-In (text_eq x) names x m (eq_refl x)),
      λ m.
          to_In names
            (sym same ∙ any-In (text_eq x) (sort_asc (λ name. name) names) x m (eq_refl x)),
    )
  where
    to_In : (xs : List Text) → any (text_eq x) xs ≡ true → In x xs
    to_In xs h =
        let (y, m, e) = In-any (text_eq x) xs h in subst (λ z. In z xs) (sym ((eq_iff x y).0 e)) m

-- A selection is accepted exactly when every selected name is that of a component of the snapshot
-- that holds data, and of a source of the job.
pub only_is_restorable_exact :
    (only : List Text) (m : Manifest) (specs : Dict SourceSpec)
    → (only_is_restorable only m specs ≡ true)
      ↔ All (CanRestore (components_by_name m.components []) specs) only
unfolding only_is_restorable
only_is_restorable_exact only m specs =
    let by_name = components_by_name m.components [] in
    let e = refusals-CanRestore by_name specs (sort_asc (λ name. name) only) in
    (
      λ h. All-of_In _ only (λ x n. All-In _ _ x (e.0 h) ((In-sort_asc x only).0 n)),
      λ h. e.1 (All-of_In _ _ (λ x n. All-In _ _ x h ((In-sort_asc x only).1 n))),
    )

module _ (S : Storage) (E : Engine S) (R : Restorer S E) where
  is_intact-true :
      (artifact : Text) (m : Manifest) (errors more : List Problem) (w v : Storage.World S)
      → is_intact S E R artifact m errors w ≡ (ok true, more, v)
      → (m.archive_sha256 ≡ []) ⊎ ((Restorer.hash_of R artifact w).0 ≡ ok m.archive_sha256)
  unfolding is_intact
  is_intact-true artifact m errors more w v h = elim (Bool-cases (is_empty m.archive_sha256)) [
    | inl e ↦ inl (is_empty-nil m.archive_sha256 e)
    | inr e ↦
        let (hash, noted, u, p, q) =
          continue_with-returned (λ hash. done_at (text_eq hash m.archive_sha256))
            (calling (Restorer.hash_of R artifact) errors w) true more v (rw e at h) in
        inr (
          ap (λ t. t.0) p
          ∙ ap ok ((eq_iff hash m.archive_sha256).0 (ok-injective _ _ (ap (λ t. t.0) q))))
  ]
    where
      is_empty-nil : (t : Text) → is_empty t ≡ true → t ≡ []
      is_empty-nil [] h = refl
      is_empty-nil (c ∷ t) h = ground arith

  module _ (job : Job) (sid : Text) (only : List Text) (has_hooks : Bool) where
    -- At `w` the data dir holds the archive, whose hash is the manifest's, if it has one, and the
    -- selection can be restored.
    abbrev pub Checked : Storage.World S → Type 0
    Checked w =
        (artifact : Text) × (m : Manifest) × (find_artifact (Storage.dir S w) sid ≡ some artifact)
        × (lookup (manifest_name sid) (Storage.dir S w) ≡ some (manifest m))
        × ((m.archive_sha256 ≡ []) ⊎ ((Restorer.hash_of R artifact w).0 ≡ ok m.archive_sha256))
        × ((only ≡ []) ⊎ (only_is_restorable only m (specs_of S E R job) ≡ true))

    is_allowed-true :
        (m : Manifest)
        → is_allowed S E R only m job ≡ true
        → (only ≡ []) ⊎ (only_is_restorable only m (specs_of S E R job) ≡ true)
    unfolding is_allowed
    is_allowed-true m h = allowed only h
      where
        allowed :
            (names : List Text)
            → (is_empty names || only_is_restorable only m (specs_of S E R job)) ≡ true
            → (names ≡ []) ⊎ (only_is_restorable only m (specs_of S E R job) ≡ true)
        allowed [] h = inl refl
        allowed (x ∷ names) h = inr h

    restore_intact-true :
        (artifact : Text) (m : Manifest) (intact : Bool) (errors more : List Problem)
        (w v : Storage.World S)
        → restore_intact S E R job artifact m only has_hooks intact errors w ≡ (ok true, more, v)
        → (intact ≡ true) × (is_allowed S E R only m job ≡ true)
    restore_intact-true artifact m false errors more w v h = cc
    restore_intact-true artifact m true errors more w v h =
        elim (Bool-cases (is_allowed S E R only m job)) [
          | inl e ↦ (refl, e)
          | inr e ↦ let g = rw e at h in cc
        ]

    restore_found-Checked :
        (found : Option Text) (sidecar : Option File) (errors more : List Problem)
        (w v : Storage.World S)
        → find_artifact (Storage.dir S w) sid ≡ found
        → lookup (manifest_name sid) (Storage.dir S w) ≡ sidecar
        → restore_found S E R job only has_hooks found sidecar errors w ≡ (ok true, more, v)
        → Checked w
    restore_found-Checked (some a) (some (manifest m)) errors more w v p q h =
        let (intact, noted, u, first, second) =
          continue_with-returned (restore_intact S E R job a m only has_hooks)
            (is_intact S E R a m errors w) true more v h in
        let (e, allowed) = restore_intact-true a m intact noted more u v second in
        (
          a,
          m,
          p,
          q,
          is_intact-true a m errors noted w u (first ∙ ap (λ i. (ok i, noted, u)) e),
          is_allowed-true m allowed,
        )
    restore_found-Checked (some a) (some (bytes t)) errors more w v p q h = cc
    restore_found-Checked (some a) (some (marker t)) errors more w v p q h = cc
    restore_found-Checked (some a) (some (run_record r)) errors more w v p q h = cc
    restore_found-Checked (some a) (some (daemon_start t)) errors more w v p q h = cc
    restore_found-Checked (some a) none errors more w v p q h = cc
    restore_found-Checked none sidecar errors more w v p q h = cc

    -- A restore reports success only if, once the snapshot was fetched where it was missing, the
    -- data dir held its archive and its manifest, the archive's hash was the manifest's, unless
    -- that has none, and every selected name could be restored.
    pub restore_snapshot-Checked :
        (errors more : List Problem) (w v : Storage.World S)
        → restore_snapshot S E R job sid only has_hooks errors w ≡ (ok true, more, v)
        → Checked (hydrate S E R job sid errors w).2
    unfolding restore_snapshot
    restore_snapshot-Checked errors more w v h =
        let (done, noted, u, first, second) =
          continue_with-returned (λ _. restore_local S E R job sid only has_hooks)
            (hydrate S E R job sid errors w) true more v h in
        subst Checked (sym (ap (λ t. t.2) first))
          (restore_found-Checked _ _ noted more u v refl refl second)

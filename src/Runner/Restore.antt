-- ===== src/Runner/Restore.antt =====
-- `restore_snapshot`: the snapshot is fetched, checked, decrypted, unpacked and restored.
pub mod Guards
pub mod Selection
pub mod Remote
unfoldable pub use Selection.*
use cs_backup_helper.Base.{
  ℕ, Bool, true, false, not, ◌&&◌, ◌||◌, Option, none, some, List, [], ◌∷◌, ◌++◌, map, any,
  is_empty, is_some, keep_if, if◌then◌else◌,
}
use cs_backup_helper.Base.Text.{Text, codes, text_eq, elem, starts_with, strip_suffix}
use cs_backup_helper.Base.Dict.{Dict, lookup, insert, keys}
use cs_backup_helper.Base.Sort.{sort_asc}
use cs_backup_helper.Base.Result.{value_error, Exn, encryption_error, Result, ok, raised}
use cs_backup_helper.Config.{
  EncryptionMode, age, gpg, S3Spec, DestinationSpec, local, s3, SourceSpec, Job,
}
use cs_backup_helper.Encryption.{decrypt}
use cs_backup_helper.Manifest.{Component, has_error, Manifest}
use cs_backup_helper.Storage.{File, manifest, Storage}
use cs_backup_helper.Runner.{manifest_name, manifest_suffix, archive_suffix}
use cs_backup_helper.Runner.Act.{
  Act, done_at, calling, returning, guarded, continue_with, ◌>>=◌, ◌>>◌,
}
use cs_backup_helper.Runner.Engine.{Engine}
use cs_backup_helper.Runner.Offsite.{find_artifact}
use cs_backup_helper.Runner.Produce.{spec_component_name}

-- What a restore calls outside, next to the engine of a run.
pub record Restorer (S : Storage) (E : Engine S) : Type 0 where
  -- The hash of a file of the data dir.
  pub hash_of : Text → Storage.World S → Result Text × Storage.World S
  -- `extract_bundle(path, dir)`, by the two paths.
  pub extract_bundle : Text → Text → Storage.World S → Result (Unit {0}) × Storage.World S
  pub restore : Engine.Source E → Text → Storage.World S → Result (Unit {0}) × Storage.World S
  -- A hook, which may raise.
  pub hook : Text → Storage.World S → Result (Unit {0}) × Storage.World S

-- `_NESTED_TAR_KINDS`
abbrev pub is_nested_tar : Text → Bool
is_nested_tar kind = elem kind (codes "filesystem" ∷ codes "s3" ∷ [])

-- The encryption that the suffix of an archive's name tells, and the name without it.
pub data Sealed : Type 0 where
  by_age by_gpg : Text → Sealed
  unsealed : Sealed

unfoldable pub sealed : Text → Sealed
sealed name = elim (strip_suffix (codes ".age") name) [
  | some out ↦ by_age out
  | none ↦ elim (strip_suffix (codes ".gpg") name) [ some out ↦ by_gpg out | none ↦ unsealed ]
]

abbrev pub extracted : Text
extracted = codes "extracted"

module _ (S : Storage) (E : Engine S) (R : Restorer S E) where
  abbrev pub Step : Type 0 → Type 0
  Step = Act (Storage.World S)

  abbrev pub decrypt_sealed : Text → Text → Sealed → Step Text
  decrypt_sealed artifact identity unsealed errors w = (ok artifact, errors, w)
  decrypt_sealed artifact identity (by_age out) errors w =
      if is_empty identity
      then (raised encryption_error, errors, w)
      else calling (decrypt (Engine.run E) artifact out age identity) errors w
  decrypt_sealed artifact identity (by_gpg out) errors w =
      calling (decrypt (Engine.run E) artifact out gpg []) errors w

  unfoldable pub decrypt_if_needed : Text → Job → Step Text
  unfolding sealed
  decrypt_if_needed artifact job =
      decrypt_sealed artifact job.encryption.identity_file (sealed artifact)

  -- The staged files of one component, given to its source.
  abbrev pub restore_staged : Engine.Source E → Component → Step (Unit {0})
  restore_staged source c =
      if is_nested_tar c.kind
      then calling (Restorer.extract_bundle R (c.name ++ archive_suffix) (codes "c_" ++ c.name))
        >> calling (Restorer.restore R source (codes "c_" ++ c.name))
      else calling (Restorer.restore R source extracted)

  unfoldable pub restore_component : SourceSpec → Component → Step Bool
  restore_component spec c =
      if text_eq c.kind (codes "env")
      then done_at true
      else guarded
          ((returning (Engine.build_source E spec) >>= λ source. restore_staged source c)
            >> done_at true)
          (λ failure. done_at false)

  abbrev pub is_skipped : List Text → Component → Bool
  is_skipped only c = has_error c || (not (is_empty only) && not (elem c.name only))

  abbrev pub restore_one : List Text → Dict SourceSpec → Component → Step Bool
  unfolding restore_component
  restore_one only specs c =
      if is_skipped only c
      then done_at true
      else elim (lookup c.name specs) [ none ↦ done_at true | some spec ↦ restore_component spec c ]

  -- `ok = _restore_component(...) and ok` over the components.
  unfoldable pub restore_components : List Text → Dict SourceSpec → List Component → Step Bool
  unfolding restore_component
  restore_components only specs [] = done_at true
  restore_components only specs (c ∷ components) = do
    restored ← restore_one only specs c
    others ← restore_components only specs components
    done_at (restored && others)

  -- `dest.get(key, data_dir / key)` of each key.
  abbrev pub fetched : Text → Result File × Storage.World S → Result (Unit {0}) × Storage.World S
  fetched key (ok f, w) = Storage.write S key f w
  fetched key (raised failure, w) = (raised failure, w)

  unfoldable pub fetch_all : Storage.Bucket S → List Text → Step (Unit {0})
  fetch_all b [] = done_at tt
  fetch_all b (key ∷ ks) = calling (λ w. fetched key (Storage.get S b key w)) >> fetch_all b ks

  -- The bucket and its keys under the id.
  abbrev pub listed_with :
      Text
      → Result (Storage.Bucket S) × Storage.World S
      → Result (Storage.Bucket S × List Text) × Storage.World S
  listed_with sid (raised failure, w) = (raised failure, w)
  listed_with sid (ok b, w) =
      let (r, w') = Storage.list_keys S b sid w in
      (elim r [ ok ks ↦ ok (b, ks) | raised failure ↦ raised failure ], w')

  -- What a destination gives, or the destinations after it.
  abbrev pub fetch_or :
      Text → Step (Unit {0}) → Result (Storage.Bucket S × List Text) → Step (Unit {0})
  fetch_or sid others (raised failure) errors w = others errors w
  fetch_or sid others (ok (b, ks)) errors w =
      let archives = keep_if (starts_with (sid ++ archive_suffix)) ks in
      if is_empty archives || not (elem (manifest_name sid) ks)
      then others errors w
      else fetch_all b (archives ++ (manifest_name sid ∷ [])) errors w

  unfoldable pub fetch_from : List DestinationSpec → Text → Step (Unit {0})
  unfolding fetch_all
  fetch_from [] sid errors w = (ok tt, errors, w)
  fetch_from (local ∷ specs) sid errors w = fetch_from specs sid errors w
  fetch_from (s3 spec ∷ specs) sid errors w =
      let (r, w') = listed_with sid (Storage.attach S spec w) in
      let skipped = fetch_from specs sid errors w in
      if is_empty spec.bucket then skipped else fetch_or sid (fetch_from specs sid) r errors w'

  abbrev pub is_local_copy : Text → Dict File → Bool
  is_local_copy sid dir =
      is_some (find_artifact dir sid) && is_some (lookup (manifest_name sid) dir)

  -- `_hydrate_from_destinations`
  unfoldable pub hydrate : Job → Text → Step (Unit {0})
  unfolding fetch_from
  hydrate job sid errors w =
      if is_local_copy sid (Storage.dir S w)
      then (ok tt, errors, w)
      else fetch_from job.destinations sid errors w

  abbrev pub manifest_in : File → Result Manifest
  manifest_in (manifest m) = ok m
  manifest_in _ = raised value_error

  abbrev pub hook_step : Bool → Text → Step (Unit {0})
  hook_step false phase errors w = (ok tt, errors, w)
  hook_step true phase errors w = calling (Restorer.hook R phase) errors w

  -- The hash is compared only when the manifest has one.
  unfoldable pub is_intact : Text → Manifest → Step Bool
  is_intact artifact m =
      if is_empty m.archive_sha256
      then done_at true
      else (calling (Restorer.hash_of R artifact) >>= λ hash.
          done_at (text_eq hash m.archive_sha256))

  abbrev pub specs_of : Job → Dict SourceSpec
  specs_of job = specs_by_name (spec_component_name S E) job.sources []

  -- A selection is checked before a hook runs or a component is touched.
  unfoldable pub is_allowed : List Text → Manifest → Job → Bool
  is_allowed only m job = is_empty only || only_is_restorable only m (specs_of job)

  -- An encryption error ends the restore; another exception goes on.
  abbrev pub unsealed_or : Exn → Step (Option Text)
  unsealed_or encryption_error errors w = (ok none, errors, w)
  unsealed_or failure errors w = (raised failure, errors, w)

  abbrev pub restore_bundle : Job → Manifest → List Text → Bool → Option Text → Step Bool
  restore_bundle job m only has_hooks none = done_at false
  restore_bundle job m only has_hooks (some bundle) = do
    calling (Restorer.extract_bundle R bundle extracted)
    hook_step has_hooks (codes "pre_restore")
    restored ← restore_components only (specs_of job) m.components
    hook_step has_hooks (codes "post_restore")
    done_at restored

  abbrev pub restore_intact : Job → Text → Manifest → List Text → Bool → Bool → Step Bool
  restore_intact job artifact m only has_hooks false = done_at false
  restore_intact job artifact m only has_hooks true =
      if is_allowed only m job
      then (guarded (decrypt_if_needed artifact job >>= λ path. done_at (some path)) unsealed_or
          >>= restore_bundle job m only has_hooks)
      else done_at false

  abbrev pub restore_found : Job → List Text → Bool → Option Text → Option File → Step Bool
  restore_found job only has_hooks (some artifact) (some sidecar) = do
    m ← returning (manifest_in sidecar)
    intact ← is_intact artifact m
    restore_intact job artifact m only has_hooks intact
  restore_found job only has_hooks _ _ = done_at false

  abbrev pub restore_local : Job → Text → List Text → Bool → Step Bool
  restore_local job sid only has_hooks errors w =
      let dir = Storage.dir S w in
      restore_found job only has_hooks (find_artifact dir sid) (lookup (manifest_name sid) dir)
        errors w

  unfoldable pub restore_snapshot : Job → Text → List Text → Bool → Step Bool
  unfolding hydrate is_intact is_allowed decrypt_if_needed restore_components
  restore_snapshot job sid only has_hooks = hydrate job sid >> restore_local job sid only has_hooks

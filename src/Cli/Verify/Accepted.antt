-- ===== src/Cli/Verify/Accepted.antt =====
-- A snapshot that `verify` accepts passes the integrity check of a restore.
use cs_backup_helper.Base.{
  ◌≡◌, refl, ap, true, inl, inr, Bool-cases, Option, none, some, List, is_empty,
}
use cs_backup_helper.Base.Text.{Text, text_eq}
use cs_backup_helper.Base.Dict.{lookup}
use cs_backup_helper.Base.Result.{Result, ok, raised}
use cs_backup_helper.Manifest.{Manifest}
use cs_backup_helper.Storage.{File, bytes, manifest, marker, run_record, Storage}
use cs_backup_helper.Runner.{Problem, manifest_name}
use cs_backup_helper.Runner.Act.{continue_with, calling, done_at}
use cs_backup_helper.Runner.Engine.{Engine}
use cs_backup_helper.Runner.Offsite.{find_artifact}
use cs_backup_helper.Runner.Restore.{Restorer, is_intact}
use cs_backup_helper.Cli.Verify.{daemon_start, compared_with, verified, verify_snapshot}

module _ (S : Storage) (E : Engine S) (R : Restorer S E) where
  same_answer :
      (expected : Text) (t : Result Text × Storage.World S) (errors : List Problem)
      (w' : Storage.World S)
      → compared_with S (Restorer.hash_of R) expected t ≡ (ok true, w')
      → continue_with
          (calling (λ (_ : Storage.World S). t) errors t.1)
          (λ hash. done_at (text_eq hash expected))
        ≡ (ok true, errors, w')
  same_answer expected (ok hash, w) errors w' h = ap (λ u. (u.0, errors, u.1)) h
  same_answer expected (raised e, w) errors w' h = cc

  manifest-intact :
      (artifact : Text) (m : Manifest) (errors : List Problem) (w w' : Storage.World S)
      → verified S (Restorer.hash_of R) (some artifact) (some (manifest m)) w ≡ (ok true, w')
      → is_intact S E R artifact m errors w ≡ (ok true, errors, w')
  unfolding is_intact
  manifest-intact artifact m errors w w' h = elim (Bool-cases (is_empty m.archive_sha256)) [
    | inl e ↦ let g = rw e at h in cc
    | inr e ↦
        rw e (same_answer m.archive_sha256 (Restorer.hash_of R artifact w) errors w' (rw e at h))
  ]

  verified-intact :
      (found : Option Text) (sidecar : Option File) (errors : List Problem) (w w' : Storage.World S)
      → verified S (Restorer.hash_of R) found sidecar w ≡ (ok true, w')
      → (artifact : Text) × (m : Manifest) × (found ≡ some artifact)
        × (sidecar ≡ some (manifest m))
        × (is_intact S E R artifact m errors w ≡ (ok true, errors, w'))
  verified-intact (some a) (some (manifest m)) errors w w' h =
      (a, m, refl, refl, manifest-intact a m errors w w' h)
  verified-intact (some a) (some (bytes t)) errors w w' h = cc
  verified-intact (some a) (some (marker t)) errors w w' h = cc
  verified-intact (some a) (some (run_record r)) errors w w' h = cc
  verified-intact (some a) (some (daemon_start t)) errors w w' h = cc
  verified-intact (some a) none errors w w' h = cc
  verified-intact none sidecar errors w w' h = cc

  -- When `verify` accepts a snapshot, the data dir has its archive and its manifest, and the
  -- integrity check of a restore, made at that time, passes and changes nothing but what hashing
  -- the archive changes.
  pub verify_snapshot-is_intact :
      (sid : Text) (errors : List Problem) (w w' : Storage.World S)
      → verify_snapshot S (Restorer.hash_of R) sid w ≡ (ok true, w')
      → (artifact : Text) × (m : Manifest) × (find_artifact (Storage.dir S w) sid ≡ some artifact)
        × (lookup (manifest_name sid) (Storage.dir S w) ≡ some (manifest m))
        × (is_intact S E R artifact m errors w ≡ (ok true, errors, w'))
  unfolding verify_snapshot
  verify_snapshot-is_intact sid errors w w' h = verified-intact _ _ errors w w' h

-- ===== src/Cli/Tests.antt =====
-- The second of two jobs is picked by the id of its snapshot.
use cs_backup_helper.Base.{
  true, false, sym, ap, ◌∙◌, arith, ◌≡◌, refl, inl, inr, none, some, [], ◌∷◌, In,
}
use cs_backup_helper.Base.Text.{text_eq, Text, codes, elem, eq_iff}
use cs_backup_helper.Base.Dict.{lookup, keys}
use cs_backup_helper.Storage.Memory.{Memory, memory}
use cs_backup_helper.Runner.Offsite.{pending_owners, find_artifact}
use cs_backup_helper.Runner.Prune.{snapshot_ids}
use cs_backup_helper.Cli.Listing.{list_cmd}
use cs_backup_helper.Cli.Verify.{list_snapshots, verify_snapshot}
use cs_backup_helper.Runner.Restore.Remote.{remote_snapshot_ids}
use cs_backup_helper.Runner.Samples.{pending, sidecar, archive, engine, restorer, job, sid}
use cs_backup_helper.Cli.Prune.{is_own_of}
use cs_backup_helper.Config.{Job}
use cs_backup_helper.Clock.{is_valid}
use cs_backup_helper.Snapshots.{new_snapshot_id, job_slug}
use cs_backup_helper.Base.Result.{ok}
use cs_backup_helper.Manifest.{Manifest}
use cs_backup_helper.Storage.{manifest}
use cs_backup_helper.Runner.{manifest_name}
use cs_backup_helper.Runner.Restore.{Restorer, is_intact}
use cs_backup_helper.Cli.Verify.Accepted.{verify_snapshot-is_intact}

abbrev second : Job
second = record job { name = codes "files" }

abbrev files_id : Text
files_id = codes "2026-07-05_12-00-00_files"

abbrev stored : Memory
stored = record {
  files =
      (codes "2026-07-05_12-00-00_files.manifest.json", sidecar)
      ∷ (codes "2026-07-05_12-00-00_files.tar.gz", archive)
      ∷ [];
  objects = [];
}

one_id : snapshot_ids (keys stored.files) ≡ files_id ∷ []
unfolding snapshot_ids cs_backup_helper.Base.Sort.sort_asc keys
    cs_backup_helper.Base.Text.strip_suffix cs_backup_helper.Base.Text.text_eq
one_id = refl

same_id : (x y : Text) → elem x (y ∷ []) ≡ true → x ≡ y
same_id x y h = (eq_iff x y).0 (ground arith)

only_id : (sid : Text) → elem sid (snapshot_ids (keys stored.files)) ≡ true → sid ≡ files_id
only_id sid h = same_id sid files_id (sym (ap (elem sid) one_id) ∙ h)

not_own : is_own_of (job ∷ second ∷ []) job (pending_owners stored.files) files_id ≡ false
unfolding is_own_of cs_backup_helper.Snapshots.owns cs_backup_helper.Snapshots.parse_snapshot_id
    cs_backup_helper.Clock.Format.strptime cs_backup_helper.Clock.Format.field
    cs_backup_helper.Clock.Format.literal cs_backup_helper.Clock.Format.day_field
    cs_backup_helper.Clock.Format.at_end cs_backup_helper.Snapshots.parse_rest
    cs_backup_helper.Snapshots.in_slug cs_backup_helper.Base.Text.text_eq job_slug
    cs_backup_helper.Snapshots.scope_for
not_own = refl

accepted : verify_snapshot memory (Restorer.hash_of restorer) sid pending ≡ (ok true, pending)
unfolding verify_snapshot find_artifact cs_backup_helper.Base.Sort.sort_asc keys
    cs_backup_helper.Base.Text.starts_with lookup text_eq cs_backup_helper.Manifest.build_manifest
accepted = refl

verify_snapshot-is_intact_example :
    (a : Text) × (m : Manifest) × (find_artifact pending.files sid ≡ some a)
    × (lookup (manifest_name sid) pending.files ≡ some (manifest m))
    × (is_intact memory engine restorer a m [] pending ≡ (ok true, [], pending))
verify_snapshot-is_intact_example =
    verify_snapshot-is_intact memory engine restorer sid [] pending pending accepted

-- The bucket has the snapshot of the data dir and one more.
abbrev shipped : Memory
shipped = record pending {
  objects =
      (codes "p/s.manifest.json", sidecar)
      ∷ (codes "p/r.manifest.json", sidecar)
      ∷ (codes "p/r.tar.gz", archive)
      ∷ [];
}

listed_once :
    list_cmd
      (list_snapshots shipped.files (λ name. 4))
      (remote_snapshot_ids memory engine restorer job shipped).0
    ≡ (codes "r", 0) ∷ (codes "s", 4) ∷ []
unfolding list_cmd list_snapshots remote_snapshot_ids cs_backup_helper.Base.Sort.sort_asc
    cs_backup_helper.Base.Words.distinct keys cs_backup_helper.Base.Text.starts_with
    cs_backup_helper.Base.Text.strip_suffix text_eq lookup cs_backup_helper.Base.Text.text_lt
    cs_backup_helper.Base.Dict.insert find_artifact
listed_once = refl

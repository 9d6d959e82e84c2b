-- ===== src/Runner/Prune.antt =====
-- `_apply_retention`: a destination is pruned of a job's own snapshots.
use cs_backup_helper.Base.{
  ℕ, Bool, true, false, not, ◌&&◌, Option, none, some, List, [], ◌∷◌, ◌++◌, map, any, keep_if,
  if◌then◌else◌,
}
use cs_backup_helper.Base.Words.{distinct}
use cs_backup_helper.Base.Text.{Text, codes, elem, text_eq, starts_with, strip_suffix}
use cs_backup_helper.Base.Dict.{Dict, lookup, keys}
use cs_backup_helper.Base.Sort.{sort_asc}
use cs_backup_helper.Base.Result.{Exn, Result, ok, raised}
use cs_backup_helper.Clock.{DateTime}
use cs_backup_helper.Retention.{Snapshot}
use cs_backup_helper.Retention.Manager.{RetentionConfig, select_prunable}
use cs_backup_helper.Snapshots.{local_place, parse_snapshot_id, SnapshotScope, owns}
use cs_backup_helper.Storage.{File, Storage}
use cs_backup_helper.Runner.{Problem, retention_failed, manifest_suffix}
use cs_backup_helper.Runner.Act.{Act, done_at, calling, returning, noting, guarded, ◌>>=◌, ◌>>◌}
use cs_backup_helper.Runner.Deliver.{data_dir, bucket, W, D}
use cs_backup_helper.Runner.Offsite.{is_nested, pending_owners}
pub mod Own

abbrev dated : Option DateTime → DateTime → DateTime
dated none fallback = fallback
dated (some when) fallback = when

unfoldable pub parse_snapshot_timestamp : Text → DateTime → DateTime
parse_snapshot_timestamp sid fallback = dated (parse_snapshot_id sid).0 fallback

unfoldable pub id_of_key : Text → List Text
id_of_key key =
    if is_nested key
    then []
    else elim (strip_suffix manifest_suffix key) [ none ↦ [] | some sid ↦ sid ∷ [] ]

unfoldable pub ids_of_keys : List Text → List Text
unfolding id_of_key
ids_of_keys [] = []
ids_of_keys (key ∷ ks) = id_of_key key ++ ids_of_keys ks

-- `sorted({k[: -len(".manifest.json")] for k in ...})`
unfoldable pub snapshot_ids : List Text → List Text
unfolding ids_of_keys distinct
snapshot_ids ks = sort_asc (λ sid. sid) (distinct (ids_of_keys ks))

-- The job that a pending marker names for the id.
unfoldable pub owner_of : Text → List (Text × Text) → Option Text
owner_of sid [] = none
owner_of sid ((id, owner) ∷ marked) = if text_eq id sid then some owner else owner_of sid marked

-- `s in only if only is not None else scope.owns(s, place, marked.get(s))`
unfoldable pub is_mine :
    Option (List Text) → SnapshotScope → Text → List (Text × Text) → Text → Bool
unfolding owner_of
is_mine (some only) scope place marked sid = elem sid only
is_mine none scope place marked sid = owns scope sid place (owner_of sid marked)

unfoldable pub snapshots_of : DateTime → List Text → List Snapshot
unfolding parse_snapshot_timestamp
snapshots_of now sids =
    map (λ sid. record { id = sid; when = parse_snapshot_timestamp sid now }) sids

-- The job's own among the snapshots whose manifests are listed.
abbrev pub own_snapshots : DateTime → (Text → Bool) → List Text → List Snapshot
own_snapshots now mine found = snapshots_of now (keep_if mine (snapshot_ids found))

-- `f"{pruned}."`
abbrev pub dotted : Text → Text
dotted sid = sid ++ (b'.' ∷ [])

module _ (S : Storage) where
  -- `_place`
  unfoldable pub place_of : D S → Text
  place_of data_dir = local_place
  place_of (bucket b) = Storage.place S b

  abbrev pub marked_at : D S → W S → List (Text × Text)
  marked_at data_dir w = pending_owners (Storage.dir S w)
  marked_at (bucket b) w = []

  -- `LocalDestination.list_keys` and `S3Destination.list_keys`.
  abbrev pub list_at : D S → Text → W S → Result (List Text) × W S
  list_at data_dir prefix w =
      (ok (sort_asc (λ key. key) (keep_if (starts_with prefix) (keys (Storage.dir S w)))), w)
  list_at (bucket b) prefix w = Storage.list_keys S b prefix w

  abbrev pub delete_at : D S → Text → W S → Result (Unit {0}) × W S
  delete_at data_dir key w = Storage.unlink S key w
  delete_at (bucket b) key w = Storage.delete S b key w

  unfoldable pub delete_keys : D S → List Text → Act (W S) (Unit {0})
  delete_keys d [] = done_at tt
  delete_keys d (key ∷ ks) = calling (delete_at d key) >> delete_keys d ks

  unfoldable pub delete_snapshots : D S → List Text → Act (W S) (Unit {0})
  unfolding delete_keys
  delete_snapshots d [] = done_at tt
  delete_snapshots d (sid ∷ sids) =
      (calling (list_at d (dotted sid)) >>= delete_keys d) >> delete_snapshots d sids

  unfoldable pub prune_own : D S → RetentionConfig → DateTime → (Text → Bool) → Act (W S) (Unit {0})
  unfolding delete_snapshots
  prune_own d cfg now mine = do
    found ← calling (list_at d [])
    pruned ← returning (select_prunable (own_snapshots now mine found) cfg now)
    delete_snapshots d pruned

  -- A problem is noted, never raised.
  unfoldable pub apply_retention :
      D S → RetentionConfig → DateTime → SnapshotScope → Option (List Text) → Act (W S) (Unit {0})
  unfolding prune_own is_mine place_of
  apply_retention d cfg now scope only errors w =
      guarded (prune_own d cfg now (is_mine only scope (place_of d) (marked_at d w)))
        (λ failure. noting (retention_failed failure ∷ [])) errors w

-- ===== src/Runner/Restore/Remote.antt =====
-- runner.py: `remote_snapshot_ids`, the snapshots that are off-site.
use cs_backup_helper.Base.{Option, none, some, List, [], ◌∷◌, ◌++◌, is_empty, if◌then◌else◌}
use cs_backup_helper.Base.Text.{Text, strip_suffix}
use cs_backup_helper.Base.Words.{distinct}
use cs_backup_helper.Base.Result.{Result, ok, raised}
use cs_backup_helper.Config.{DestinationSpec, local, s3, Job}
use cs_backup_helper.Storage.{Storage}
use cs_backup_helper.Runner.{manifest_suffix}
use cs_backup_helper.Runner.Engine.{Engine}
use cs_backup_helper.Runner.Restore.{Restorer, listed_with}

-- The key of a manifest names its snapshot, whatever dir it is in.
abbrev pub named_by : Option Text → List Text
named_by (some sid) = sid ∷ []
named_by none = []

unfoldable pub ids_among : List Text → List Text
ids_among [] = []
ids_among (key ∷ ks) = named_by (strip_suffix manifest_suffix key) ++ ids_among ks

module _ (S : Storage) (E : Engine S) (R : Restorer S E) where
  -- A destination that fails is skipped.
  abbrev pub ids_in : Result (Storage.Bucket S × List Text) → List Text
  ids_in (ok (b, ks)) = ids_among ks
  ids_in (raised failure) = []

  unfoldable pub ids_from : List DestinationSpec → Storage.World S → List Text × Storage.World S
  unfolding ids_among
  ids_from [] w = ([], w)
  ids_from (local ∷ specs) w = ids_from specs w
  ids_from (s3 spec ∷ specs) w =
      let (r, w') = listed_with S E R [] (Storage.attach S spec w) in
      let skipped = ids_from specs w in
      let (others, w'') = ids_from specs w' in
      if is_empty spec.bucket then skipped else (ids_in r ++ others, w'')

  -- A set: its order is not that of Python.
  unfoldable pub remote_snapshot_ids : Job → Storage.World S → List Text × Storage.World S
  unfolding ids_from
  remote_snapshot_ids job w = let (ids, w') = ids_from job.destinations w in (distinct ids, w')

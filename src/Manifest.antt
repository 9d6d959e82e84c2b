-- ===== src/Manifest.antt =====
-- archive/manifest.py: components, and the manifest that describes a snapshot.
-- Text that the code only tests for being there (an error, a hash) is empty when it is missing.
use cs_backup_helper.Base.{ℕ, ◌+◌, Bool, not, List, [], ◌∷◌, any, is_empty, if◌then◌else◌}
use cs_backup_helper.Base.Text.{Text}

-- `warnings` are the texts of `metadata["warnings"]`; other metadata is carried along untouched.
pub record Component : Type 0 where
  pub name : Text
  pub kind : Text
  pub size : ℕ
  pub sha256 : Text
  pub error : Text
  pub warnings : List Text

pub data Status : Type 0 where
  success warning error : Status

abbrev pub has_error : Component → Bool
has_error c = not (is_empty c.error)

abbrev pub has_warnings : Component → Bool
has_warnings c = not (is_empty c.warnings)

unfoldable pub snapshot_status : List Component → Status
snapshot_status components =
    if any has_error components
    then error
    else if any has_warnings components
    then warning
    else success

unfoldable pub total_size : List Component → ℕ
total_size [] = 0
total_size (c ∷ components) = c.size + total_size components

pub record Manifest : Type 0 where
  pub snapshot_id : Text
  pub instance_name : Text
  pub created_at : Text
  pub status : Status
  pub total_bytes : ℕ
  pub archive_sha256 : Text
  pub components : List Component

unfoldable pub build_manifest : Text → Text → Text → Text → List Component → Manifest
unfolding snapshot_status total_size
build_manifest snapshot_id instance_name created_at archive_sha256 components = record {
  snapshot_id = snapshot_id;
  instance_name = instance_name;
  created_at = created_at;
  status = snapshot_status components;
  total_bytes = total_size components;
  archive_sha256 = archive_sha256;
  components = components;
}

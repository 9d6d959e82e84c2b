-- ===== src/Retention.antt =====
-- retention/__init__.py: the snapshots that every policy reasons over, and the policies below.
pub mod Policies
pub mod Manager
pub mod Count
pub mod Tiers
pub mod Newest
pub mod Safety
pub mod Tests
use cs_backup_helper.Base.{List, map}
use cs_backup_helper.Base.Text.{Text}
use cs_backup_helper.Clock.{DateTime}

pub record Snapshot : Type 0 where
  pub id : Text
  pub when : DateTime

-- `{s.id for s in snapshots}`
abbrev pub ids : List Snapshot → List Text
ids = map (λ (s : Snapshot). s.id)

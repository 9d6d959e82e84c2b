-- ===== src/Retention/Manager.antt =====
-- retention/manager.py, and the part of config/models.py that configures it.
use cs_backup_helper.Base.{ℕ, Bool, not, List, [], ◌++◌, keep_if, if◌then◌else◌}
use cs_backup_helper.Base.Int.{ℤ}
use cs_backup_helper.Base.Text.{Text, elem}
use cs_backup_helper.Base.Result.{Result, ok, ◌>>=◌}
use cs_backup_helper.Clock.{DateTime}
use cs_backup_helper.Retention.{Snapshot}
use cs_backup_helper.Retention.Policies.{count_prunable, age_prunable, select_keep, protected_last}

-- `age_days` and the tiers are natural numbers: their fields are declared with `ge=0`.
pub record GfsConfig : Type 0 where
  pub daily : ℕ
  pub weekly : ℕ
  pub monthly : ℕ

pub record RetentionConfig : Type 0 where
  pub count : ℤ
  pub age_days : ℕ
  pub gfs : GfsConfig
  pub smart_last : Bool

-- `a - b` of two sets.
abbrev pub minus : List Text → List Text → List Text
minus xs ys = keep_if (λ x. not (elem x ys)) xs

unfoldable pub select_prunable : List Snapshot → RetentionConfig → DateTime → Result (List Text)
select_prunable snaps cfg now = do
  aged ← age_prunable snaps cfg.age_days now
  let gfs_keep = select_keep snaps cfg.gfs.daily cfg.gfs.weekly cfg.gfs.monthly
  let smart_protected = if cfg.smart_last then protected_last snaps else []
  ok (minus (minus (count_prunable snaps cfg.count ++ aged) gfs_keep) smart_protected)

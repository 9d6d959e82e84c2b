-- ===== src/Config.antt =====
-- config/models.py: the parts of the configuration that the pipeline reads.
-- A missing, null or empty text is the empty text here, since the code tests these by truth.
use cs_backup_helper.Loader.Tree.{Json}
use cs_backup_helper.Base.{ℕ, Bool, true, false, not, List, Option, is_empty}
use cs_backup_helper.Base.Text.{Text}
use cs_backup_helper.Retention.Manager.{RetentionConfig}

-- The keys of an `s3` destination that the pipeline itself reads.
pub record S3Spec : Type 0 where
  pub endpoint : Text
  pub bucket : Text
  pub prefix : Text

pub data DestinationSpec : Type 0 where
  local : DestinationSpec
  s3 : S3Spec → DestinationSpec

-- `spec.type == "s3" and data.get("bucket")`
abbrev pub has_bucket : DestinationSpec → Bool
has_bucket local = false
has_bucket (s3 spec) = not (is_empty spec.bucket)

abbrev pub is_local_spec : DestinationSpec → Bool
is_local_spec local = true
is_local_spec (s3 spec) = false

pub data EncryptionMode : Type 0 where
  plain age gpg : EncryptionMode

pub record EncryptionConfig : Type 0 where
  pub mode : EncryptionMode
  pub recipient : Text
  pub identity_file : Text

-- `settings` stands for a source's own keys, which only the source reads.
pub record SourceSpec : Type 0 where
  pub type : Text
  pub name : Text
  pub database : Text
  pub db : Text
  pub bucket : Text
  pub enabled : Json
  pub settings : ℕ

pub record Job : Type 0 where
  pub name : Text
  pub sources : List SourceSpec
  pub destinations : List DestinationSpec
  pub keep_local : Bool
  pub healthcheck_max_age : Option ℕ
  pub retention : RetentionConfig
  pub encryption : EncryptionConfig

-- ===== src/Redaction/Tests.antt =====
-- A log line with a token, and a configuration with a password.
use cs_backup_helper.Base.{◌≡◌, refl, none, some, List, [], ◌∷◌, ◌++◌}
use cs_backup_helper.Base.Text.{Text, codes, starts_with}
use cs_backup_helper.Base.Words.{is_space}
use cs_backup_helper.Redaction.{
  match_pair, is_name_char, match_value, quoted_value, match_dsn, is_sensitive_key, mask, mask_from,
  redact,
}
use cs_backup_helper.Redaction.Pairs.{mask_from-pair}
use cs_backup_helper.Redaction.Data.{SplitUrl, redact_data}
use cs_backup_helper.Redaction.Data.Clean.{IsClean, redact_data-IsClean}
use cs_backup_helper.Loader.Tree.{Json, number, text, object, no_fields, field}

redacted : redact (codes "?sig=ab&x key=a 'token': 'a b'") ≡ codes "?sig=*** key=a 'token': '***'"
unfolding redact match_pair is_name_char is_space is_sensitive_key match_value quoted_value
    match_dsn starts_with
redacted = refl

redacted_dsn : redact (codes "db://u:pw@h") ≡ codes "db://u:***@h"
unfolding redact match_pair is_name_char is_space is_sensitive_key match_value quoted_value
    match_dsn starts_with
redacted_dsn = refl

mask_from-pair_example :
    mask_from 0 (some b' ') ((codes "token") ++ (b'=' ∷ (codes "s3cr3t" ++ (32 ∷ codes "sent"))))
    ≡ codes "token" ++ (b'=' ∷ (mask ++ (32 ∷ mask_from 0 (some 32) (codes "sent"))))
unfolding is_sensitive_key cs_backup_helper.Redaction.is_name_char
    cs_backup_helper.Base.Words.is_space
mask_from-pair_example =
    mask_from-pair (some b' ') b't' (codes "oken") b's' (codes "3cr3t") (codes "sent") refl refl
      refl refl refl refl

-- No URL stands in it, so that how one is split does not matter.
abbrev unsplit : Text → SplitUrl
unsplit url = record { scheme = []; host = url; path = []; query = []; fragment = [] }

abbrev config : Json
config = object (
    field (codes "instance_name") (text (codes "main")) (
      field (codes "smtp") (object (field (codes "smtp_password") (number 5432) no_fields))
        no_fields))

redacted_config :
    redact_data unsplit [] config
    ≡ object (
        field (codes "instance_name") (text (codes "main")) (
          field
            (codes "smtp")
            (object (field (codes "smtp_password") (text mask) no_fields))
            no_fields))
unfolding redact_data cs_backup_helper.Redaction.match_pair cs_backup_helper.Redaction.is_name_char
redacted_config = refl

redact_data-IsClean_example : IsClean (redact_data unsplit [] config)
redact_data-IsClean_example = redact_data-IsClean unsplit [] config

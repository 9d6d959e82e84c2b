-- ===== src/Loader/Schema.antt =====
-- config/models.py: the types of the fields, as config/loader.py reads them to type an override.
use cs_backup_helper.Base.{Bool, true, false, Option, none, some, List, [], ◌∷◌, if◌then◌else◌}
use cs_backup_helper.Base.Text.{Text, codes, text_eq}
use cs_backup_helper.Base.Words.{is_number}
use cs_backup_helper.Loader.Overrides.{Kind, text_kind, open_kind, json_kind}

-- An annotation: `str` or a `Literal` of texts; a number or Boolean; a list; a model with its declared
-- fields; an `Optional`.
mutual
  pub data Annotation : Type 0 where
    text_field : Annotation
    scalar_field : Annotation
    list_of : Annotation → Annotation
    model : Declared → Annotation
    optional : Annotation → Annotation

  pub data Declared : Type 0 where
    end : Declared
    declares : Text → Annotation → Declared → Declared

abbrev pub source_spec : Annotation
source_spec = model (declares (codes "type") text_field end)

abbrev pub destination_spec : Annotation
destination_spec = model (declares (codes "type") text_field end)

abbrev pub schedule_config : Annotation
schedule_config = model (
    declares (codes "mode") text_field (
      declares (codes "cron") text_field (
        declares (codes "interval_hours") scalar_field (
          declares (codes "on_startup") scalar_field (
            declares (codes "hour") (optional text_field) (
              declares (codes "minute") (optional text_field)
                (declares (codes "day_of_week") (optional text_field) end)))))))

abbrev pub gfs_config : Annotation
gfs_config = model (
    declares (codes "daily") scalar_field
      (declares (codes "weekly") scalar_field (declares (codes "monthly") scalar_field end)))

abbrev pub retention_config : Annotation
retention_config = model (
    declares (codes "count") scalar_field (
      declares (codes "age_days") scalar_field
        (declares (codes "gfs") gfs_config (declares (codes "smart_last") scalar_field end))))

abbrev pub encryption_config : Annotation
encryption_config = model (
    declares (codes "mode") text_field (
      declares (codes "recipient") (optional text_field)
        (declares (codes "identity_file") (optional text_field) end)))

abbrev pub email_config : Annotation
email_config = model (
    declares (codes "host") (optional text_field) (
      declares (codes "port") scalar_field (
        declares (codes "tls") scalar_field (
          declares (codes "implicit_tls") scalar_field (
            declares (codes "username") (optional text_field) (
              declares (codes "password") (optional text_field) (
                declares (codes "sender") (optional text_field)
                  (declares (codes "recipients") (list_of text_field) end))))))))

abbrev pub webhook_config : Annotation
webhook_config = model (
    declares (codes "url") (optional text_field)
      (declares (codes "secret") (optional text_field) end))

abbrev pub teams_config : Annotation
teams_config =
    model (declares (codes "url") (optional text_field) (declares (codes "format") text_field end))

abbrev pub simple_url_config : Annotation
simple_url_config = model (declares (codes "url") (optional text_field) end)

abbrev pub ntfy_config : Annotation
ntfy_config = model (
    declares (codes "url") (optional text_field) (
      declares (codes "topic") (optional text_field)
        (declares (codes "token") (optional text_field) end)))

abbrev pub notify_config : Annotation
notify_config = model (
    declares (codes "channels") (list_of text_field) (
      declares (codes "level") text_field (
        declares (codes "email") email_config (
          declares (codes "webhook") webhook_config (
            declares (codes "teams") teams_config (
              declares (codes "slack") simple_url_config (
                declares (codes "discord") simple_url_config (
                  declares (codes "ntfy") ntfy_config
                    (declares (codes "healthchecks") simple_url_config end)))))))))

abbrev pub job_config : Annotation
job_config = model (
    declares (codes "name") text_field (
      declares (codes "sources") (list_of source_spec) (
        declares (codes "destinations") (list_of destination_spec) (
          declares (codes "keep_local") scalar_field (
            declares (codes "schedule") schedule_config (
              declares (codes "healthcheck_max_age_hours") (optional scalar_field) (
                declares (codes "retention") retention_config (
                  declares (codes "encryption") encryption_config
                    (declares (codes "notifications") notify_config end)))))))))

abbrev pub root_config : Annotation
root_config = model (
    declares (codes "version") scalar_field (
      declares (codes "instance_name") text_field
        (declares (codes "jobs") (list_of job_config) end)))

-- `model_fields.get(seg)`
unfoldable pub annotation_of : Text → Declared → Option Annotation
unfolding text_eq
annotation_of seg end = none
annotation_of seg (declares name ann rest) =
    if text_eq name seg then some ann else annotation_of seg rest

abbrev pub without_none : Annotation → Annotation
without_none (optional ann) = ann
without_none ann = ann

-- `_container`: what a further segment may index into.
abbrev pub container_of : Annotation → Option Annotation
container_of (model fields) = some (model fields)
container_of (list_of ann) = some (list_of ann)
container_of ann = none

abbrev pub container : Annotation → Option Annotation
container ann = container_of (without_none ann)

abbrev pub is_text_type : Annotation → Bool
is_text_type text_field = true
is_text_type ann = false

unfoldable pub is_text : Annotation → Bool
is_text ann = is_text_type (without_none ann)

-- The loop of `_override_kind`: the last annotation, and the container for the next segment.
unfoldable pub kind_from : List Text → Annotation → Option Annotation → Kind
unfolding annotation_of is_number is_text
kind_from [] ann here = if is_text ann then text_kind else json_kind
kind_from (seg ∷ path) ann none = open_kind
kind_from (seg ∷ path) ann (some (model fields)) = elim (annotation_of seg fields) [
  | none ↦ open_kind
  | some next ↦ kind_from path next (container next)
]
kind_from (seg ∷ path) ann (some (list_of next)) =
    let rest = kind_from path next (container next) in if is_number seg then rest else open_kind
kind_from (seg ∷ path) ann (some other) = open_kind

unfoldable pub override_kind : List Text → Kind
unfolding kind_from
override_kind path = kind_from path root_config (some root_config)

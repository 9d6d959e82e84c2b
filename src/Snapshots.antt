-- ===== src/Snapshots.antt =====
-- snapshots.py: snapshot ids, and which job a snapshot belongs to.
pub mod Ids
pub mod Ownership
pub mod Tests
use cs_backup_helper.Base.{
  ℕ, ◌-◌, Bool, true, false, not, ◌&&◌, ◌||◌, Option, none, some, List, [], ◌∷◌, ◌++◌, map, leb,
  ◌==◌, if◌then◌else◌, any, all, take, drop, length, is_empty, is_some,
}
use cs_backup_helper.Base.Text.{Text, codes, text_eq, elem}
use cs_backup_helper.Base.Dict.{Dict, lookup, insert}
use cs_backup_helper.Clock.{DateTime}
use cs_backup_helper.Clock.Format.{stamp, strptime}
use cs_backup_helper.Config.{S3Spec, DestinationSpec, local, s3, has_bucket, is_local_spec, Job}

-- `[A-Za-z0-9_-]`
unfoldable pub in_slug : ℕ → Bool
in_slug c =
    (leb b'A' c && leb c b'Z')
    || (leb b'a' c && leb c b'z')
    || (leb b'0' c && leb c b'9')
    || c == b'_'
    || c == b'-'

abbrev dash_out : ℕ → ℕ
dash_out c = if in_slug c then c else b'-'

unfoldable pub job_slug : Text → Text
unfolding in_slug
job_slug [] = b'-' ∷ []
job_slug (c ∷ name) = map dash_out (c ∷ name)

-- The id of a run; with a job, the job-scoped form.
unfoldable pub new_snapshot_id : DateTime → Option Text → Text
new_snapshot_id now none = stamp now
new_snapshot_id now (some job) = stamp now ++ (b'_' ∷ job_slug job)

-- `len("2026-07-05_03-15-00")`
abbrev pub timestamp_len : ℕ
timestamp_len = 19

-- What follows the timestamp: nothing, or `_` and a slug.
unfoldable pub parse_rest : DateTime → Text → Option DateTime × Option Text
parse_rest when [] = (some when, none)
parse_rest when (mark ∷ slug) =
    if mark == b'_' && not (is_empty slug) && all in_slug slug
    then (some when, some slug)
    else (none, none)

abbrev pub parse_parts : Option DateTime → Text → Option DateTime × Option Text
parse_parts none rest = (none, none)
parse_parts (some when) rest = parse_rest when rest

unfoldable pub parse_snapshot_id : Text → Option DateTime × Option Text
parse_snapshot_id sid = parse_parts (strptime (take timestamp_len sid)) (drop timestamp_len sid)

-- A place is the data dir, or an endpoint, a bucket and a prefix. Its text, as the code has it.
abbrev pub local_place : Text
local_place = codes "local"

unfoldable pub s3_place : Text → Text → Text → Text
s3_place endpoint bucket prefix =
    codes "s3:" ++ (endpoint ++ (codes "|" ++ (bucket ++ (codes "|" ++ prefix))))

unfoldable pub s3_places : List DestinationSpec → List Text
unfolding s3_place
s3_places [] = []
s3_places (local ∷ specs) = s3_places specs
s3_places (s3 spec ∷ specs) =
    let rest = s3_places specs in
    if is_empty spec.bucket then rest else s3_place spec.endpoint spec.bucket spec.prefix ∷ rest

unfoldable pub job_places : Job → List Text
unfolding s3_places
job_places job =
    let places = s3_places job.destinations in
    if is_empty places || any is_local_spec job.destinations
    then places ++ (local_place ∷ [])
    else places

-- `plain_at` is `none` in a config of one job: every plain id is its own.
pub record SnapshotScope : Type 0 where
  pub job : Text
  pub scoped : Bool
  pub plain_at : Option (List Text)

unfoldable pub new_id : SnapshotScope → DateTime → Text
new_id scope now = new_snapshot_id now (if scope.scoped then some scope.job else none)

abbrev owns_plain : SnapshotScope → Text → Option Text → Option (List Text) → Bool
owns_plain scope place marked_for none = true
owns_plain scope place (some owner) (some places) = text_eq owner scope.job
owns_plain scope place none (some places) = elem place places

abbrev pub owns_by : SnapshotScope → Text → Option Text → Option Text → Bool
owns_by scope place marked_for (some slug) = text_eq slug (job_slug scope.job)
owns_by scope place marked_for none = owns_plain scope place marked_for scope.plain_at

unfoldable pub owns : SnapshotScope → Text → Text → Option Text → Bool
owns scope sid place marked_for = owns_by scope place marked_for (parse_snapshot_id sid).1

-- `first.setdefault(place, name)` for each place.
unfoldable pub set_defaults : Text → List Text → Dict Text → Dict Text
set_defaults name [] first = first
set_defaults name (place ∷ places) first =
    set_defaults name places
      (if is_some (lookup place first) then first else insert place name first)

unfoldable pub first_jobs : List Job → Dict Text → Dict Text
unfolding set_defaults job_places
first_jobs [] first = first
first_jobs (job ∷ jobs) first = first_jobs jobs (set_defaults job.name (job_places job) first)

-- `{p for p, name in first.items() if name == job.name}`
unfoldable pub places_of : Text → Dict Text → List Text
places_of name [] = []
places_of name ((place, owner) ∷ first) =
    let rest = places_of name first in if text_eq owner name then place ∷ rest else rest

unfoldable pub scope_for : List Job → Job → SnapshotScope
unfolding first_jobs places_of
scope_for [] job = record { job = job.name; scoped = false; plain_at = none }
scope_for (only ∷ []) job = record { job = job.name; scoped = false; plain_at = none }
scope_for (a ∷ b ∷ jobs) job = record {
  job = job.name;
  scoped = true;
  plain_at = some (places_of job.name (first_jobs (a ∷ b ∷ jobs) []));
}

-- ===== src/Snapshots/Ids.antt =====
-- A snapshot id gives back the time and the job that it was made from.
use mathlib.Core.List.{append-nil}
use cs_backup_helper.Base.{
  ◌≡◌, refl, sym, true, false, Option, none, some, [], ◌∷◌, ◌++◌, map, if◌then◌else◌, all, take,
  drop, is_empty, arith,
}
use cs_backup_helper.Base.Text.{Text, text_lt}
use cs_backup_helper.Clock.{DateTime, is_valid}
use cs_backup_helper.Clock.Format.{two_digits, stamp}
use cs_backup_helper.Clock.RoundTrip.{strptime-stamp, fields, lt-stamp-append}
use cs_backup_helper.Snapshots.{
  in_slug, job_slug, new_snapshot_id, parse_rest, parse_snapshot_id, timestamp_len,
}

take-stamp : (t : DateTime) (s : Text) → take timestamp_len (stamp t ++ s) ≡ stamp t
unfolding stamp two_digits
take-stamp t s = refl

drop-stamp : (t : DateTime) (s : Text) → drop timestamp_len (stamp t ++ s) ≡ s
unfolding stamp two_digits
drop-stamp t s = refl

take-stamp_alone : (t : DateTime) → take timestamp_len (stamp t) ≡ stamp t
unfolding stamp two_digits
take-stamp_alone t = refl

drop-stamp_alone : (t : DateTime) → drop timestamp_len (stamp t) ≡ []
unfolding stamp two_digits
drop-stamp_alone t = refl

all-in_slug-map : (name : Text) → all in_slug (map (λ c. if in_slug c then c else b'-') name) ≡ true
all-in_slug-map [] = refl
all-in_slug-map (c ∷ name) = ground (arith, all-in_slug-map name, dash-in_slug)
  where
    dash-in_slug : in_slug b'-' ≡ true
    dash-in_slug = unfold in_slug in refl

-- A slug is not empty and holds only letters, digits, `_` and `-`.
pub job_slug-IsSlug :
    (name : Text) → (is_empty (job_slug name) ≡ false) × (all in_slug (job_slug name) ≡ true)
unfolding job_slug
job_slug-IsSlug [] = (refl, refl)
job_slug-IsSlug (c ∷ name) = (refl, all-in_slug-map (c ∷ name))

abbrev pub slug_of : Option Text → Option Text
slug_of none = none
slug_of (some job) = some (job_slug job)

-- The id of a run reads back as its start, to the second, and the slug of its job, if it has one.
pub parse-new_snapshot_id :
    (now : DateTime) (job : Option Text)
    → is_valid now ≡ true
    → parse_snapshot_id (new_snapshot_id now job) ≡ (some (record now { micro = 0 }), slug_of job)
unfolding new_snapshot_id parse_snapshot_id parse_rest
parse-new_snapshot_id now none v =
    rw (take-stamp_alone now, drop-stamp_alone now, strptime-stamp now v)
parse-new_snapshot_id now (some job) v =
    let s = job_slug-IsSlug job in
    rw (take-stamp now _, drop-stamp now _, strptime-stamp now v) (rw (s.0, s.1))

abbrev suffix : Option Text → Text
suffix none = []
suffix (some job) = b'_' ∷ job_slug job

new_snapshot_id-suffix :
    (t : DateTime) (job : Option Text) → new_snapshot_id t job ≡ stamp t ++ suffix job
unfolding new_snapshot_id
new_snapshot_id-suffix t none = sym (append-nil (stamp t))
new_snapshot_id-suffix t (some job) = refl

-- Ids of later runs are greater, whatever jobs the two ids name.
lt-new_snapshot_id :
    (a b : DateTime) (i j : Option Text)
    → is_valid a ≡ true
    → is_valid b ≡ true
    → text_lt (fields a) (fields b) ≡ true
    → text_lt (new_snapshot_id a i) (new_snapshot_id b j) ≡ true
lt-new_snapshot_id a b i j va vb h =
    rw (new_snapshot_id-suffix a i, new_snapshot_id-suffix b j)
      (lt-stamp-append a b (suffix i) (suffix j) va vb h)

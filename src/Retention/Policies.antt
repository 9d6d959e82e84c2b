-- ===== src/Retention/Policies.antt =====
-- retention/count.py, age.py, gfs.py and smart.py: one function each, from snapshots to ids.
-- A Python set is a list here, of which only the members count.
use cs_backup_helper.Base.{
  ℕ, ◌+◌, ◌*◌, Bool, none, some, List, [], ◌∷◌, ◌++◌, ltb, ◌==◌, drop, take, keep_if, if◌then◌else◌,
}
use cs_backup_helper.Base.Int.{ℤ, pos, negsuc}
use cs_backup_helper.Base.Text.{Text, text_lt}
use cs_backup_helper.Base.Sort.{sort_desc}
use cs_backup_helper.Base.Dict.{Dict, lookup, insert, keys}
use cs_backup_helper.Base.Result.{Result, ok, raised, overflow_error}
use cs_backup_helper.Clock.{DateTime, ordinal, instant, iso_week}
use cs_backup_helper.Retention.{Snapshot, ids}

-- count.py: the newest `keep` by id stay; `keep <= 0` keeps everything.
unfoldable pub count_prunable : List Snapshot → ℤ → List Text
count_prunable snapshots (negsuc n) = []
count_prunable snapshots (pos keep) =
    if keep == 0 then [] else ids (drop keep (sort_desc (λ (s : Snapshot). s.id) snapshots))

-- The microseconds of a day.
abbrev pub day_micros : ℕ
day_micros = 86_400_000_000

-- `s.when < now - timedelta(days=max_age_days)`, with the days moved to the other side.
unfoldable pub is_older : ℕ → DateTime → Snapshot → Bool
is_older max_age_days now s = ltb (instant s.when + max_age_days * day_micros) (instant now)

-- age.py. A cutoff before 1 January of year 1 is not a `datetime`: the subtraction raises.
unfoldable pub age_prunable : List Snapshot → ℕ → DateTime → Result (List Text)
unfolding is_older
age_prunable snapshots max_age_days now =
    if max_age_days == 0
    then ok []
    else if ltb max_age_days (ordinal now.year now.month now.day)
    then ok (ids (keep_if (is_older max_age_days now) snapshots))
    else raised overflow_error

-- gfs.py: the newest snapshot of each bucket so far, by the bucket's key.
unfoldable pub note_newest : (Snapshot → List ℕ) → Dict Snapshot → Snapshot → Dict Snapshot
note_newest bucket newest snap = elim (lookup (bucket snap) newest) [
  | none ↦ insert (bucket snap) snap newest
  | some current ↦ if text_lt current.id snap.id then insert (bucket snap) snap newest else newest
]

unfoldable pub newest_in_bucket :
    (Snapshot → List ℕ) → Dict Snapshot → List Snapshot → Dict Snapshot
unfolding note_newest
newest_in_bucket bucket newest [] = newest
newest_in_bucket bucket newest (snap ∷ snaps) =
    newest_in_bucket bucket (note_newest bucket newest snap) snaps

-- `sorted(newest_in_bucket, reverse=True)[:count]`
unfoldable pub kept_buckets : ℕ → Dict Snapshot → List (List ℕ)
unfolding sort_desc keys
kept_buckets count newest = take count (sort_desc (λ key. key) (keys newest))

unfoldable pub ids_at : Dict Snapshot → List (List ℕ) → List Text
ids_at newest [] = []
ids_at newest (key ∷ rest) = elim (lookup key newest) [
  | none ↦ ids_at newest rest
  | some s ↦ s.id ∷ ids_at newest rest
]

unfoldable pub keep_for_tier : List Snapshot → ℕ → (Snapshot → List ℕ) → List Text
unfolding newest_in_bucket kept_buckets ids_at
keep_for_tier snapshots count bucket =
    if count == 0
    then []
    else let newest = newest_in_bucket bucket [] snapshots in
      ids_at newest (kept_buckets count newest)

abbrev pub by_day : Snapshot → List ℕ
by_day s = s.when.year ∷ s.when.month ∷ s.when.day ∷ []

abbrev pub by_week : Snapshot → List ℕ
by_week s = iso_week s.when

abbrev pub by_month : Snapshot → List ℕ
by_month s = s.when.year ∷ s.when.month ∷ []

unfoldable pub select_keep : List Snapshot → ℕ → ℕ → ℕ → List Text
unfolding keep_for_tier
select_keep snaps daily weekly monthly =
    keep_for_tier snaps daily by_day
    ++ keep_for_tier snaps weekly by_week
    ++ keep_for_tier snaps monthly by_month

-- smart.py: `max(ids)`.
unfoldable pub max_id : Text → List Snapshot → Text
max_id best [] = best
max_id best (s ∷ rest) = max_id (if text_lt best s.id then s.id else best) rest

unfoldable pub protected_last : List Snapshot → List Text
unfolding max_id
protected_last [] = []
protected_last (s ∷ rest) = max_id s.id rest ∷ []

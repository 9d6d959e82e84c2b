-- ===== src/Retention/Tests.antt =====
-- Runs of the retention policies, and their theorems at concrete snapshots.
use cs_backup_helper.Base.{
  ℕ, ◌≡◌, refl, ◌<◌, ◌≤◌, ◌⊎◌, inl, inr, Bool, true, false, List, [], ◌∷◌, arith, In, length,
  count_if, ◌↔◌, ◌-◌,
}
use cs_backup_helper.Base.Int.{pos}
use cs_backup_helper.Base.Text.{codes, elem, text_lt, text_eq}
use cs_backup_helper.Base.Result.{ok}
use cs_backup_helper.Clock.{DateTime, ordinal}
use cs_backup_helper.Retention.{Snapshot, ids}
use cs_backup_helper.Retention.Policies.{
  count_prunable, age_prunable, select_keep, protected_last, keep_for_tier, by_day,
}
use cs_backup_helper.Retention.Manager.{RetentionConfig, select_prunable}
use cs_backup_helper.Retention.Tiers.{IsTier, keep_for_tier-IsTier}
use cs_backup_helper.Retention.Safety.{Selected, pruned-Selected, last_survives}

abbrev at_day : ℕ → ℕ → DateTime
at_day day hour = record {
  year = 2026;
  month = 7;
  day = day;
  hour = hour;
  minute = 0;
  second = 0;
  micro = 0;
}

abbrev first : Snapshot
first = record { id = codes "a"; when = at_day 1 3 }

abbrev second : Snapshot
second = record { id = codes "b"; when = at_day 2 3 }

abbrev third : Snapshot
third = record { id = codes "c"; when = at_day 2 9 }

abbrev snaps : List Snapshot
snaps = first ∷ second ∷ third ∷ []

abbrev cfg : RetentionConfig
cfg = record {
  count = pos 1;
  age_days = 0;
  gfs = record { daily = 2; weekly = 0; monthly = 0 };
  smart_last = true;
}

prunes_middle : select_prunable snaps cfg (at_day 3 0) ≡ ok (codes "b" ∷ [])
unfolding select_prunable count_prunable age_prunable select_keep protected_last text_lt
    cs_backup_helper.Base.Dict.lookup cs_backup_helper.Base.Dict.insert text_eq
prunes_middle = refl

tier_of_weeks : select_keep snaps 0 5 0 ≡ codes "c" ∷ []
unfolding select_keep cs_backup_helper.Base.Dict.lookup cs_backup_helper.Base.Dict.insert text_eq
    cs_backup_helper.Clock.iso_week text_lt
tier_of_weeks = refl

age_run : age_prunable snaps 1 (at_day 2 4) ≡ ok (codes "a" ∷ [])
unfolding age_prunable ordinal cs_backup_helper.Clock.instant
age_run = refl

count_run : count_prunable snaps (pos 2) ≡ codes "a" ∷ []
unfolding count_prunable cs_backup_helper.Base.Sort.sort_desc text_lt
count_run = refl

keep_for_tier-IsTier_example :
    (kept : List Snapshot) × (keep_for_tier snaps 2 by_day ≡ ids kept) × IsTier by_day snaps 2 kept
keep_for_tier-IsTier_example = keep_for_tier-IsTier by_day snaps 2 (omega arith)

pruned-Selected_example : Selected snaps cfg (at_day 3 0) (codes "b")
unfolding text_eq
pruned-Selected_example = pruned-Selected snaps cfg (at_day 3 0) prunes_middle (codes "b") refl

third-last : (t : Snapshot) → In t snaps → text_lt third.id t.id ≡ false
unfolding text_lt
third-last t (inl e) = rw e
third-last t (inr (inl e)) = rw e
third-last t (inr (inr (inl e))) = rw e
third-last t (inr (inr (inr n))) = elim n [ ]

last_survives_example : elem (codes "c") (codes "b" ∷ []) ≡ false
last_survives_example =
    last_survives snaps cfg (at_day 3 0) prunes_middle refl third (inr (inr (inl refl))) third-last

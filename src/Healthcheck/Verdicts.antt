-- ===== src/Healthcheck/Verdicts.antt =====
-- What a healthy verdict means.
use cs_backup_helper.Base.{
  if◌then◌else◌, ◌∙◌, not, keep_if, is_empty, map, ℕ, ◌+◌, ◌≤◌, ◌≡◌, ◌↔◌, inl, inr, refl, true,
  false, Bool-cases, Option, none, some, List, [], ◌∷◌, All, In, arith,
}
use cs_backup_helper.Healthcheck.{
  max_age_of, scope_for, is_own, is_healthy, job_verdict, combine, Verdict, judge_jobs, Text, Job,
  Run, is_later, latest, judge_latest, judge,
}

-- The run is one of the given, and no given run is later.
abbrev pub IsLatest : List Run → Run → Type 0
IsLatest runs r = In r runs × All (λ other. is_later r other ≡ false) runs

is_later_trans : (a b c : Run) → is_later a b ≡ false → is_later b c ≡ false → is_later a c ≡ false
unfolding is_later
is_later_trans a b c h k = ground arith

is_later_asymm : (a b : Run) → is_later a b ≡ true → is_later b a ≡ false
unfolding is_later
is_later_asymm a b h = ground arith

is_later_irrefl : (a : Run) → is_later a a ≡ false
unfolding is_later
is_later_irrefl a = ground arith

-- Of two runs, the one that is kept.
kept-first : (best r : Run) → IsLatest (best ∷ r ∷ []) (if is_later best r then r else best)
kept-first best r = elim (Bool-cases (is_later best r)) [
  | inl e ↦ rw e (inr (inl refl), (is_later_asymm best r e, (is_later_irrefl r, tt)))
  | inr e ↦ rw e (inl refl, (is_later_irrefl best, (e, tt)))
]

kept-IsLatest :
    (best r next last : Run) (runs : List Run)
    → IsLatest (best ∷ r ∷ []) next
    → IsLatest (next ∷ runs) last
    → IsLatest (best ∷ r ∷ runs) last
kept-IsLatest best r next last runs (m, (h, (k, u))) (n, (g, a)) =
    (In-kept m n, (is_later_trans last next best g h, (is_later_trans last next r g k, a)))
  where
    In-kept : In next (best ∷ r ∷ []) → In last (next ∷ runs) → In last (best ∷ r ∷ runs)
    In-kept m (inr n) = inr (inr n)
    In-kept (inl p) (inl q) = inl (q ∙ p)
    In-kept (inr (inl p)) (inl q) = inr (inl (q ∙ p))
    In-kept (inr (inr impossible)) (inl q) = elim impossible [ ]

latest-IsLatest : (best : Run) (runs : List Run) → IsLatest (best ∷ runs) (latest best runs)
unfolding latest
latest-IsLatest best [] = (inl refl, (is_later_irrefl best, tt))
latest-IsLatest best (r ∷ runs) =
    let next = if is_later best r then r else best in
    kept-IsLatest best r next (latest next runs) runs (kept-first best r)
      (latest-IsLatest next runs)

-- The last run did not fail and is young enough.
abbrev pub IsFresh : ℕ → ℕ → Run → Type 0
IsFresh max_age now r = (r.failure ≡ none) × (now ≤ r.at + max_age)

judge_latest-IsFresh :
    (r : Run) (max_age now : ℕ)
    → ((judge_latest r max_age now).healthy ≡ true) ↔ IsFresh max_age now r
unfolding judge_latest
judge_latest-IsFresh r max_age now = ground arith

-- A healthy verdict on some runs rests on a run that no other is later than, which did not fail
-- and is no older than the limit; when every run that no other is later than is such a run, the
-- verdict is healthy; and without runs it is healthy exactly when the daemon's start is known and
-- no older than the limit.
pub judge_exact :
    (r : Run) (runs : List Run) (max_age now : ℕ) (started : Option ℕ)
    → ((judge (r ∷ runs) max_age now started).healthy ≡ true
        → (last : Run) × IsLatest (r ∷ runs) last × IsFresh max_age now last)
      × (((last : Run) → IsLatest (r ∷ runs) last → IsFresh max_age now last)
          → (judge (r ∷ runs) max_age now started).healthy ≡ true)
      × ((judge [] max_age now started).healthy ≡ true
          ↔ ((start : ℕ) × (started ≡ some start) × (now ≤ start + max_age)))
unfolding judge
judge_exact r runs max_age now started =
    let last = latest r runs in
    let m = latest-IsLatest r runs in
    let e = judge_latest-IsFresh last max_age now in
    (λ h. (last, m, e.0 h), λ h. e.1 (h last m), empty-exact started)
  where
    empty-exact :
        (started : Option ℕ)
        → (judge [] max_age now started).healthy ≡ true
          ↔ ((start : ℕ) × (started ≡ some start) × (now ≤ start + max_age))
    empty-exact none = (λ h. absurd (ground arith), λ (start, e, h). cc)
    empty-exact (some start) = (λ h. (start, refl, ground arith), λ (other, e, h). ground arith)

nothing_failing :
    (verdicts : List (Text × Verdict))
    → (is_empty (keep_if (λ (name, verdict). not verdict.healthy) verdicts) ≡ true)
      ↔ All (λ (name, verdict). verdict.healthy ≡ true) verdicts
nothing_failing [] = (λ h. tt, λ h. refl)
nothing_failing ((name, verdict) ∷ verdicts) =
    let rest = nothing_failing verdicts in
    elim (Bool-cases verdict.healthy) [
      | inl e ↦ rw e (λ h. (refl, rest.0 h), λ (g, h). rest.1 h)
      | inr e ↦ rw e (λ h. absurd (ground arith), λ (g, h). absurd (ground arith))
    ]

All-of_map :
    (P : Text × Verdict → Type 0) (f : Job → Text × Verdict) (jobs : List Job)
    → (All P (map f jobs) → All (λ job. P (f job)) jobs)
      × (All (λ job. P (f job)) jobs → All P (map f jobs))
All-of_map P f [] = (λ h. h, λ h. h)
All-of_map P f (job ∷ jobs) =
    let rest = All-of_map P f jobs in (λ (g, h). (g, rest.0 h), λ (g, h). (g, rest.1 h))

module _ (a b : Job) (jobs : List Job) (runs : List Run) (marked : List (Text × Text))
    (default now : ℕ) (started : Option ℕ) where
  -- With several jobs, the check is healthy exactly when the verdict on each job's own runs is.
  pub judge_jobs_exact :
      (is_healthy (judge_jobs (a ∷ b ∷ jobs) runs marked default now started) ≡ true)
      ↔ All
          (λ job.
            (judge
              (keep_if (is_own (scope_for (a ∷ b ∷ jobs) job) marked) runs)
              (max_age_of job default)
              now
              started).healthy
            ≡ true)
          (a ∷ b ∷ jobs)
  unfolding judge_jobs combine job_verdict
  judge_jobs_exact =
      let f = job_verdict (a ∷ b ∷ jobs) runs marked default now started in
      let each = All-of_map (λ (name, verdict). verdict.healthy ≡ true) f (a ∷ b ∷ jobs) in
      let none_failing = nothing_failing (map f (a ∷ b ∷ jobs)) in
      (λ h. each.0 (none_failing.0 h), λ h. none_failing.1 (each.1 h))

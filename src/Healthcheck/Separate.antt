-- ===== src/Healthcheck/Separate.antt =====
-- With several jobs, each job is judged by its own runs.
use cs_backup_helper.Base.{
  ℕ, ◌+◌, ◌≤◌, ◌≡◌, ◌⊎◌, ◌↔◌, refl, sym, subst, ◌∙◌, inl, inr, true, false, Option, some, none,
  List, [], ◌∷◌, keep_if, All, All-In, All-of_In, All-map, In,
}
use cs_backup_helper.Base.Text.{Text, eq_iff}
use cs_backup_helper.Base.Members.{In-keep_if, kept_by_keep_if}
use cs_backup_helper.Config.{Job}
use cs_backup_helper.Snapshots.{scope_for, owns, local_place}
use cs_backup_helper.Snapshots.Ownership.{SlugsDiffer, owns-exclusive}
use cs_backup_helper.Runner.Prune.{owner_of}
use cs_backup_helper.Healthcheck.{Run, is_healthy, is_later, judge, max_age_of, is_own, judge_jobs}
use cs_backup_helper.Healthcheck.Verdicts.{IsLatest, IsFresh, judge_exact, judge_jobs_exact}

-- The daemon started, no longer ago than the limit.
abbrev pub InGrace : Option ℕ → ℕ → ℕ → Type 0
InGrace started max_age now = (start : ℕ) × (started ≡ some start) × (now ≤ start + max_age)

judge-healthy :
    (runs : List Run) (max_age now : ℕ) (started : Option ℕ)
    → (judge runs max_age now started).healthy ≡ true
    → ((runs ≡ []) × InGrace started max_age now)
      ⊎ ((last : Run) × IsLatest runs last × IsFresh max_age now last)
judge-healthy [] max_age now started h =
    let some_run : Run = record { at = 0; rank = 0; failure = none; job = none; sid = [] } in
    inl (refl, (judge_exact some_run [] max_age now started).2.0 h)
judge-healthy (r ∷ runs) max_age now started h = inr ((judge_exact r runs max_age now started).0 h)

healthy-judge :
    (runs : List Run) (max_age now : ℕ) (started : Option ℕ)
    → ((last : Run) → IsLatest runs last → IsFresh max_age now last)
    → (runs ≡ [] → InGrace started max_age now)
    → (judge runs max_age now started).healthy ≡ true
healthy-judge [] max_age now started fresh grace =
    let some_run : Run = record { at = 0; rank = 0; failure = none; job = none; sid = [] } in
    (judge_exact some_run [] max_age now started).2.1 (grace refl)
healthy-judge (r ∷ runs) max_age now started fresh grace =
    (judge_exact r runs max_age now started).1 fresh

module _ (first second : Job) (jobs : List Job) (runs : List Run) (marked : List (Text × Text))
    (default now : ℕ) (started : Option ℕ) where
  abbrev several : List Job
  several = first ∷ second ∷ jobs

  -- A record names the job; the snapshot of a manifest is owned by it.
  abbrev pub IsRunOf : Job → Run → Type 0
  IsRunOf job r = elim r.job [
    | some name ↦ name ≡ job.name
    | none ↦ owns (scope_for several job) r.sid local_place (owner_of r.sid marked) ≡ true
  ]

  -- The last run of the job, which is of no other job, did not fail and is young enough; or the job
  -- has no run and the daemon's start is known and young enough.
  abbrev pub IsFine : Job → Type 0
  IsFine job =
      ((last : Run) × In last runs
        × IsRunOf job last
        × ((other : Job) → In other several → IsRunOf other last → other.name ≡ job.name)
        × All (λ r. IsRunOf job r → is_later last r ≡ false) runs
        × IsFresh (max_age_of job default) now last)
      ⊎ (All (λ r. ¬ IsRunOf job r) runs × InGrace started (max_age_of job default) now)

  -- Every last run of the job did not fail and is young enough, and without a run of the job the
  -- daemon's start is known and young enough.
  abbrev pub MustBeFine : Job → Type 0
  MustBeFine job =
      ((last : Run)
        → In last runs
        → IsRunOf job last
        → All (λ r. IsRunOf job r → is_later last r ≡ false) runs
        → IsFresh (max_age_of job default) now last)
      × (All (λ r. ¬ IsRunOf job r) runs → InGrace started (max_age_of job default) now)

  own_iff : (job : Job) (r : Run) → (is_own (scope_for several job) marked r ≡ true) ↔ IsRunOf job r
  unfolding is_own scope_for
  own_iff job r = by_job r.job refl
    where
      by_job :
          (o : Option Text)
          → r.job ≡ o
          → (is_own (scope_for several job) marked r ≡ true) ↔ IsRunOf job r
      by_job (some name) e = rw e (eq_iff name job.name)
      by_job none e = rw e (λ h. h, λ h. h)

  exclusive :
      (job other : Job) (r : Run)
      → SlugsDiffer other.name job.name
      → IsRunOf other r
      → IsRunOf job r
      → other.name ≡ job.name
  exclusive job other r differ = by_job r.job refl
    where
      by_job :
          (o : Option Text) → r.job ≡ o → IsRunOf other r → IsRunOf job r → other.name ≡ job.name
      by_job (some name) e = rw e (λ p q. sym p ∙ q)
      by_job none e = rw e (
          owns-exclusive first second jobs other job r.sid local_place (owner_of r.sid marked)
            differ)

  own-IsFine :
      (job : Job)
      → ((other : Job) → In other several → SlugsDiffer other.name job.name)
      → (judge
          (keep_if (is_own (scope_for several job) marked) runs)
          (max_age_of job default)
          now
          started).healthy
        ≡ true
      → IsFine job
  own-IsFine job differ h =
      let own = is_own (scope_for several job) marked in
      elim (judge-healthy (keep_if own runs) (max_age_of job default) now started h) [
        | inl (e, grace) ↦ inr (
          All-of_In (λ r. ¬ IsRunOf job r) runs
              (λ r m of_job. subst (In r) e (In-keep_if own runs r m ((own_iff job r).1 of_job))),
          grace,
        )
        | inr (last, (m, latest), fresh) ↦
            let (i, mine) = kept_by_keep_if own runs last m in
            let of_job = (own_iff job last).0 mine in
            inl (
              last,
              i,
              of_job,
              (λ other n of_other. exclusive job other last (differ other n) of_other of_job),
              All-of_In (λ r. IsRunOf job r → is_later last r ≡ false) runs
                  (λ r k r_of_job.
                    All-In (λ r. is_later last r ≡ false) (keep_if own runs) r latest
                      (In-keep_if own runs r k ((own_iff job r).1 r_of_job))),
              fresh,
            )
      ]

  MustBeFine-own :
      (job : Job)
      → MustBeFine job
      → (judge
          (keep_if (is_own (scope_for several job) marked) runs)
          (max_age_of job default)
          now
          started).healthy
        ≡ true
  MustBeFine-own job (fresh, grace) =
      let own = is_own (scope_for several job) marked in
      healthy-judge (keep_if own runs) (max_age_of job default) now started
        (λ last (m, latest).
          let (i, mine) = kept_by_keep_if own runs last m in
          fresh last i ((own_iff job last).0 mine) (
            All-of_In (λ r. IsRunOf job r → is_later last r ≡ false) runs
              (λ r k r_of_job.
                All-In (λ r. is_later last r ≡ false) (keep_if own runs) r latest
                  (In-keep_if own runs r k ((own_iff job r).1 r_of_job)))))
        (λ e. grace (
          All-of_In (λ r. ¬ IsRunOf job r) runs
            (λ r m of_job. subst (In r) e (In-keep_if own runs r m ((own_iff job r).1 of_job)))))

  -- With several jobs whose names do not share a slug, a healthy verdict means for each job that the
  -- last of its runs, which is a run of no other job, did not fail and is no older than the job's
  -- limit, or that it has no run and the daemon's start is known and no older than that; so a good
  -- run of one job never hides that another job fails or is late. The verdict is healthy if each
  -- job is so fine whichever of its runs counts as the last.
  pub judge_jobs-IsFine :
      ((x y : Job) → In x several → In y several → SlugsDiffer x.name y.name)
      → (is_healthy (judge_jobs several runs marked default now started) ≡ true
          → All IsFine several)
        × (All MustBeFine several
            → is_healthy (judge_jobs several runs marked default now started) ≡ true)
  judge_jobs-IsFine differ =
      let exact = judge_jobs_exact first second jobs runs marked default now started in
      (
        λ h. All-of_In IsFine several (λ job m.
            own-IsFine job (λ other n. differ other job n m) (All-In _ several job (exact.0 h) m)),
        λ h. exact.1 (All-map MustBeFine _ several (λ job k. MustBeFine-own job k) h),
      )

-- ===== src/Cli/Picks.antt =====
-- A command on the snapshot of a job is about that job.
use cs_backup_helper.Base.{
  ◌≡◌, refl, ap, Bool, true, inl, inr, Bool-cases, none, some, List, [], ◌∷◌, In, arith,
}
use cs_backup_helper.Base.Text.{text_eq, eq_iff, eq_refl}
use cs_backup_helper.Clock.{DateTime, is_valid}
use cs_backup_helper.Config.{Job}
use cs_backup_helper.Snapshots.{new_snapshot_id, job_slug}
use cs_backup_helper.Snapshots.Ids.{parse-new_snapshot_id}
use cs_backup_helper.Cli.{first_job, owner_by_slug, or_first, pick_job}

first_job-finds :
    (p : Job → Bool) (jobs : List Job) (job : Job)
    → In job jobs
    → p job ≡ true
    → (picked : Job) × (first_job p jobs ≡ some picked) × In picked jobs × (p picked ≡ true)
unfolding first_job
first_job-finds p [] job m h = elim m [ ]
first_job-finds p (first ∷ jobs) job m h = elim (Bool-cases (p first)) [
  | inl e ↦ (first, rw e refl, inl refl, e)
  | inr e ↦ elim m [
    | inl q ↦ let same : p job ≡ p first = ap p q in absurd (ground arith)
    | inr n ↦
        let (picked, found, there, good) = first_job-finds p jobs job n h in
        (picked, rw e found, inr there, good)
  ]
]

-- Without `--job`, a command on the id that a run of a configured job generates in its job-scoped
-- form is about a configured job whose name has the slug of that job's name.
pick_job-new_snapshot_id :
    (first : Job) (jobs : List Job) (job : Job) (now : DateTime)
    → In job (first ∷ jobs)
    → is_valid now ≡ true
    → (picked : Job) × (pick_job (first ∷ jobs) none (new_snapshot_id now (some job.name))
        ≡ some picked)
      × In picked (first ∷ jobs)
      × (job_slug picked.name ≡ job_slug job.name)
unfolding pick_job owner_by_slug
pick_job-new_snapshot_id first jobs job now m v =
    let slug = job_slug job.name in
    let (picked, found, there, good) =
      first_job-finds (λ other. text_eq (job_slug other.name) slug) (first ∷ jobs) job m
        (eq_refl slug) in
    (
      picked,
      rw (parse-new_snapshot_id now (some job.name) v) (ap (or_first first) found),
      there,
      (eq_iff (job_slug picked.name) slug).0 good,
    )

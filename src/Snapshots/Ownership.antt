-- ===== src/Snapshots/Ownership.antt =====
-- Who owns a snapshot: at most one job where the jobs' slugs differ.
use mathlib.Core.Bool.{false≢true}
use mathlib.Core.Option.{some-injective}
use cs_backup_helper.Base.{
  ◌≡◌, refl, sym, ap, ◌∙◌, ◌↔◌, inl, inr, true, Option, none, some, List, [], ◌∷◌, if◌then◌else◌,
  Bool-cases, is_some, arith, In,
}
use cs_backup_helper.Base.Text.{Text, text_eq, elem, eq_iff}
use cs_backup_helper.Base.Dict.{Dict, lookup, insert, lookup-insert}
use cs_backup_helper.Config.{Job}
use cs_backup_helper.Snapshots.{
  job_slug, parse_snapshot_id, job_places, owns_by, owns, set_defaults, first_jobs, places_of,
  scope_for,
}

abbrev NodupKeys : Dict Text → Type 0
NodupKeys [] = Unit
NodupKeys ((k, _) ∷ d) = (lookup k d ≡ none) × NodupKeys d

insert-NodupKeys : (k v : Text) (d : Dict Text) → NodupKeys d → NodupKeys (insert k v d)
unfolding insert lookup
insert-NodupKeys k v [] u = (refl, tt)
insert-NodupKeys k v ((j, w) ∷ d) (fresh, u) =
    ground (arith, insert-NodupKeys k v d u, lookup-insert k j v d, eq_iff j k, eq_iff k j)

elem-places_of :
    (name place : Text) (d : Dict Text)
    → NodupKeys d
    → (elem place (places_of name d) ≡ true) ↔ (lookup place d ≡ some name)
unfolding places_of lookup
elem-places_of name place [] u = ground arith
elem-places_of name place ((p, owner) ∷ d) (fresh, u) =
    ground (arith, elem-places_of name place d u, eq_iff place p, eq_iff p place, eq_iff owner name)

set_defaults-NodupKeys :
    (name : Text) (places : List Text) (d : Dict Text)
    → NodupKeys d
    → NodupKeys (set_defaults name places d)
unfolding set_defaults
set_defaults-NodupKeys name [] d u = u
set_defaults-NodupKeys name (p ∷ places) d u =
    set_defaults-NodupKeys name places _ (ground (arith, insert-NodupKeys p name d u))

first_jobs-NodupKeys :
    (jobs : List Job) (d : Dict Text) → NodupKeys d → NodupKeys (first_jobs jobs d)
unfolding first_jobs
first_jobs-NodupKeys [] d u = u
first_jobs-NodupKeys (job ∷ jobs) d u =
    first_jobs-NodupKeys jobs _ (set_defaults-NodupKeys job.name (job_places job) d u)

-- A place that is taken stays with its job.
set_defaults-keeps :
    (name p owner : Text) (places : List Text) (d : Dict Text)
    → lookup p d ≡ some owner
    → lookup p (set_defaults name places d) ≡ some owner
unfolding set_defaults
set_defaults-keeps name p owner [] d e = e
set_defaults-keeps name p owner (q ∷ places) d e =
    set_defaults-keeps name p owner places _
      (ground (arith, e, lookup-insert q p name d, eq_iff q p))

set_defaults-first :
    (name p : Text) (places : List Text) (d : Dict Text)
    → lookup p d ≡ none
    → lookup p (set_defaults name places d) ≡ (if elem p places then some name else none)
unfolding set_defaults
set_defaults-first name p [] d e = e
set_defaults-first name p (q ∷ places) d e = elim (Bool-cases (text_eq p q)) [
  | inl same ↦
      let here : lookup p (if is_some (lookup q d) then d else insert q name d) ≡ some name =
        ground (arith, e, (eq_iff p q).0 same, lookup-insert q p name d, eq_iff q p) in
      rw same (set_defaults-keeps name p name places _ here)
  | inr other ↦
      let away : lookup p (if is_some (lookup q d) then d else insert q name d) ≡ none =
        ground (arith, e, other, lookup-insert q p name d, eq_iff q p, eq_iff p q) in
      rw other (set_defaults-first name p places _ away)
]

first_jobs-keeps :
    (p owner : Text) (jobs : List Job) (d : Dict Text)
    → lookup p d ≡ some owner
    → lookup p (first_jobs jobs d) ≡ some owner
unfolding first_jobs
first_jobs-keeps p owner [] d e = e
first_jobs-keeps p owner (job ∷ jobs) d e =
    first_jobs-keeps p owner jobs _ (set_defaults-keeps job.name p owner (job_places job) d e)

-- The place belongs to one of the jobs that store snapshots there.
first_jobs-owner :
    (p : Text) (jobs : List Job) (d : Dict Text) (job : Job)
    → In job jobs
    → elem p (job_places job) ≡ true
    → lookup p d ≡ none
    → (o : Job) × In o jobs × (lookup p (first_jobs jobs d) ≡ some o.name)
unfolding first_jobs
first_jobs-owner p [] d job m e free = elim m [ ]
first_jobs-owner p (a ∷ jobs) d job m e free =
    let step = set_defaults-first a.name p (job_places a) d free in
    elim (Bool-cases (elem p (job_places a))) [
      | inl here ↦ (a, inl refl, first_jobs-keeps p a.name jobs _ (step ∙ rw here))
      | inr away ↦
          let later : In job jobs = elim m [
            | inl same ↦
                absurd (false≢true (sym away ∙ ap (λ j. elem p (job_places j)) (sym same) ∙ e))
            | inr n ↦ n
          ] in
          let (o, n, q) = first_jobs-owner p jobs _ job later e (step ∙ rw away) in (o, inr n, q)
    ]

-- Names tell the jobs apart by their slugs too.
abbrev pub SlugsDiffer : Text → Text → Type 0
SlugsDiffer a b = job_slug a ≡ job_slug b → a ≡ b

module _ (first second : Job) (jobs : List Job) where
  abbrev pub several : List Job
  several = first ∷ second ∷ jobs

  plain_at_unique :
      (place x y : Text)
      → elem place (places_of x (first_jobs several [])) ≡ true
      → elem place (places_of y (first_jobs several [])) ≡ true
      → x ≡ y
  plain_at_unique place x y p q =
      let unique = first_jobs-NodupKeys several [] tt in
      some-injective x y
        (sym ((elem-places_of x place _ unique).0 p) ∙ (elem-places_of y place _ unique).0 q)

  owns_by-exclusive :
      (a b : Job) (place : Text) (marked_for slug : Option Text)
      → SlugsDiffer a.name b.name
      → owns_by (scope_for several a) place marked_for slug ≡ true
      → owns_by (scope_for several b) place marked_for slug ≡ true
      → a.name ≡ b.name
  unfolding scope_for
  owns_by-exclusive a b place marked_for (some slug) differ p q =
      differ (sym ((eq_iff _ _).0 p) ∙ (eq_iff _ _).0 q)
  owns_by-exclusive a b place (some owner) none differ p q =
      sym ((eq_iff owner a.name).0 p) ∙ (eq_iff owner b.name).0 q
  owns_by-exclusive a b place none none differ p q = plain_at_unique place a.name b.name p q

  -- In a config of several jobs, two jobs whose names do not share a slug never own one snapshot,
  -- at any place and whatever its pending marker says.
  pub owns-exclusive :
      (a b : Job) (sid place : Text) (marked_for : Option Text)
      → SlugsDiffer a.name b.name
      → owns (scope_for several a) sid place marked_for ≡ true
      → owns (scope_for several b) sid place marked_for ≡ true
      → a.name ≡ b.name
  unfolding owns
  owns-exclusive a b sid place marked_for =
      owns_by-exclusive a b place marked_for (parse_snapshot_id sid).1

  -- In a config of several jobs, an id that names no job and has no marker, at a place where some
  -- job stores snapshots, belongs to one of the jobs.
  plain-owned :
      (job : Job) (sid place : Text)
      → In job several
      → elem place (job_places job) ≡ true
      → (parse_snapshot_id sid).1 ≡ none
      → (o : Job) × In o several × (owns (scope_for several o) sid place none ≡ true)
  unfolding owns scope_for lookup
  plain-owned job sid place m e plain =
      let (o, n, q) = first_jobs-owner place several [] job m e refl in
      (o, n, rw plain ((elem-places_of o.name place _ (first_jobs-NodupKeys several [] tt)).1 q))

  -- Jobs whose names share a slug own the same snapshots among those whose ids name a job.
  owns-same_slug :
      (a b : Job) (sid place : Text) (marked_for : Option Text) {slug : Text}
      → job_slug a.name ≡ job_slug b.name
      → (parse_snapshot_id sid).1 ≡ some slug
      → owns (scope_for several a) sid place marked_for
        ≡ owns (scope_for several b) sid place marked_for
  unfolding owns scope_for
  owns-same_slug a b sid place marked_for same named = rw (named, same)

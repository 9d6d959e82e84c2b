-- ===== src/Postgres/Restore/Frames.antt =====
-- The steps of a replacing restore before `psql`: what they keep, and the script that they leave.
use cs_backup_helper.Base.{
  ◌≡◌, ◌≢◌, refl, sym, ap, ◌∙◌, inl, inr, true, ◌==◌, Bool-cases, some, [], ◌∷◌, ◌++◌, arith, all,
  subst,
}
use cs_backup_helper.Base.Text.{text_eq, eq_iff, Text, codes, elem}
use cs_backup_helper.Base.Result.{Exn, time_out, source_error, Result, ok, raised, ok-injective}
use cs_backup_helper.Postgres.{clean_restore_flags, PostgresConfig}
use cs_backup_helper.Postgres.Plan.{Replacement}
use cs_backup_helper.Postgres.Script.{transaction_timeout, commented_out}
use cs_backup_helper.Postgres.Script.Exact.{commented_out_exact}
use cs_backup_helper.Postgres.Session.{EndsInCommit}
use cs_backup_helper.Postgres.Target.{checked}
use cs_backup_helper.Postgres.Restore.{in_directory, is_old, comment_out, commented_if_old}
use cs_backup_helper.Postgres.Restore.Server.{Server, IsTransactional, script_flags}
use cs_backup_helper.Tools.{Completed, Tools, next_of}

append-injective : (p s t : Text) → p ++ s ≡ p ++ t → s ≡ t
append-injective [] s t h = h
append-injective (c ∷ p) s t h = append-injective p s t (cc)

pub names_differ :
    (tmp : Text) → in_directory tmp (codes "restore.sql") ≢ in_directory tmp (codes "replace.sql")
unfolding text_eq
names_differ tmp h =
    let e : text_eq (codes "/restore.sql") (codes "/replace.sql") ≡ true =
      (eq_iff (codes "/restore.sql") (codes "/replace.sql")).1 (append-injective tmp _ _ h) in
    absurd (ground arith)

pub raised_differs : {A : Type 0} (x : Exn) (a : A) → raised x ≡ ok a → ⊥
raised_differs x a q = cc

some-same : (s t : Text) → some s ≡ some t → s ≡ t
some-same s t h = cc

pub flags_known :
    (cfg : PostgresConfig) → all (λ f. elem f script_flags) (clean_restore_flags cfg) ≡ true
unfolding text_eq
flags_known cfg = elim (Bool-cases cfg.keep_acl) [ inl e ↦ rw e | inr e ↦ rw e ]

module _ (T : Tools) (S : Server T) (laws : IsTransactional T S) where
  -- A call that raises anything but a time-out leaves the target as it was in `w`.
  abbrev pub Unchanged : {A : Type 0} → Tools.World T → Result A × Tools.World T → Type 0
  Unchanged w r =
      (e : Exn) → r.0 ≡ raised e → e ≢ time_out → Server.target S r.1 ≡ Server.target S w

  pub next_of-Unchanged :
      {A B : Type 0} (w : Tools.World T) (m : Result A × Tools.World T)
      (next : A → Tools.World T → Result B × Tools.World T)
      → Server.target S m.1 ≡ Server.target S w
      → ((a : A) → m.0 ≡ ok a → Unchanged w (next a m.1))
      → Unchanged w (next_of m next)
  next_of-Unchanged w (ok a, v) next h k = k a refl
  next_of-Unchanged w (raised x, v) next h k = λ e q n. h

  -- A check of the exit code leaves the world alone, and passes only the code 0.
  pub checked_keeps :
      {B : Type 0} (f : Tools.World T → B) (m : Result Completed × Tools.World T)
      → f (next_of m (checked T)).1 ≡ f m.1
  checked_keeps f (ok c, v) = ground arith
  checked_keeps f (raised e, v) = refl

  pub checked_passes :
      (m : Result Completed × Tools.World T) (c : Completed)
      → (next_of m (checked T)).0 ≡ ok c
      → (m.0 ≡ ok c) × ((c.returncode == 0) ≡ true)
  checked_passes (ok d, v) c h = elim (Bool-cases (d.returncode == 0)) [
    | inl e ↦
        let q : d ≡ c = ok-injective d c (rw e at h) in
        (ap (λ x. ok x) q, subst (λ x. (x.returncode == 0) ≡ true) q e)
    | inr e ↦ absurd (raised_differs source_error c (rw e at h))
  ]
  checked_passes (raised e, v) c h = absurd (cc)

  -- Reading a file and writing another, or the same.
  comment_out_target :
      (path line : Text) (w : Tools.World T)
      → Server.target S (comment_out T path line w).1 ≡ Server.target S w
  unfolding comment_out
  comment_out_target path line w = read_then (Tools.read T path w) (laws.read_target path w)
    where
      read_then :
          (m : Result Text × Tools.World T)
          → Server.target S m.1 ≡ Server.target S w
          → Server.target S (next_of m (λ c. Tools.write T path (commented_out line c))).1
            ≡ Server.target S w
      read_then (ok c, v) h = laws.write_target path (commented_out line c) v ∙ h
      read_then (raised e, v) h = h

  comment_out_content :
      (path other line : Text) (w : Tools.World T)
      → path ≢ other
      → Server.content S other (comment_out T path line w).1 ≡ Server.content S other w
  unfolding comment_out
  comment_out_content path other line w d =
      read_then (Tools.read T path w) (laws.read_content path other w)
    where
      read_then :
          (m : Result Text × Tools.World T)
          → Server.content S other m.1 ≡ Server.content S other w
          → Server.content S other (next_of m (λ c. Tools.write T path (commented_out line c))).1
            ≡ Server.content S other w
      read_then (ok c, v) h = laws.write_content_other path other (commented_out line c) v d ∙ h
      read_then (raised e, v) h = h

  pub commented_target :
      (plan : Replacement) (script : Text) (w : Tools.World T)
      → Server.target S (commented_if_old T plan script w).1 ≡ Server.target S w
  unfolding commented_if_old
  commented_target plan script w = elim (Bool-cases (is_old plan.server_version_num)) [
    | inl e ↦ rw e (comment_out_target script transaction_timeout w)
    | inr e ↦ rw e
  ]

  pub commented_content :
      (plan : Replacement) (script other : Text) (w : Tools.World T)
      → script ≢ other
      → Server.content S other (commented_if_old T plan script w).1 ≡ Server.content S other w
  unfolding commented_if_old
  commented_content plan script other w d = elim (Bool-cases (is_old plan.server_version_num)) [
    | inl e ↦ rw e (comment_out_content script other transaction_timeout w d)
    | inr e ↦ rw e
  ]

  -- A script of one transaction in a file.
  abbrev pub HoldsScript : Text → Tools.World T → Type 0
  HoldsScript script w =
      (text : Text) × (Server.content S script w ≡ some text) × EndsInCommit (Server.parse S text)

  commented_out-EndsInCommit :
      (text : Text)
      → EndsInCommit (Server.parse S text)
      → EndsInCommit (Server.parse S (commented_out transaction_timeout text))
  commented_out-EndsInCommit text e =
      elim (commented_out_exact transaction_timeout text (omega arith)) [
        | inl q ↦ subst (λ t. EndsInCommit (Server.parse S t)) (sym q) e
        | inr (pre, post, whole, q, size, bound, place) ↦
            subst (λ t. EndsInCommit (Server.parse S t)) (sym q)
              (laws.parse_commented pre post (subst (λ t. EndsInCommit (Server.parse S t)) whole e))
      ]

  comment_out-HoldsScript :
      (script : Text) (w : Tools.World T) (u : Unit {0})
      → HoldsScript script w
      → (comment_out T script transaction_timeout w).0 ≡ ok u
      → HoldsScript script (comment_out T script transaction_timeout w).1
  unfolding comment_out
  comment_out-HoldsScript script w u (text, held, e) =
      read_then (Tools.read T script w) (λ t. laws.read_result script t w)
    where
      read_then :
          (m : Result Text × Tools.World T)
          → ((t : Text) → m.0 ≡ ok t → Server.content S script w ≡ some t)
          → (next_of m (λ c. Tools.write T script (commented_out transaction_timeout c))).0 ≡ ok u
          → HoldsScript script
              (next_of m (λ c. Tools.write T script (commented_out transaction_timeout c))).1
      read_then (ok c, v) same h =
          let q : text ≡ c = some-same text c (sym held ∙ same c refl) in
          (
            commented_out transaction_timeout c,
            laws.write_content script (commented_out transaction_timeout c) v u h,
            commented_out-EndsInCommit c (subst (λ t. EndsInCommit (Server.parse S t)) q e),
          )
      read_then (raised x, v) same h = absurd (raised_differs x u h)

  pub commented-HoldsScript :
      (plan : Replacement) (script : Text) (w : Tools.World T) (u : Unit {0})
      → HoldsScript script w
      → (commented_if_old T plan script w).0 ≡ ok u
      → HoldsScript script (commented_if_old T plan script w).1
  unfolding commented_if_old
  commented-HoldsScript plan script w u held h =
      elim (Bool-cases (is_old plan.server_version_num)) [
        | inl e ↦ rw e (comment_out-HoldsScript script w u held (rw e at h))
        | inr e ↦ rw e held
      ]

-- ===== src/State/Found.antt =====
-- A recorded run is found again among the records of the data dir.
use cs_backup_helper.Base.{
  ◌≡◌, refl, ◌∙◌, ap, subst, some, true, false, is_some, List, [], ◌∷◌, ◌++◌, map, keep_if, In, inl,
  inr, arith,
}
use cs_backup_helper.Base.Text.{
  Text, codes, elem, strip_suffix, text_eq, eq_refl, starts_with-append,
}
use cs_backup_helper.Base.Dict.{Dict, lookup, keys, elem-keys}
use cs_backup_helper.Base.Members.{In-keep_if, In-sort_asc, In-append, In-elem}
use cs_backup_helper.Storage.{RunRecord, File, run_record}
use cs_backup_helper.State.{
  underscored, has_slash, in_file_name, job_file, is_record_file, record_in, records_in, read_runs,
}

strip_suffix-append : (suffix s : Text) → is_some (strip_suffix suffix (s ++ suffix)) ≡ true
unfolding strip_suffix text_eq
strip_suffix-append [] [] = refl
strip_suffix-append (c ∷ suffix) [] = rw (eq_refl (c ∷ suffix)) refl
strip_suffix-append suffix (c ∷ s) = ground (arith, strip_suffix-append suffix s)

has_slash-underscored : (name : Text) → has_slash (map underscored name ++ codes ".json") ≡ false
unfolding in_file_name
has_slash-underscored [] = refl
has_slash-underscored (c ∷ name) = ground (arith, has_slash-underscored name)

-- What the name of a job becomes: no character of it is a slash.
safe_name :
    (job : Text)
    → (name : Text) × (job_file job ≡ codes ".state/job-" ++ (name ++ codes ".json"))
      × (has_slash (name ++ codes ".json") ≡ false)
unfolding job_file
safe_name [] = (b'_' ∷ [], refl, refl)
safe_name (c ∷ job) = (map underscored (c ∷ job), refl, has_slash-underscored (c ∷ job))

is_record_file-of :
    (name : Text)
    → has_slash (name ++ codes ".json") ≡ false
    → is_record_file (codes ".state/job-" ++ (name ++ codes ".json")) ≡ true
unfolding is_record_file
is_record_file-of name clean = ground (
  arith,
  starts_with-append (codes ".state/job-") (name ++ codes ".json"),
  strip_suffix-append (codes ".json") (codes ".state/job-" ++ name),
)

job_file-is_record_file : (job : Text) → is_record_file (job_file job) ≡ true
job_file-is_record_file job =
    let (name, e, clean) = safe_name job in ap is_record_file e ∙ is_record_file-of name clean

In-records_in :
    (dir : Dict File) (ks : List Text) (key : Text) (r : RunRecord)
    → In key ks
    → lookup key dir ≡ some (run_record r)
    → In r (records_in dir ks)
unfolding records_in
In-records_in dir [] key r m e = elim m [ ]
In-records_in dir (k ∷ ks) key r (inl p) e =
    let q : lookup k dir ≡ some (run_record r) =
      subst (λ x. lookup x dir ≡ some (run_record r)) p e in
    rw q (inl refl)
In-records_in dir (k ∷ ks) key r (inr m) e =
    In-append (record_in (lookup k dir)) (records_in dir ks) r
      (inr (In-records_in dir ks key r m e))

-- The record of a job that stands in its file is read.
pub In-read_runs :
    (dir : Dict File) (r : RunRecord)
    → lookup (job_file r.job) dir ≡ some (run_record r)
    → In r (read_runs dir)
unfolding read_runs
In-read_runs dir r e =
    let key = job_file r.job in
    let listed : elem key (keys dir) ≡ true = elem-keys key dir ∙ ap is_some e in
    let files = keep_if is_record_file (keys dir) in
    let kept : In key files =
      In-keep_if is_record_file (keys dir) key (In-elem key (keys dir) listed)
        (job_file-is_record_file r.job) in
    In-records_in dir _ key r (In-sort_asc (λ k. k) files key kept) e

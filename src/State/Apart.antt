-- ===== src/State/Apart.antt =====
-- The records of jobs whose names are made of the characters of file names do not meet.
use cs_backup_helper.Base.{◌≡◌, ◌≢◌, refl, sym, ap, ◌∙◌, some, true, [], ◌∷◌, ◌++◌, map, All, In}
use mathlib.Core.List.{append_cancel_left, append_cancel_right}
use cs_backup_helper.Base.Text.{Text, codes}
use cs_backup_helper.Base.Dict.{lookup}
use cs_backup_helper.Base.Result.{ok}
use cs_backup_helper.Storage.{RunRecord, run_record, Storage, IsLawful}
use cs_backup_helper.State.{underscored, in_file_name, job_file, record_run, read_runs}
use cs_backup_helper.State.Found.{In-read_runs}
use cs_backup_helper.State.Records.{record_run-file}

-- Every character stays in the name of the record's file.
abbrev pub IsFileName : Text → Type 0
IsFileName name = (name ≢ []) × All (λ c. in_file_name c ≡ true) name

kept_name : (name : Text) → All (λ c. in_file_name c ≡ true) name → map underscored name ≡ name
kept_name [] h = refl
kept_name (c ∷ name) (e, h) = rw (e, kept_name name h) refl

-- A name that is not empty gives its characters to the file's.
named_file :
    (name : Text)
    → name ≢ []
    → job_file name ≡ codes ".state/job-" ++ (map underscored name ++ codes ".json")
unfolding job_file
named_file [] h = absurd (h refl)
named_file (c ∷ name) h = refl

job_file-injective : (a b : Text) → IsFileName a → IsFileName b → job_file a ≡ job_file b → a ≡ b
job_file-injective a b (na, ha) (nb, hb) h =
    let whole = sym (named_file a na) ∙ h ∙ named_file b nb in
    let ends = append_cancel_left (codes ".state/job-") _ _ whole in
    let names = append_cancel_right (map underscored a) (map underscored b) (codes ".json") ends in
    sym (kept_name a ha) ∙ names ∙ kept_name b hb

module _ (S : Storage) (L : IsLawful S) where
  -- Once the runs of two jobs have been recorded, one after the other, whose names differ and are
  -- made of characters that stay in the file's name, the records that are read have both. If
  -- instead the names are not empty and become the same there, the second record stands in the
  -- first one's place, whatever the names are.
  pub recorded-apart :
      (first second : RunRecord) (w : Storage.World S)
      → (record_run S first w).0 ≡ ok tt
      → (record_run S second (record_run S first w).1).0 ≡ ok tt
      → (let after = Storage.dir S (record_run S second (record_run S first w).1).1 in
          (IsFileName first.job
            → IsFileName second.job
            → first.job ≢ second.job
            → In first (read_runs after) × In second (read_runs after))
          × (first.job ≢ []
              → second.job ≢ []
              → map underscored first.job ≡ map underscored second.job
              → lookup (job_file first.job) after ≡ some (run_record second)))
  unfolding record_run
  recorded-apart first second w one two =
      let after = Storage.dir S (record_run S second (record_run S first w).1).1 in
      let there = record_run-file S L second (record_run S first w).1 two in
      (
        λ named named' differ. (
          In-read_runs after first (
              L.write-others (job_file second.job) (job_file first.job) (run_record second)
                (record_run S first w).1
                (λ same. differ (sym (job_file-injective second.job first.job named' named same)))
              ∙ record_run-file S L first w one),
          In-read_runs after second there,
        ),
        λ named named' same.
            ap (λ k. lookup k after)
              (named_file first.job named
                ∙ ap (λ n. codes ".state/job-" ++ (n ++ codes ".json")) same
                ∙ sym (named_file second.job named'))
            ∙ there,
      )

-- ===== src/Loader/Tests.antt =====
-- A placeholder in a text, an override of a nested field, and a numeric password.
use cs_backup_helper.Base.{
  ap, arith, inl, inr, ℕ, List, ◌≡◌, refl, true, false, if◌then◌else◌, Option, none, some, [], ◌∷◌,
  ◌++◌,
}
use cs_backup_helper.Base.Text.{Text, codes, text_eq}
use cs_backup_helper.Base.Dict.{Dict, lookup}
use cs_backup_helper.Base.Result.{ok, raised, key_error}
use cs_backup_helper.Loader.{put_before, interpolate_str}
use cs_backup_helper.Loader.Placeholders.{interpolate_str_exact}
use cs_backup_helper.Loader.Overrides.{json_kind, coerce, is_number, is_textual}
use cs_backup_helper.Base.Words.{is_number as is_digits}
use cs_backup_helper.Loader.Schema.{override_kind}
use cs_backup_helper.Loader.Apply.{apply_overrides}
use cs_backup_helper.Loader.Apply.Secrets.{source_path, password_path, secrets_stay_text}
use cs_backup_helper.Loader.Paths.{Segment, index, name, child, set_path}
use cs_backup_helper.Loader.Paths.Exact.{get_path, set_path_exact}
use cs_backup_helper.Loader.Tree.{
  text, array, item, no_items, Json, number, object, Fields, no_fields, field,
}

abbrev env : Dict Text
env = (codes "PW", codes "s3cret") ∷ []

abbrev whole : Text
whole = codes "pw=${PW};"

interpolate_str_exact_example :
    (interpolate_str (codes "pw=") env ≡ ok (codes "pw="))
    × ((value : Text)
        → lookup (codes "PW") env ≡ some value
        → interpolate_str whole env
          ≡ put_before (codes "pw=" ++ value) (interpolate_str (codes ";") env))
    × (lookup (codes "PW") env ≡ none → interpolate_str whole env ≡ raised key_error)
interpolate_str_exact_example =
    interpolate_str_exact (codes "pw=") (codes "PW") (codes ";") env refl refl refl

abbrev base : Fields
base =
    field (codes "retention")
      (object (field (codes "count") (number 14) (field (codes "age_days") (number 0) no_fields)))
      no_fields

abbrev override : Fields
override = field (codes "retention") (object (field (codes "count") (number 3) no_fields)) no_fields

-- The text 5432 is a number as JSON.
abbrev loads : Text → Option Json
loads value = if text_eq value (codes "5432") then some (number 5432) else none

secrets_stay_text_example :
    (is_number (
        coerce loads
          (codes "5432")
          (override_kind (source_path (codes "0") (codes "1") (codes "password") [])))
      ≡ false)
    × (is_textual (coerce loads (codes "5432") (override_kind (password_path (codes "0")))) ≡ true)
unfolding text_eq is_digits
secrets_stay_text_example =
    secrets_stay_text loads (codes "5432") (codes "0") (codes "1") (codes "password") [] refl refl
      refl

coerce_number : coerce loads (codes "5432") json_kind ≡ number 5432
unfolding coerce text_eq
coerce_number = refl

abbrev head_code : Text → ℕ
head_code [] = 0
head_code (c ∷ t) = c

-- `BACKUP_JOBS__1__RETENTION__COUNT=3` over one job.
abbrev jobs : Json
jobs = object (
    field (codes "jobs")
      (array (item (object (field (codes "name") (text (codes "main")) no_fields)) no_items))
      no_fields)

abbrev count_path : List Segment
count_path = name (codes "jobs") ∷ index 1 ∷ name (codes "retention") ∷ name (codes "count") ∷ []

overridden :
    apply_overrides
      (λ v. some (number 3))
      ((codes "BACKUP_JOBS__1__RETENTION__COUNT", codes "3") ∷ [])
      jobs
    ≡ set_path count_path (number 3) jobs
unfolding apply_overrides text_eq
overridden = refl

abbrev name_path : List Segment
name_path = name (codes "jobs") ∷ index 0 ∷ name (codes "name") ∷ []

set_path_exact_example :
    (get_path count_path (set_path count_path (number 3) jobs) ≡ some (number 3))
    × (get_path name_path (set_path count_path (number 3) jobs) ≡ some (text (codes "main")))
unfolding child text_eq get_path
set_path_exact_example =
    set_path_exact count_path name_path (number 3) (text (codes "main")) jobs (tt, (tt, (tt, tt)))
      (inr (refl, inl (λ e. absurd (omega (arith, ap head_code e))))) refl

-- ===== src/Loader/Apply/Secrets.antt =====
-- A numeric secret that an override gives stays text, through the types of the configuration.
use cs_backup_helper.Base.{true, false, ◌≡◌, Option, List, [], ◌∷◌}
use cs_backup_helper.Base.Text.{Text, codes, text_eq}
use cs_backup_helper.Base.Words.{is_number as is_digits}
use cs_backup_helper.Loader.Tree.{Json}
use cs_backup_helper.Loader.Overrides.{
  text_kind, open_kind, coerce, is_number, is_textual, coerce-is_textual,
}
use cs_backup_helper.Loader.Schema.{override_kind}

-- The path of a key of a source, and that of the password for e-mail, of a job.
abbrev pub source_path : Text → Text → Text → List Text → List Text
source_path job source key rest = codes "jobs" ∷ job ∷ codes "sources" ∷ source ∷ key ∷ rest

abbrev pub password_path : Text → List Text
password_path job =
    codes "jobs" ∷ job ∷ codes "notifications" ∷ codes "email" ∷ codes "password" ∷ []

override_kind-source_path :
    (job source key : Text) (rest : List Text)
    → is_digits job ≡ true
    → is_digits source ≡ true
    → text_eq (codes "type") key ≡ false
    → override_kind (source_path job source key rest) ≡ open_kind
unfolding override_kind text_eq
override_kind-source_path job source key rest j s k = rw (j, s, k)

override_kind-password_path :
    (job : Text) → is_digits job ≡ true → override_kind (password_path job) ≡ text_kind
unfolding override_kind text_eq
override_kind-password_path job j = rw j

-- Whatever the text of an override parses to, a key of a source that the config does not type gets no
-- number, and the password for e-mail gets a text or null, for a job and a source by their numbers.
pub secrets_stay_text :
    (loads : Text → Option Json) (value job source key : Text) (rest : List Text)
    → is_digits job ≡ true
    → is_digits source ≡ true
    → text_eq (codes "type") key ≡ false
    → (is_number (coerce loads value (override_kind (source_path job source key rest))) ≡ false)
      × (is_textual (coerce loads value (override_kind (password_path job))) ≡ true)
secrets_stay_text loads value job source key rest j s k =
    rw (override_kind-source_path job source key rest j s k, override_kind-password_path job j)
      ((coerce-is_textual loads value).1, (coerce-is_textual loads value).0)

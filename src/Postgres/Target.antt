-- ===== src/Postgres/Target.antt =====
-- sources/postgres.py: reading the target of a restore, and planning what to replace in it.
use cs_backup_helper.Base.{
  ℕ, ◌==◌, Bool, true, false, ◌&&◌, Option, none, List, [], ◌∷◌, map, take, is_empty, keep_if,
  if◌then◌else◌,
}
use cs_backup_helper.Base.Text.{Text, codes}
use cs_backup_helper.Base.Words.{number_from, is_number, strip}
use cs_backup_helper.Base.Dict.{Dict}
use cs_backup_helper.Base.Result.{ok, raised, source_error}
use cs_backup_helper.Postgres.{in_database_encoding}
use cs_backup_helper.Postgres.Objects.{LiveObject, ObjectKind, role, server_version, is_object}
use cs_backup_helper.Postgres.Listing.{nul_rows, live_objects, dump_keys}
use cs_backup_helper.Postgres.Plan.{Replacement, plain_plan, plan_of}
use cs_backup_helper.Postgres.Query.{catalog_setup, live_objects_sql}
use cs_backup_helper.Tools.{Completed, Tools, Call, ◌>>=◌, returning}

abbrev pub is_role : ObjectKind → Bool
is_role role = true
is_role kind = false

abbrev pub is_version : ObjectKind → Bool
is_version server_version = true
is_version kind = false

unfoldable pub role_names : List LiveObject → List Text
role_names rows = map (λ (o : LiveObject). o.name) (keep_if (λ o. is_role o.kind) rows)

unfoldable pub version_of : List LiveObject → ℕ
unfolding is_number number_from
version_of [] = 0
version_of (o ∷ rows) =
    let rest = version_of rows in
    if is_version o.kind && is_number o.name then number_from 0 o.name else rest

module _ (T : Tools) where
  -- `_text(data, limit, errors)` without a limit, and with that of 500.
  unfoldable pub whole_text : Text → Text
  unfolding strip
  whole_text raw = strip (Tools.decode T raw)

  unfoldable pub shown_text : Text → Text
  unfolding whole_text
  shown_text raw = take 500 (whole_text raw)

  -- A process that must exit with 0.
  abbrev pub checked : Completed → Call T Completed
  checked c w = if c.returncode == 0 then (ok c, w) else (raised source_error, w)

  unfoldable pub version_in : Completed → ℕ
  unfolding shown_text is_number number_from
  version_in c =
      let version = shown_text c.stdout in
      if (c.returncode == 0) && is_number version then number_from 0 version else 0

  unfoldable pub server_version_num : Dict Text → Call T ℕ
  unfolding version_in
  server_version_num env =
      Tools.run T
        (codes "psql"
          ∷ codes "--no-psqlrc"
          ∷ codes "--quiet"
          ∷ codes "--tuples-only"
          ∷ codes "--no-align"
          ∷ codes "--command"
          ∷ codes "SHOW server_version_num"
          ∷ [])
        env none
      >>= λ c. returning (ok (version_in c))

  unfoldable pub list_objects : Dict Text → Call T (List LiveObject)
  unfolding nul_rows live_objects in_database_encoding
  list_objects env =
      (Tools.run T
          (codes "psql"
            ∷ codes "--no-psqlrc"
            ∷ codes "--quiet"
            ∷ codes "--tuples-only"
            ∷ codes "--no-align"
            ∷ codes "--field-separator-zero"
            ∷ codes "--record-separator-zero"
            ∷ codes "--set"
            ∷ codes "ON_ERROR_STOP=1"
            ∷ codes "--command"
            ∷ catalog_setup
            ∷ codes "--command"
            ∷ live_objects_sql
            ∷ [])
          (in_database_encoding env) none
        >>= checked)
      >>= λ live. returning (live_objects (nul_rows (Tools.decode_escaped T live.stdout)))

  unfoldable pub list_dump : Text → Dict Text → Call T Completed
  list_dump dump env =
      Tools.run T (codes "pg_restore" ∷ codes "--list" ∷ dump ∷ []) env none >>= checked

  unfoldable pub planned : Text → Dict Text → List LiveObject → Call T (Option Replacement)
  unfolding plain_plan plan_of dump_keys version_of role_names list_dump
  planned dump env rows =
      let objects = keep_if (λ o. is_object o.kind) rows in
      let version = version_of rows in
      if is_empty objects
      then returning (ok (plain_plan version))
      else list_dump dump env >>= λ listing. returning (
          plan_of objects
            (dump_keys (strip (Tools.decode_escaped T listing.stdout)) (role_names rows)) version)

  unfoldable pub plan_replacement : Text → Dict Text → Call T (Option Replacement)
  unfolding list_objects planned
  plan_replacement dump env = list_objects env >>= planned dump env

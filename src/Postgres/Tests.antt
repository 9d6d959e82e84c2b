-- ===== src/Postgres/Tests.antt =====
-- A target database that has moved on since its dump: a table and a function that the dump lacks.
pub mod Lines
pub mod Box
pub mod Toolbox
use cs_backup_helper.Base.{
  ◌≤◌, take, length, ◌≡◌, refl, ◌⊎◌, inl, inr, true, false, ◌||◌, none, some, List, [], ◌∷◌, ◌++◌,
  In, All, arith,
}
use cs_backup_helper.Base.Text.{text_eq, text_lt, Text, codes}
use cs_backup_helper.Base.Result.{ok, raised, restore_refused}
use cs_backup_helper.Postgres.{build_dump_argv, component_name, PostgresConfig, csv_items}
use cs_backup_helper.Postgres.Objects.{key, LiveObject, table, function, ObjectKind, object_type}
use cs_backup_helper.Postgres.Listing.{nul_rows, dump_keys, Row}
use cs_backup_helper.Postgres.Listing.RoundTrip.{nul_rows-print, print_rows}
use cs_backup_helper.Postgres.Plan.{
  recreated_schemas, is_absent, for_log, snapshot_schemas, Replacement, plan_of, replacing, is_in,
  schemas_of,
}
use cs_backup_helper.Postgres.Plan.Clears.{Drops, plan_of_clears}
use cs_backup_helper.Postgres.Prelude.{of_type, drop_statement, prelude_lines}
use cs_backup_helper.Postgres.Prelude.Drops.{CommaSeparated, prelude_drops}
use cs_backup_helper.Base.Words.{find}
use cs_backup_helper.Postgres.Script.Exact.{commented_line, commented_out_exact}
use cs_backup_helper.Postgres.Script.{is_before, commented_out, transaction_timeout}

abbrev rows : List Row
rows =
    (codes "r", codes "public", codes "new\nname", [], codes "public.\"new\nname\"", [])
    ∷ (codes "V", [], codes "160004", [], [], [])
    ∷ []

nul_rows-print_example : nul_rows (print_rows rows) ≡ rows
nul_rows-print_example = nul_rows-print rows (
  refl,
  (refl, (refl, (refl, (refl, (refl, (refl, (refl, (refl, (refl, (refl, (refl, tt))))))))))),
)

-- An owner whose name holds a space, and the last word where the owner is not known.
abbrev listing : Text
listing =
    codes
      ";\n; Archive created at 2026-01-01\n215; 1259 16386 TABLE public users app owner\n7; 2615 2200 SCHEMA - app postgres\n3340; 0 16386 TABLE DATA public users app owner\n"

dump_keys_owners :
    dump_keys listing (codes "owner" ∷ codes "app owner" ∷ [])
    ≡ codes "TABLE public users" ∷ codes "SCHEMA - app" ∷ []
unfolding dump_keys text_eq text_lt
dump_keys_owners = refl

abbrev live : ObjectKind → Text → LiveObject
live kind name = record {
  kind = kind;
  schema = codes "public";
  name = name;
  constraint = [];
  quoted = codes "public." ++ name;
  ref_schema = [];
}

abbrev users : LiveObject
users = live table (codes "users")

abbrev sessions : LiveObject
sessions = live table (codes "sessions")

abbrev touch : LiveObject
touch = live function (codes "touch()")

abbrev objects : List LiveObject
objects = users ∷ sessions ∷ touch ∷ []

abbrev keys : List Text
keys = codes "TABLE public users" ∷ []

planned : plan_of objects keys 160004 ≡ ok (some (replacing objects keys 160004))
unfolding plan_of snapshot_schemas is_absent is_in key recreated_schemas
planned = refl

-- Nothing of the target is in the dump: another application's database.
refused : plan_of objects (codes "TABLE public posts" ∷ []) 160004 ≡ raised restore_refused
unfolding plan_of snapshot_schemas is_absent is_in key recreated_schemas
refused = refl

plan_of_clears_example :
    (is_in keys sessions ≡ true) ⊎ Drops (some (replacing objects keys 160004)) sessions
unfolding snapshot_schemas text_eq
plan_of_clears_example =
    plan_of_clears objects keys 160004 (some (replacing objects keys 160004)) sessions planned
      (inr (inl refl)) refl refl refl

prelude_drops_example :
    (before after list : Text) × CommaSeparated before (codes "public.touch()") after list
    × In
        (codes "DROP FUNCTION IF EXISTS " ++ (list ++ codes " CASCADE;"))
        (prelude_lines (replacing objects keys 160004))
unfolding for_log snapshot_schemas is_absent is_in key recreated_schemas text_lt
prelude_drops_example =
    prelude_drops objects keys 160004 (replacing objects keys 160004) touch planned (inr (inl refl))

abbrev script : Text
script =
    codes "--\nSET statement_timeout = 0;\nSET transaction_timeout = 0;\nSET lock_timeout = 0;\n"

commented :
    commented_out transaction_timeout script
    ≡ codes "--\nSET statement_timeout = 0;\n-- "
      ++ (codes " transaction_timeout = 0;\nSET lock_timeout = 0;\n")
unfolding commented_out
commented = refl

commented_out_exact_example :
    (commented_out transaction_timeout script ≡ script)
    ⊎ ((pre post : Text) × (script ≡ pre ++ (10 ∷ (transaction_timeout ++ post)))
        × (commented_out transaction_timeout script
            ≡ pre ++ (10 ∷ (commented_line transaction_timeout ++ post)))
        × (length (commented_line transaction_timeout) ≡ length transaction_timeout)
        × (length (pre ++ (10 ∷ transaction_timeout)) ≤ 65536)
        × (is_before (find (codes "\n--\n-- Name: ") (take 65536 script)) (length pre) ≡ false))
commented_out_exact_example = commented_out_exact transaction_timeout script (omega arith)

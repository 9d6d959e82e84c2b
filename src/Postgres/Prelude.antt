-- ===== src/Postgres/Prelude.antt =====
-- sources/postgres.py: `replacement_prelude`, the SQL that drops what a restore replaces.
pub mod Drops
use cs_backup_helper.Base.{
  ◌≡◌, Bool, true, false, List, [], ◌∷◌, ◌++◌, map, keep_if, is_empty, if◌then◌else◌,
}
use cs_backup_helper.Base.Text.{Text, codes}
use cs_backup_helper.Base.Words.{join, replace}
use cs_backup_helper.Postgres.Objects.{
  LiveObject, ObjectType, materialized_view_type, view_type, foreign_table_type, table_type,
  sequence_type, aggregate_type, procedure_type, function_type, domain_type, type_type,
  fk_constraint_type, no_type, object_type, type_name, drop_order,
}
use cs_backup_helper.Postgres.Plan.{Replacement}

abbrev pub same_type : ObjectType → ObjectType → Bool
same_type table_type table_type = true
same_type view_type view_type = true
same_type materialized_view_type materialized_view_type = true
same_type foreign_table_type foreign_table_type = true
same_type sequence_type sequence_type = true
same_type type_type type_type = true
same_type domain_type domain_type = true
same_type fk_constraint_type fk_constraint_type = true
same_type function_type function_type = true
same_type procedure_type procedure_type = true
same_type aggregate_type aggregate_type = true
same_type no_type no_type = true
same_type _ _ = false

abbrev pub settings : List Text
settings =
    codes "SET client_min_messages = notice;"
    ∷ codes "SET statement_timeout = 0;"
    ∷ codes "SET lock_timeout = 0;"
    ∷ codes "SET idle_in_transaction_session_timeout = 0;"
    ∷ codes
        "SELECT pg_catalog.set_config('transaction_timeout', '0', false) WHERE pg_catalog.current_setting('server_version_num')::int >= 170000;"
    ∷ codes "BEGIN;"
    ∷ []

-- The objects of one type, in the order of the plan.
unfoldable pub of_type : ObjectType → List LiveObject → List LiveObject
of_type t objects = keep_if (λ o. same_type (object_type o.kind) t) objects

unfoldable pub drop_statement : ObjectType → List LiveObject → Text
unfolding join type_name
drop_statement t objects =
    codes "DROP "
    ++ (type_name t
        ++ (codes " IF EXISTS "
            ++ (join (codes ", ") (map (λ (o : LiveObject). o.quoted) objects)
                ++ codes " CASCADE;")))

-- One statement for each type that has an object.
unfoldable pub drop_statements : List ObjectType → List LiveObject → List Text
unfolding of_type drop_statement
drop_statements [] objects = []
drop_statements (t ∷ types) objects =
    let rest = drop_statements types objects in
    let dropped = of_type t objects in
    if is_empty dropped then rest else drop_statement t dropped ∷ rest

unfoldable pub quoted_schema : Text → Text
unfolding replace
quoted_schema s = codes "\"" ++ (replace b'"' (codes "\"\"") s ++ codes "\"")

unfoldable pub drop_schemas : List Text → List Text
unfolding join quoted_schema
drop_schemas recreated =
    if is_empty recreated
    then []
    else (codes "DROP SCHEMA IF EXISTS "
        ++ (join (codes ", ") (map quoted_schema recreated) ++ codes " CASCADE;"))
      ∷ []

unfoldable pub prelude_lines : Replacement → List Text
unfolding drop_statements drop_schemas
prelude_lines plan =
    settings
    ++ (drop_statements drop_order (plan.relations ++ plan.others)
        ++ (drop_schemas plan.recreated ++ (codes "SET client_min_messages = error;" ∷ [])))

unfoldable pub replacement_prelude : Replacement → Text
unfolding join prelude_lines
replacement_prelude plan = join (codes "\n") (prelude_lines plan) ++ codes "\n"

-- ===== src/Postgres/Plan/Safe.antt =====
-- What a restore names for a DROP, and which schemas it drops whole.
use cs_backup_helper.Postgres.Objects.{
  ObjectType, relation_types, type_name, LiveObject, is_other_kind,
}
use cs_backup_helper.Postgres.Plan.{Replacement, plain_plan, is_in}
use cs_backup_helper.Base.Text.{codes, starts_with, Text}
use cs_backup_helper.Base.{
  ◌⊎◌, ◌++◌, ◌≢◌, ℕ, ◌≡◌, true, false, some, List, [], any, In, is_empty, arith,
}

-- Only a foreign key names the schema of another table, and no schema's name is empty.
pub record IsCatalog (objects : List LiveObject) : Type 0 where
  pub no_reference :
      (o : LiveObject) → In o objects → is_other_kind o.kind ≡ true → o.ref_schema ≡ []
  pub is_named : (o : LiveObject) → In o objects → o.schema ≢ []

-- The dump holds a relation of the schema, and the dump creates the schema, which is not `public`.
abbrev pub HoldsRelationOf : List Text → Text → Type 0
HoldsRelationOf keys s =
    (t : ObjectType) × In t relation_types
    × ((k : Text) × In k keys
        × (starts_with (type_name t ++ (codes " " ++ (s ++ codes " "))) k ≡ true))

abbrev pub Creates : List Text → Text → Type 0
Creates keys s = In (codes "SCHEMA - " ++ s) keys × (s ≢ codes "public")

pub record IsSafe (objects : List LiveObject) (keys : List Text) (plan : Replacement) : Type 0 where
  -- A relation that is named stands in a schema that the dump holds a relation of.
  pub relations_inside :
      (o : LiveObject) → In o plan.relations → In o objects × HoldsRelationOf keys o.schema
  -- A routine or type that is named is not in the dump, and stands in such a schema or in one
  -- that the dump creates.
  pub others_inside :
      (o : LiveObject)
      → In o plan.others
      → In o objects
        × (is_in keys o ≡ false)
        × (HoldsRelationOf keys o.schema ⊎ Creates keys o.schema)
  -- A schema that is dropped whole is one that the dump creates.
  pub schemas_created : (s : Text) → In s plan.recreated → Creates keys s
  -- Relations are named only where the dump has one of them too.
  pub has_common : is_empty plan.relations ≡ false → any (is_in keys) plan.relations ≡ true

pub plain_plan_drops_nothing :
    (version : ℕ) (plan : Replacement)
    → plain_plan version ≡ some plan
    → (plan.relations ≡ []) × (plan.others ≡ []) × (plan.recreated ≡ [])
unfolding plain_plan
plain_plan_drops_nothing version plan h = ground arith

-- ===== src/Postgres/Plan.antt =====
-- sources/postgres.py: what a restore replaces in the target database.
pub mod Safe
pub mod Clears
use cs_backup_helper.Base.{
  ◌≡◌, refl, ◌⊎◌, inl, inr, Bool-cases, arith, ℕ, ◌+◌, ltb, Bool, true, false, not, ◌&&◌, ◌||◌,
  Option, none, some, List, [], ◌∷◌, ◌++◌, map, any, keep_if, is_empty, if◌then◌else◌,
}
use cs_backup_helper.Base.Text.{Text, codes, text_eq, elem, starts_with}
use cs_backup_helper.Base.Words.{distinct, is_digit}
use cs_backup_helper.Base.Sort.{sort_asc}
use cs_backup_helper.Base.Result.{Result, ok, raised, restore_refused}
use cs_backup_helper.Postgres.Objects.{
  ObjectKind, aggregate, function, procedure, domain, type_kind, foreign_key, role, server_version,
  LiveObject, ObjectType, type_name, relation_types, is_relation, is_other_kind, is_partitioned,
  is_foreign_key, key,
}
use cs_backup_helper.Postgres.Listing.{past}

pub record Replacement : Type 0 where
  pub relations : List LiveObject
  pub others : List LiveObject
  pub schemas : List Text
  pub recreated : List Text
  pub partitioned : List LiveObject
  pub absent : List LiveObject
  pub server_version_num : ℕ

-- `plain()`: on an old server the dump's script, with nothing dropped; else `pg_restore`.
unfoldable pub plain_plan : ℕ → Option Replacement
plain_plan version =
    if ltb 0 version && ltb version 170000
    then some (record {
      relations = [];
      others = [];
      schemas = [];
      recreated = [];
      partitioned = [];
      absent = [];
      server_version_num = version;
    })
    else none

-- What the keys of a dump say.
unfoldable pub is_in : List Text → LiveObject → Bool
is_in keys o = elem (key o) keys

unfoldable pub holds_relations_of : List Text → Text → Bool
unfolding starts_with type_name
holds_relations_of keys s =
    any (λ t. any (starts_with (type_name t ++ (codes " " ++ (s ++ codes " ")))) keys)
      relation_types

unfoldable pub snapshot_schemas : List Text → List LiveObject → List Text
unfolding sort_asc holds_relations_of distinct
snapshot_schemas keys relations =
    sort_asc (λ s. s) (keep_if (holds_relations_of keys) (distinct (map (λ o. o.schema) relations)))

unfoldable pub created_schemas : List Text → List Text
unfolding text_eq
created_schemas [] = []
created_schemas (k ∷ keys) =
    let rest = created_schemas keys in
    elim (past (codes "SCHEMA - ") k) [
      | none ↦ rest
      | some s ↦ if text_eq k (codes "SCHEMA - public") then rest else s ∷ rest
    ]

unfoldable pub recreated_schemas : List Text → List Text
unfolding sort_asc created_schemas
recreated_schemas keys = sort_asc (λ s. s) (created_schemas keys)

-- Not in the dump, and in the way of its clean phase.
unfoldable pub is_absent : List Text → List Text → List Text → LiveObject → Bool
unfolding is_in
is_absent keys schemas recreated o =
    not (is_in keys o)
    && (elem o.schema schemas
        || elem o.ref_schema schemas
        || (is_other_kind o.kind && elem o.schema recreated))

-- `(o.schema, o.name) in gone`
unfoldable pub is_gone : List LiveObject → LiveObject → Bool
unfolding text_eq
is_gone absent o =
    any (λ a. not (is_foreign_key a.kind) && (text_eq a.schema o.schema && text_eq a.name o.name))
      absent

-- One more than the place of a kind in the order of the log, or nothing.
abbrev pub log_order : ObjectKind → ℕ
log_order aggregate = 1
log_order function = 2
log_order procedure = 3
log_order domain = 4
log_order type_kind = 5
log_order foreign_key = 6
log_order kind = 0

unfoldable pub for_log : List LiveObject → List LiveObject
unfolding sort_asc is_gone
for_log absent =
    sort_asc (λ o. log_order o.kind ∷ [])
      (keep_if (λ o. not (is_foreign_key o.kind) || not (is_gone absent o)) absent)

-- What stands in the way, and what the restore replaces.
module _ (objects : List LiveObject) (keys : List Text) where
  abbrev pub relations_of : List LiveObject
  relations_of = keep_if is_relation objects

  abbrev pub schemas_of : List Text
  schemas_of = snapshot_schemas keys relations_of

  abbrev pub partitioned_of : List LiveObject
  partitioned_of = keep_if (λ o. is_partitioned o.kind && is_in keys o) relations_of

  abbrev pub absent_of : List LiveObject
  absent_of = keep_if (is_absent keys schemas_of (recreated_schemas keys)) objects

  abbrev pub replaced_of : List LiveObject
  replaced_of = keep_if (λ o. elem o.schema schemas_of) relations_of

  abbrev pub replacing : ℕ → Replacement
  replacing version = record {
    relations = replaced_of;
    others = keep_if (λ o. is_other_kind o.kind) (for_log absent_of);
    schemas = schemas_of;
    recreated = recreated_schemas keys;
    partitioned = partitioned_of;
    absent = for_log absent_of;
    server_version_num = version;
  }

  -- `plan_replacement` once the objects of the target and the keys of the dump are known.
  unfoldable pub plan_of : ℕ → Result (Option Replacement)
  unfolding plain_plan
  plan_of version =
      if is_empty partitioned_of && is_empty absent_of
      then ok (plain_plan version)
      else if not (is_empty replaced_of) && not (any (is_in keys) replaced_of)
      then raised restore_refused
      else ok (some (replacing version))

  -- The three ends of the planning.
  pub plan_of_cases :
      (version : ℕ)
      → ((is_empty absent_of ≡ true) × (plan_of version ≡ ok (plain_plan version)))
        ⊎ (plan_of version ≡ raised restore_refused)
        ⊎ (((is_empty replaced_of ≡ false → any (is_in keys) replaced_of ≡ true))
            × (plan_of version ≡ ok (some (replacing version))))
  unfolding plan_of
  plan_of_cases version = elim (Bool-cases (is_empty partitioned_of && is_empty absent_of)) [
    | inl e ↦ inl (ground arith, rw e)
    | inr e ↦ elim (Bool-cases (not (is_empty replaced_of) && not (any (is_in keys) replaced_of))) [
      | inl f ↦ inr (inl (rw (e, f)))
      | inr f ↦ inr (inr (λ h. ground arith, rw (e, f)))
    ]
  ]

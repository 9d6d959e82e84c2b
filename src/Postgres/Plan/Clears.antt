-- ===== src/Postgres/Plan/Clears.antt =====
-- A restore drops what would block the dump's clean phase.
use cs_backup_helper.Base.{
  [], refl, subst, ◌∷◌, ℕ, ◌≡◌, ◌⊎◌, inl, inr, true, false, Bool-cases, Option, none, some, List,
  In, is_empty, arith,
}
use cs_backup_helper.Base.Text.{Text, elem}
use cs_backup_helper.Base.Members.{In-keep_if, In-sort_asc}
use cs_backup_helper.Base.Result.{ok}
use cs_backup_helper.Postgres.Objects.{
  is_foreign_key, is_object, ObjectKind, LiveObject, is_relation, is_other_kind, is_relation_type,
  object_type,
}
use cs_backup_helper.Postgres.Plan.{
  replacing, absent_of, schemas_of, is_absent, for_log, Replacement, plan_of, plan_of_cases, is_in,
}

-- A plan drops an object by name; `pg_restore` on its own drops none.
abbrev pub Drops : Option Replacement → LiveObject → Type 0
Drops none o = ⊥
Drops (some plan) o = In o plan.relations ⊎ In o plan.others

relation_or_other :
    (kind : ObjectKind)
    → is_object kind ≡ true
    → is_foreign_key kind ≡ false
    → is_relation_type (object_type kind) ≡ false
    → is_other_kind kind ≡ true
relation_or_other kind h k r = ground arith

pub In-nonempty : (o : LiveObject) (xs : List LiveObject) → In o xs → is_empty xs ≡ false
In-nonempty o [] m = elim m [ ]
In-nonempty o (x ∷ xs) m = refl

replacing-Drops :
    (objects : List LiveObject) (keys : List Text) (version : ℕ) (o : LiveObject)
    → In o objects
    → is_object o.kind ≡ true
    → is_foreign_key o.kind ≡ false
    → elem o.schema (schemas_of objects keys) ≡ true
    → In o (absent_of objects keys)
    → Drops (some (replacing objects keys version)) o
unfolding for_log
replacing-Drops objects keys version o m h k s a = elim (Bool-cases (is_relation o)) [
  | inl r ↦ inl (In-keep_if _ _ o (In-keep_if is_relation objects o m r) s)
  | inr r ↦ inr (
      In-keep_if (λ x. is_other_kind x.kind) _ o
        (In-sort_asc _ _ o (In-keep_if _ (absent_of objects keys) o a (ground arith)))
        (relation_or_other o.kind h k r))
]

-- Where planning a restore goes through, an object of the target in a schema of the snapshot that
-- is no foreign key either is in the dump, so that its clean phase drops it, or is dropped by the plan.
pub plan_of_clears :
    (objects : List LiveObject) (keys : List Text) (version : ℕ) (plan : Option Replacement)
    (o : LiveObject)
    → plan_of objects keys version ≡ ok plan
    → In o objects
    → is_object o.kind ≡ true
    → is_foreign_key o.kind ≡ false
    → elem o.schema (schemas_of objects keys) ≡ true
    → (is_in keys o ≡ true) ⊎ Drops plan o
unfolding is_absent
plan_of_clears objects keys version plan o e m h k s = elim (Bool-cases (is_in keys o)) [
  | inl i ↦ inl i
  | inr i ↦
      let a : In o (absent_of objects keys) = In-keep_if _ objects o m (ground arith) in
      elim (plan_of_cases objects keys version) [
        | inl (none_absent, q) ↦ absurd (cc (In-nonempty o _ a))
        | inr (inl q) ↦ cc
        | inr (inr (f, q)) ↦
            let p : some (replacing objects keys version) ≡ plan = cc in
            inr (subst (λ x. Drops x o) p (replacing-Drops objects keys version o m h k s a))
      ]
]

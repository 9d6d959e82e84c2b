-- ===== src/Postgres/Prelude/Drops.antt =====
-- Each object of a plan stands in the DROP statement of its type.
use cs_backup_helper.Base.{
  ◌∙◌, ap, ◌||◌, ℕ, ◌≡◌, refl, sym, ◌⊎◌, inl, inr, Bool, true, false, Bool-cases, some, List, [],
  ◌∷◌, ◌++◌, map, In, is_empty, subst, arith,
}
use cs_backup_helper.Base.Text.{Text, codes}
use cs_backup_helper.Base.Words.{join}
use mathlib.Core.List.{append_assoc, append-nil}
use cs_backup_helper.Base.Members.{In-map, In-keep_if, In-append, kept_by_keep_if}
use cs_backup_helper.Base.Result.{ok-injective, ok}
use cs_backup_helper.Postgres.Plan.Safe.{plain_plan_drops_nothing}
use cs_backup_helper.Postgres.Plan.Clears.{In-nonempty}
use cs_backup_helper.Postgres.Objects.{
  table, partitioned_table, view, materialized_view, foreign_table, sequence, type_kind, domain,
  foreign_key, function, procedure, aggregate, role, server_version, LiveObject, ObjectType,
  object_type, type_name, drop_order, is_relation, is_other_kind, is_relation_type, ObjectKind,
}
use cs_backup_helper.Postgres.Plan.{
  absent_of, for_log, relations_of, replacing, Replacement, plan_of, plan_of_cases,
}
use cs_backup_helper.Postgres.Prelude.{
  of_type, same_type, drop_statement, drop_statements, prelude_lines, settings,
}

-- The kinds that a plan drops by name.
abbrev pub is_droppable : LiveObject → Bool
is_droppable o = is_relation o || is_other_kind o.kind

same_type_refl : (t : ObjectType) → same_type t t ≡ true
same_type_refl t = ground arith

In-of_type :
    (o : LiveObject) (objects : List LiveObject)
    → In o objects
    → In o (of_type (object_type o.kind) objects)
unfolding of_type
In-of_type o objects m =
    In-keep_if (λ x. same_type (object_type x.kind) (object_type o.kind)) objects o m
      (same_type_refl (object_type o.kind))

In-drop_statements :
    (t : ObjectType) (types : List ObjectType) (objects : List LiveObject)
    → In t types
    → is_empty (of_type t objects) ≡ false
    → In (drop_statement t (of_type t objects)) (drop_statements types objects)
unfolding drop_statements
In-drop_statements t [] objects m h = elim m [ ]
In-drop_statements t (u ∷ types) objects (inl e) h =
    let k : is_empty (of_type u objects) ≡ false =
      subst (λ v. is_empty (of_type v objects) ≡ false) e h in
    rw k (inl (ap (λ v. drop_statement v (of_type v objects)) e))
In-drop_statements t (u ∷ types) objects (inr m) h =
    let i = In-drop_statements t types objects m h in
    elim (Bool-cases (is_empty (of_type u objects))) [ inl e ↦ rw e i | inr e ↦ rw e (inr i) ]

In-drop_order :
    (kind : ObjectKind)
    → (is_relation_type (object_type kind) || is_other_kind kind) ≡ true
    → In (object_type kind) drop_order
In-drop_order table h = inr (inr (inr (inl refl)))
In-drop_order partitioned_table h = inr (inr (inr (inl refl)))
In-drop_order view h = inr (inl refl)
In-drop_order materialized_view h = inl refl
In-drop_order foreign_table h = inr (inr (inl refl))
In-drop_order sequence h = inr (inr (inr (inr (inl refl))))
In-drop_order type_kind h = inr (inr (inr (inr (inr (inr (inr (inr (inr (inl refl)))))))))
In-drop_order domain h = inr (inr (inr (inr (inr (inr (inr (inr (inl refl))))))))
In-drop_order foreign_key h = cc
In-drop_order function h = inr (inr (inr (inr (inr (inr (inr (inl refl)))))))
In-drop_order procedure h = inr (inr (inr (inr (inr (inr (inl refl))))))
In-drop_order aggregate h = inr (inr (inr (inr (inr (inl refl)))))
In-drop_order role h = cc
In-drop_order server_version h = cc

-- What a plan drops is of a kind that can be dropped.
abbrev AreDroppable : Replacement → Type 0
AreDroppable plan =
    (o : LiveObject) → In o plan.relations ⊎ In o plan.others → is_droppable o ≡ true

replacing-AreDroppable :
    (objects : List LiveObject) (keys : List Text) (version : ℕ)
    → AreDroppable (replacing objects keys version)
replacing-AreDroppable objects keys version o (inl m) =
    let i = (kept_by_keep_if _ (relations_of objects keys) o m).0 in
    let r : is_relation o ≡ true = (kept_by_keep_if is_relation objects o i).1 in ground arith
replacing-AreDroppable objects keys version o (inr m) =
    let r : is_other_kind o.kind ≡ true =
      (kept_by_keep_if (λ x. is_other_kind x.kind) (for_log (absent_of objects keys)) o m).1 in
    ground arith

plan_of-AreDroppable :
    (objects : List LiveObject) (keys : List Text) (version : ℕ) (plan : Replacement)
    → plan_of objects keys version ≡ ok (some plan)
    → AreDroppable plan
plan_of-AreDroppable objects keys version plan h = elim (plan_of_cases objects keys version) [
  | inl (a, e) ↦
      let (r, q, t) = plain_plan_drops_nothing version plan (ok-injective _ _ (sym e ∙ h)) in
      λ o m. elim m [ inl i ↦ absurd (subst (In o) r i) | inr i ↦ absurd (subst (In o) q i) ]
  | inr (inl e) ↦ cc
  | inr (inr (f, e)) ↦
      let q : replacing objects keys version ≡ plan = cc in
      subst AreDroppable q (replacing-AreDroppable objects keys version)
]

-- A list of names that are set apart by commas.
abbrev pub CommaSeparated : Text → Text → Text → Text → Type 0
CommaSeparated before name after list =
    (list ≡ before ++ (name ++ after))
    × ((before ≡ []) ⊎ ((b : Text) × (before ≡ b ++ codes ", ")))
    × ((after ≡ []) ⊎ ((a : Text) × (after ≡ codes ", " ++ a)))

-- What follows a name: nothing, or a comma and more.
after_first :
    (name : Text) (names : List Text)
    → (after : Text) × CommaSeparated [] name after (join (codes ", ") (name ∷ names))
unfolding join
after_first name [] = ([], (sym (append-nil name), inl refl, inl refl))
after_first name (next ∷ names) = (
  codes ", " ++ join (codes ", ") (next ∷ names),
  (refl, inl refl, inr (join (codes ", ") (next ∷ names), refl)),
)

one_more :
    (first before name after list : Text)
    → CommaSeparated before name after list
    → CommaSeparated (first ++ (codes ", " ++ before)) name after (first ++ (codes ", " ++ list))
one_more first before name after list (e, b, a) = (
  ap (λ t. first ++ (codes ", " ++ t)) e ∙ simp append_assoc,
  inr (elim b [
    | inl none_before ↦ (first, ap (λ t. first ++ (codes ", " ++ t)) none_before)
    | inr (c, before_ends) ↦ (
      first ++ (codes ", " ++ c),
      ap (λ t. first ++ (codes ", " ++ t)) before_ends ∙ simp append_assoc,
    )
  ]),
  a,
)

join-CommaSeparated :
    (name : Text) (names : List Text)
    → In name names
    → (before after : Text) × CommaSeparated before name after (join (codes ", ") names)
unfolding join
join-CommaSeparated name [] m = elim m [ ]
join-CommaSeparated name (first ∷ names) (inl e) =
    let (after, c) = after_first first names in
    (
      [],
      after,
      subst (λ n. CommaSeparated [] n after (join (codes ", ") (first ∷ names))) (sym e) c,
    )
join-CommaSeparated name (first ∷ []) (inr m) = elim m [ ]
join-CommaSeparated name (first ∷ second ∷ names) (inr m) =
    let (before, after, c) = join-CommaSeparated name (second ∷ names) m in
    (
      first ++ (codes ", " ++ before),
      after,
      one_more first before name after (join (codes ", ") (second ∷ names)) c,
    )

-- Every object that the planning of a restore has dropped is named, as the catalog quotes it and
-- set apart by commas, in a DROP ... IF EXISTS ... CASCADE statement for its type among the lines
-- of the SQL that the restore runs first.
pub prelude_drops :
    (objects : List LiveObject) (keys : List Text) (version : ℕ) (plan : Replacement)
    (o : LiveObject)
    → plan_of objects keys version ≡ ok (some plan)
    → In o plan.relations ⊎ In o plan.others
    → (before after list : Text) × CommaSeparated before o.quoted after list
      × In
          (codes "DROP "
            ++ (type_name (object_type o.kind)
                ++ (codes " IF EXISTS " ++ (list ++ codes " CASCADE;"))))
          (prelude_lines plan)
unfolding prelude_lines drop_statement
prelude_drops objects keys version plan o h m =
    let all = plan.relations ++ plan.others in
    let i = In-of_type o all (In-append plan.relations plan.others o m) in
    let d = plan_of-AreDroppable objects keys version plan h o m in
    let s =
      In-drop_statements (object_type o.kind) drop_order all (In-drop_order o.kind d)
        (In-nonempty o _ i) in
    let names = map (λ (x : LiveObject). x.quoted) (of_type (object_type o.kind) all) in
    let (before, after, c) =
      join-CommaSeparated o.quoted names
        (In-map (λ (x : LiveObject). x.quoted) (of_type (object_type o.kind) all) o i) in
    (
      before,
      after,
      join (codes ", ") names,
      c,
      In-append settings _ _ (inr (In-append (drop_statements drop_order all) _ _ (inl s))),
    )

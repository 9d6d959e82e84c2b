-- ===== src/Loader/Tree.antt =====
-- Configuration trees: `interpolate` and `_deep_merge`.
use cs_backup_helper.Base.{
  ℕ, ◌≡◌, refl, sym, ap, ◌∙◌, Bool, inl, inr, Bool-cases, Option, none, some, if◌then◌else◌, arith,
}
use cs_backup_helper.Base.Text.{Text, text_eq, eq_iff}
use cs_backup_helper.Base.Dict.{Dict}
use cs_backup_helper.Base.Result.{Result, ok, ◌>>=◌}
use cs_backup_helper.Loader.{interpolate_str}

-- A JSON or YAML value. A number stands for itself, whatever its kind.
mutual
  pub data Json : Type 0 where
    null_value : Json
    boolean : Bool → Json
    number : ℕ → Json
    text : Text → Json
    array : Items → Json
    object : Fields → Json

  pub data Items : Type 0 where
    no_items : Items
    item : Json → Items → Items

  pub data Fields : Type 0 where
    no_fields : Fields
    field : Text → Json → Fields → Fields

-- `d.get(k)` and `d[k] = v`
unfoldable pub field_of : Text → Fields → Option Json
field_of k no_fields = none
field_of k (field j v rest) = if text_eq j k then some v else field_of k rest

unfoldable pub set_field : Text → Json → Fields → Fields
set_field k v no_fields = field k v no_fields
set_field k v (field j w rest) =
    let others = set_field k v rest in if text_eq j k then field j v rest else field j w others

unfoldable mutual
  -- A value over what the base has under its key: objects merge, another value replaces.
  pub merge_value : Option Json → Json → Json
  merge_value (some (object base)) (object over) = object (deep_merge base over)
  merge_value (some null_value) (object over) = object over
  merge_value (some (boolean b)) (object over) = object over
  merge_value (some (number n)) (object over) = object over
  merge_value (some (text t)) (object over) = object over
  merge_value (some (array a)) (object over) = object over
  merge_value none (object over) = object over
  merge_value old null_value = null_value
  merge_value old (boolean b) = boolean b
  merge_value old (number n) = number n
  merge_value old (text t) = text t
  merge_value old (array a) = array a

  pub deep_merge : Fields → Fields → Fields
  deep_merge result no_fields = result
  deep_merge result (field k v rest) =
      deep_merge (set_field k (merge_value (field_of k result) v) result) rest

unfoldable mutual
  -- Placeholders in every text of a tree; other leaves and all keys stay.
  pub interpolate : Json → Dict Text → Result Json
  interpolate null_value env = ok null_value
  interpolate (boolean b) env = ok (boolean b)
  interpolate (number n) env = ok (number n)
  interpolate (text t) env = interpolate_str t env >>= λ u. ok (text u)
  interpolate (array a) env = interpolate_items a env >>= λ b. ok (array b)
  interpolate (object o) env = interpolate_fields o env >>= λ b. ok (object b)

  pub interpolate_items : Items → Dict Text → Result Items
  interpolate_items no_items env = ok no_items
  interpolate_items (item v rest) env =
      interpolate v env >>= λ u. interpolate_items rest env >>= λ more. ok (item u more)

  pub interpolate_fields : Fields → Dict Text → Result Fields
  interpolate_fields no_fields env = ok no_fields
  interpolate_fields (field k v rest) env =
      interpolate v env >>= λ u. interpolate_fields rest env >>= λ more. ok (field k u more)

-- No key comes twice, as in a `dict`.
abbrev pub IsDistinct : Fields → Type 0
IsDistinct no_fields = Unit
IsDistinct (field k v rest) = (field_of k rest ≡ none) × IsDistinct rest

pub field_of-set_field :
    (k j : Text) (v : Json) (o : Fields)
    → field_of j (set_field k v o) ≡ (if text_eq k j then some v else field_of j o)
unfolding field_of set_field
field_of-set_field k j v no_fields = refl
field_of-set_field k j v (field i w rest) =
    ground (arith, eq_iff k j, eq_iff i k, eq_iff i j, field_of-set_field k j v rest)

-- What an override makes of the value under a key.
abbrev pub over : Option Json → Option Json → Option Json
over old none = old
over old (some v) = some (merge_value old v)

-- Under every key, a merged object has the override's value, merged in turn if both are objects,
-- and where the override has none, what the base has; an override has no key twice.
field_of-deep_merge :
    (base override : Fields) (k : Text)
    → IsDistinct override
    → field_of k (deep_merge base override) ≡ over (field_of k base) (field_of k override)
unfolding field_of deep_merge
field_of-deep_merge base no_fields k h = refl
field_of-deep_merge base (field j v rest) k h =
    let new = merge_value (field_of j base) v in
    let step = field_of-deep_merge (set_field j new base) rest k h.1 in
    let put = field_of-set_field j k new base in
    elim (Bool-cases (text_eq j k)) [
      | inl e ↦
          let p = (eq_iff j k).0 e in
          let here : field_of k (set_field j new base) ≡ some new = put ∙ rw e refl in
          let gone : field_of k rest ≡ none = ap (λ i. field_of i rest) (sym p) ∙ h.0 in
          rw e (
            step
            ∙ ap (λ o. over o (field_of k rest)) here
            ∙ ap (over (some new)) gone
            ∙ ap (λ i. some (merge_value (field_of i base) v)) p)
      | inr e ↦
          let there : field_of k (set_field j new base) ≡ field_of k base = put ∙ rw e refl in
          rw e (step ∙ ap (λ o. over o (field_of k rest)) there)
    ]

-- ===== src/Redaction/Data/Clean.antt =====
-- No secret is left in a redacted structure.
use cs_backup_helper.Base.{◌⊎◌, ◌≡◌, refl, true, Bool-cases, List, [], ◌∷◌, ◌++◌, inl, inr}
use cs_backup_helper.Base.Text.{Text}
use cs_backup_helper.Loader.Tree.{
  Json, null_value, boolean, number, text, array, object, Items, no_items, item, Fields, no_fields,
  field,
}
use cs_backup_helper.Redaction.{mask, is_sensitive_key}
use cs_backup_helper.Redaction.Data.{
  SplitUrl, redact_data, redact_items, redact_fields, redact_entry,
}

-- A value that tells no more than whether it is set.
abbrev pub IsHidden : Json → Type 0
IsHidden null_value = Unit
IsHidden (boolean b) = Unit
IsHidden (text t) = (t ≡ []) ⊎ (t ≡ mask)
IsHidden other = ⊥

-- At every depth, what stands under the key of a secret is hidden.
abbrev mutual
  pub IsClean : Json → Type 0
  IsClean (array xs) = AreClean xs
  IsClean (object o) = HasClean o
  IsClean other = Unit

  pub AreClean : Items → Type 0
  AreClean no_items = Unit
  AreClean (item v xs) = IsClean v × AreClean xs

  pub HasClean : Fields → Type 0
  HasClean no_fields = Unit
  HasClean (field k v o) = (is_sensitive_key k ≡ true → IsHidden v) × IsClean v × HasClean o

module _ (urlsplit : Text → SplitUrl) where
  entry-IsHidden :
      (path : List Text) (key : Text) (v : Json)
      → is_sensitive_key key ≡ true
      → IsHidden (redact_entry urlsplit path key v)
  unfolding redact_entry
  entry-IsHidden path key null_value h = tt
  entry-IsHidden path key (boolean b) h = tt
  entry-IsHidden path key (number n) h = rw h (inr refl)
  entry-IsHidden path key (text []) h = inl refl
  entry-IsHidden path key (text (c ∷ t)) h = rw h (inr refl)
  entry-IsHidden path key (array xs) h = rw h (inr refl)
  entry-IsHidden path key (object o) h = rw h (inr refl)

  mutual
    unfolding redact_data

    data-IsClean : (path : List Text) (v : Json) → IsClean (redact_data urlsplit path v)
    data-IsClean path null_value = tt
    data-IsClean path (boolean b) = tt
    data-IsClean path (number n) = tt
    data-IsClean path (text t) = tt
    data-IsClean path (array xs) = items-AreClean path xs
    data-IsClean path (object o) = fields-HasClean path o

    items-AreClean : (path : List Text) (xs : Items) → AreClean (redact_items urlsplit path xs)
    items-AreClean path no_items = tt
    items-AreClean path (item v xs) = (data-IsClean path v, items-AreClean path xs)

    fields-HasClean : (path : List Text) (o : Fields) → HasClean (redact_fields urlsplit path o)
    fields-HasClean path no_fields = tt
    fields-HasClean path (field k v o) =
        (entry-IsHidden path k v, entry-IsClean path k v, fields-HasClean path o)

    entry-IsClean :
        (path : List Text) (key : Text) (v : Json) → IsClean (redact_entry urlsplit path key v)
    entry-IsClean path key null_value = tt
    entry-IsClean path key (boolean b) = tt
    entry-IsClean path key (number n) = elim (Bool-cases (is_sensitive_key key)) [
      | inl e ↦ rw e tt
      | inr e ↦ rw e tt
    ]
    entry-IsClean path key (text []) = tt
    entry-IsClean path key (text (c ∷ t)) = elim (Bool-cases (is_sensitive_key key)) [
      | inl e ↦ rw e tt
      | inr e ↦ rw e tt
    ]
    entry-IsClean path key (array xs) = elim (Bool-cases (is_sensitive_key key)) [
      | inl e ↦ rw e tt
      | inr e ↦ rw e (items-AreClean (path ++ (key ∷ [])) xs)
    ]
    entry-IsClean path key (object o) = elim (Bool-cases (is_sensitive_key key)) [
      | inl e ↦ rw e tt
      | inr e ↦ rw e (fields-HasClean (path ++ (key ∷ [])) o)
    ]

  -- In a redacted structure, under a key that names a secret there stands, at every depth, null, a
  -- Boolean, the empty text or the mask.
  pub redact_data-IsClean : (path : List Text) (v : Json) → IsClean (redact_data urlsplit path v)
  redact_data-IsClean path v = data-IsClean path v

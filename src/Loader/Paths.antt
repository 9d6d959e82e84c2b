-- ===== src/Loader/Paths.antt =====
-- config/loader.py: `_set_path`, which puts an override into the configuration tree.
pub mod Exact
use cs_backup_helper.Base.{
  ℕ, zero, suc, ◌+◌, Bool, true, false, Option, none, some, List, [], ◌∷◌, if◌then◌else◌,
}
use cs_backup_helper.Base.Text.{Text}
use cs_backup_helper.Base.Words.{is_number, number_from}
use cs_backup_helper.Loader.Tree.{
  Json, null_value, boolean, number, text, array, object, Items, no_items, item, Fields, no_fields,
  field, field_of, set_field,
}

-- `int(seg) if seg.isdigit() else seg`
pub data Segment : Type 0 where
  index : ℕ → Segment
  name : Text → Segment

unfoldable pub segment : Text → Segment
unfolding is_number number_from
segment seg = if is_number seg then index (number_from 0 seg) else name seg

-- The key of a dictionary: a number stands for itself by a code past those of Unicode, since it
-- is another key than its digits.
abbrev pub field_key : Segment → Text
field_key (index n) = (1114112 + n) ∷ []
field_key (name t) = t

unfoldable pub item_at : ℕ → Items → Option Json
item_at n no_items = none
item_at zero (item v rest) = some v
item_at (suc n) (item v rest) = item_at n rest

-- `container[key] = value` once the list is long enough; it is filled up with empty objects.
unfoldable pub set_item : ℕ → Json → Items → Items
set_item zero v no_items = item v no_items
set_item (suc n) v no_items = item (object no_fields) (set_item n v no_items)
set_item zero v (item w rest) = item v rest
set_item (suc n) v (item w rest) = item w (set_item n v rest)

-- The value under a key of a list or an object.
unfoldable pub value_at : Json → Segment → Option Json
unfolding item_at field_of
value_at (array xs) (index n) = item_at n xs
value_at (object o) k = field_of (field_key k) o
value_at other k = none

-- `_child`, where a null counts as none.
abbrev pub not_null : Option Json → Option Json
not_null none = none
not_null (some null_value) = none
not_null (some v) = some v

unfoldable pub child : Json → Segment → Option Json
unfolding value_at
child tree k = not_null (value_at tree k)

unfoldable pub assign : Json → Segment → Json → Json
unfolding set_item set_field
assign (array xs) (index n) v = array (set_item n v xs)
assign (object o) k v = object (set_field (field_key k) v o)
assign other k v = other

-- What a missing child becomes: a list where the next segment is a number.
abbrev pub new_child : Segment → Json
new_child (index n) = array no_items
new_child (name t) = object no_fields

abbrev pub or_new : Option Json → Segment → Json
or_new none k = new_child k
or_new (some v) k = v

-- `_set_path`; the child of a container that takes no key is dropped with what is set in it.
unfoldable pub set_path : List Segment → Json → Json → Json
unfolding child assign
set_path [] v tree = tree
set_path (k ∷ []) v tree = assign tree k v
set_path (k ∷ next ∷ path) v tree =
    assign tree k (set_path (next ∷ path) v (or_new (child tree k) next))

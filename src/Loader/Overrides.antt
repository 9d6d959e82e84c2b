-- ===== src/Loader/Overrides.antt =====
-- config/loader.py: `_coerce`, what an environment override's text becomes.
use cs_backup_helper.Base.{Bool, true, false, ◌≡◌, refl, Option, none, some}
use cs_backup_helper.Base.Text.{Text}
use cs_backup_helper.Loader.Tree.{Json, null_value, boolean, number, text, array, object}

-- `_TEXT`, `_OPEN`, `_JSON`
pub data Kind : Type 0 where
  text_kind : Kind
  open_kind : Kind
  json_kind : Kind

abbrev pub coerced : Text → Kind → Json → Json
coerced value kind null_value = null_value
coerced value kind (text t) = text t
coerced value json_kind (boolean b) = boolean b
coerced value json_kind (number n) = number n
coerced value json_kind (array a) = array a
coerced value json_kind (object o) = object o
coerced value open_kind (boolean b) = boolean b
coerced value open_kind (number n) = text value
coerced value open_kind (array a) = array a
coerced value open_kind (object o) = object o
coerced value text_kind (boolean b) = text value
coerced value text_kind (number n) = text value
coerced value text_kind (array a) = text value
coerced value text_kind (object o) = text value

abbrev pub value_or : Text → Kind → Option Json → Json
value_or value kind none = text value
value_or value kind (some parsed) = coerced value kind parsed

-- `json.loads` is the parameter; it has no result where it raises JSONDecodeError.
unfoldable pub coerce : (Text → Option Json) → Text → Kind → Json
coerce loads value kind = value_or value kind (loads value)

-- The tests of what a value is: a number; a text or null.
unfoldable pub is_number : Json → Bool
is_number null_value = false
is_number (boolean b) = false
is_number (number n) = true
is_number (text t) = false
is_number (array a) = false
is_number (object o) = false

unfoldable pub is_textual : Json → Bool
is_textual null_value = true
is_textual (boolean b) = false
is_textual (number n) = false
is_textual (text t) = true
is_textual (array a) = false
is_textual (object o) = false

coerced-is_textual :
    (value : Text) (parsed : Json) → is_textual (coerced value text_kind parsed) ≡ true
unfolding is_textual
coerced-is_textual value null_value = refl
coerced-is_textual value (boolean b) = refl
coerced-is_textual value (number n) = refl
coerced-is_textual value (text t) = refl
coerced-is_textual value (array a) = refl
coerced-is_textual value (object o) = refl

coerced-is_number :
    (value : Text) (parsed : Json) → is_number (coerced value open_kind parsed) ≡ false
unfolding is_number
coerced-is_number value null_value = refl
coerced-is_number value (boolean b) = refl
coerced-is_number value (number n) = refl
coerced-is_number value (text t) = refl
coerced-is_number value (array a) = refl
coerced-is_number value (object o) = refl

value_or-kinds :
    (value : Text) (parsed : Option Json)
    → (is_textual (value_or value text_kind parsed) ≡ true)
      × (is_number (value_or value open_kind parsed) ≡ false)
unfolding is_textual is_number
value_or-kinds value none = (refl, refl)
value_or-kinds value (some parsed) =
    (coerced-is_textual value parsed, coerced-is_number value parsed)

-- Whatever an override's text parses to, a field that is declared as text gets a text or null, and
-- an open key gets no number, so that a numeric password stays text.
pub coerce-is_textual :
    (loads : Text → Option Json) (value : Text)
    → (is_textual (coerce loads value text_kind) ≡ true)
      × (is_number (coerce loads value open_kind) ≡ false)
unfolding coerce
coerce-is_textual loads value = value_or-kinds value (loads value)

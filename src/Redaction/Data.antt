-- ===== src/Redaction/Data.antt =====
-- logging_setup.py: `redact_data`, the masking of a parsed configuration.
pub mod Clean
use cs_backup_helper.Base.{
  ℕ, Bool, true, false, not, ◌&&◌, ◌==◌, ◌||◌, Option, none, some, List, [], ◌∷◌, ◌++◌, is_empty,
  if◌then◌else◌,
}
use cs_backup_helper.Base.Text.{Text, codes, text_eq, elem}
use cs_backup_helper.Loader.Tree.{
  Json, null_value, boolean, number, text, array, object, Items, no_items, item, Fields, no_fields,
  field,
}
use cs_backup_helper.Redaction.{mask, is_sensitive_key, redact}

-- What `urlsplit` gives, with the host behind the last `@` of its `netloc`.
pub record SplitUrl : Type 0 where
  pub scheme : Text
  pub host : Text
  pub path : Text
  pub query : Text
  pub fragment : Text

-- `path.strip("/")` is empty.
abbrev pub is_slashes : Text → Bool
is_slashes [] = true
is_slashes (c ∷ s) = c == b'/' && is_slashes s

module _ (urlsplit : Text → SplitUrl) where
  unfoldable pub mask_url : Text → Text
  mask_url url =
      let parts = urlsplit url in
      let hidden =
        not (is_slashes parts.path)
        || not (is_empty parts.query)
        || not (is_empty parts.fragment) in
      let shown = parts.scheme ++ (codes "://" ++ parts.host) in
      if is_empty parts.scheme || is_empty parts.host
      then mask
      else if hidden
      then shown ++ (codes "/" ++ mask)
      else shown

  -- A text below a key that is no secret, on a path of the keys above it.
  unfoldable pub redact_text : List Text → Text → Text → Text
  unfolding text_eq redact mask_url
  redact_text path key t =
      if elem (codes "notifications") path && text_eq key (codes "url")
      then mask_url t
      else if elem (codes "notifications") path && text_eq key (codes "topic")
      then mask
      else redact t

  unfoldable mutual
    unfolding is_sensitive_key redact_text redact

    pub redact_data : List Text → Json → Json
    redact_data path null_value = null_value
    redact_data path (boolean b) = boolean b
    redact_data path (number n) = number n
    redact_data path (text t) = text (redact t)
    redact_data path (array xs) = array (redact_items path xs)
    redact_data path (object o) = object (redact_fields path o)

    pub redact_items : List Text → Items → Items
    redact_items path no_items = no_items
    redact_items path (item v xs) = item (redact_data path v) (redact_items path xs)

    pub redact_fields : List Text → Fields → Fields
    redact_fields path no_fields = no_fields
    redact_fields path (field k v o) = field k (redact_entry path k v) (redact_fields path o)

    -- `_redact_entry`, for a key below those of a path.
    pub redact_entry : List Text → Text → Json → Json
    redact_entry path key null_value = null_value
    redact_entry path key (boolean b) = boolean b
    redact_entry path key (number n) = if is_sensitive_key key then text mask else number n
    redact_entry path key (text t) =
        if is_empty t
        then text t
        else if is_sensitive_key key
        then text mask
        else text (redact_text path key t)
    redact_entry path key (array xs) =
        let inside = redact_items (path ++ (key ∷ [])) xs in
        if is_sensitive_key key then text mask else array inside
    redact_entry path key (object o) =
        let inside = redact_fields (path ++ (key ∷ [])) o in
        if is_sensitive_key key then text mask else object inside

-- ===== src/Postgres/Objects.antt =====
-- sources/postgres.py: an object of the target database, and what drops it.
use cs_backup_helper.Base.{
  Bool, true, false, Option, none, some, List, [], ◌∷◌, ◌++◌, if◌then◌else◌,
}
use cs_backup_helper.Base.Text.{Text, codes, text_eq}

-- The kinds that the catalog query gives.
pub data ObjectKind : Type 0 where
  table partitioned_table view materialized_view foreign_table sequence : ObjectKind
  type_kind domain foreign_key function procedure aggregate role server_version : ObjectKind

pub record LiveObject : Type 0 where
  pub kind : ObjectKind
  pub schema : Text
  pub name : Text
  pub constraint : Text
  pub quoted : Text
  pub ref_schema : Text

-- The types of the entries of a dump and of the DROP statements; none for the kinds that are no
-- objects, which `_OBJECT_TYPES` lacks.
pub data ObjectType : Type 0 where
  table_type view_type materialized_view_type foreign_table_type sequence_type : ObjectType
  type_type domain_type fk_constraint_type function_type procedure_type aggregate_type : ObjectType
  no_type : ObjectType

abbrev pub object_type : ObjectKind → ObjectType
object_type table = table_type
object_type partitioned_table = table_type
object_type view = view_type
object_type materialized_view = materialized_view_type
object_type foreign_table = foreign_table_type
object_type sequence = sequence_type
object_type type_kind = type_type
object_type domain = domain_type
object_type foreign_key = fk_constraint_type
object_type function = function_type
object_type procedure = procedure_type
object_type aggregate = aggregate_type
object_type role = no_type
object_type server_version = no_type

-- The text of an object type.
unfoldable pub type_name : ObjectType → Text
type_name table_type = codes "TABLE"
type_name view_type = codes "VIEW"
type_name materialized_view_type = codes "MATERIALIZED VIEW"
type_name foreign_table_type = codes "FOREIGN TABLE"
type_name sequence_type = codes "SEQUENCE"
type_name type_type = codes "TYPE"
type_name domain_type = codes "DOMAIN"
type_name fk_constraint_type = codes "FK CONSTRAINT"
type_name function_type = codes "FUNCTION"
type_name procedure_type = codes "PROCEDURE"
type_name aggregate_type = codes "AGGREGATE"
type_name no_type = []

-- `_OBJECT_TYPES[kind] in _RELATION_TYPES`
abbrev pub is_relation_type : ObjectType → Bool
is_relation_type table_type = true
is_relation_type view_type = true
is_relation_type materialized_view_type = true
is_relation_type foreign_table_type = true
is_relation_type sequence_type = true
is_relation_type other = false

abbrev pub is_relation : LiveObject → Bool
is_relation o = is_relation_type (object_type o.kind)

abbrev pub relation_types : List ObjectType
relation_types =
    table_type ∷ view_type ∷ materialized_view_type ∷ foreign_table_type ∷ sequence_type ∷ []

-- `kind in _OTHER_KINDS`
abbrev pub is_other_kind : ObjectKind → Bool
is_other_kind aggregate = true
is_other_kind function = true
is_other_kind procedure = true
is_other_kind domain = true
is_other_kind type_kind = true
is_other_kind kind = false

abbrev pub is_partitioned : ObjectKind → Bool
is_partitioned partitioned_table = true
is_partitioned kind = false

abbrev pub is_foreign_key : ObjectKind → Bool
is_foreign_key foreign_key = true
is_foreign_key kind = false

-- `kind not in ("R", "V")`
abbrev pub is_object : ObjectKind → Bool
is_object role = false
is_object server_version = false
is_object kind = true

-- `_DROP_ORDER`
abbrev pub drop_order : List ObjectType
drop_order =
    materialized_view_type ∷ view_type ∷ foreign_table_type ∷ table_type ∷ sequence_type
    ∷ aggregate_type ∷ procedure_type ∷ function_type ∷ domain_type ∷ type_type ∷ []

-- `key()`
unfoldable pub key : LiveObject → Text
unfolding type_name
key o =
    let plain =
      type_name (object_type o.kind) ++ (codes " " ++ (o.schema ++ (codes " " ++ o.name))) in
    if is_foreign_key o.kind then plain ++ (codes " " ++ o.constraint) else plain

-- What `label()` puts before the quoted name.
abbrev pub label_prefix : ObjectKind → Text
label_prefix type_kind = codes "type "
label_prefix domain = codes "domain "
label_prefix function = codes "function "
label_prefix procedure = codes "procedure "
label_prefix aggregate = codes "aggregate "
label_prefix kind = []

unfoldable pub label : LiveObject → Text
label o =
    if is_foreign_key o.kind
    then codes "foreign key " ++ (o.constraint ++ (codes " on " ++ o.quoted))
    else label_prefix o.kind ++ o.quoted

-- A kind as the query writes it.
unfoldable pub kind_of : Text → Option ObjectKind
unfolding text_eq
kind_of t =
    if text_eq t (codes "r")
    then some table
    else if text_eq t (codes "p")
    then some partitioned_table
    else if text_eq t (codes "v")
    then some view
    else if text_eq t (codes "m")
    then some materialized_view
    else if text_eq t (codes "f")
    then some foreign_table
    else if text_eq t (codes "S")
    then some sequence
    else if text_eq t (codes "T")
    then some type_kind
    else if text_eq t (codes "D")
    then some domain
    else if text_eq t (codes "F")
    then some foreign_key
    else if text_eq t (codes "FN")
    then some function
    else if text_eq t (codes "PR")
    then some procedure
    else if text_eq t (codes "AG")
    then some aggregate
    else if text_eq t (codes "R")
    then some role
    else if text_eq t (codes "V")
    then some server_version
    else none

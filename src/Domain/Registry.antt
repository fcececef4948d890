-- ===== src/Domain/Registry.antt =====
-- The schema registry (domain/src/schema/registry.rs). `IndexSet` keeps the first of two items with
-- one identity, `HashMap` the last of two values under one key.
pub mod Lookup
use luminair_service_aws_dsq.Base.{
  String, Bool, true, false, ◌&&◌, ◌||◌, Option, none, some, List, [], ◌∷◌, ◌==◌, string_eq,
  option_eq, filter_map, find_first, if◌then◌else◌,
}
use luminair_service_aws_dsq.Base.Map
use luminair_service_aws_dsq.Base.Map.{HashMap}
use luminair_service_aws_dsq.Base.IndexSet
use luminair_service_aws_dsq.Domain.Ids.{DocumentTypeId, AttributeId, RelationId}
use luminair_service_aws_dsq.Domain.Schema.{DocumentType, Relation, RelationView, view_for}

pub record SchemaRegistry : Type 0 where
  pub types : List DocumentType
  pub by_name : HashMap String DocumentTypeId
  pub relations : List Relation

abbrev pub type_key : DocumentType → DocumentTypeId
type_key dt = dt.id

abbrev pub relation_key : Relation → RelationId
relation_key r = r.id

-- The two loops of `SchemaRegistry::new`, over the sets and the map that they fill.
abbrev pub add_type : SchemaRegistry → DocumentType → SchemaRegistry
add_type reg dt = record reg {
  types = IndexSet.insert type_key reg.types dt;
  by_name = Map.insert reg.by_name dt.info.plural_name dt.id;
}

unfoldable pub add_types : SchemaRegistry → List DocumentType → SchemaRegistry
add_types reg [] = reg
add_types reg (dt ∷ dts) = add_types (add_type reg dt) dts

abbrev pub add_relation : SchemaRegistry → Relation → SchemaRegistry
add_relation reg r = record reg { relations = IndexSet.insert relation_key reg.relations r }

unfoldable pub add_relations : SchemaRegistry → List Relation → SchemaRegistry
add_relations reg [] = reg
add_relations reg (r ∷ rs) = add_relations (add_relation reg r) rs

abbrev pub empty : SchemaRegistry
empty = record { types = []; by_name = []; relations = [] }

unfoldable pub new : List DocumentType → List Relation → SchemaRegistry
unfolding add_types add_relations
new types relations = add_relations (add_types empty types) relations

unfoldable pub find_type : SchemaRegistry → DocumentTypeId → Option DocumentType
find_type reg id = IndexSet.get type_key reg.types id

unfoldable pub find_type_by_name : SchemaRegistry → String → Option DocumentType
find_type_by_name reg name = elim (Map.get reg.by_name name) [
  | none ↦ none
  | some id ↦ IndexSet.get type_key reg.types id
]

unfoldable pub find_relations_for : SchemaRegistry → DocumentTypeId → List RelationView
find_relations_for reg type_id = filter_map (λ r. view_for r type_id) reg.relations

-- `find_relation`, and `find_relation_by_name` at a string.
unfoldable find_relation : SchemaRegistry → RelationId → Option Relation
find_relation reg id = IndexSet.get relation_key reg.relations id

abbrev pub inverse_attr_of : Relation → Option AttributeId
inverse_attr_of r = elim r.inverse [ none ↦ none | some i ↦ some i.inverse_attr ]

abbrev pub is_relation_for : DocumentTypeId → AttributeId → Relation → Bool
is_relation_for type_id attr r =
    (r.owner_type == type_id && r.owner_attr == attr)
    || (r.target_type == type_id && inverse_attr_of r == some attr)

unfoldable pub find_relation_for_attr :
    SchemaRegistry → DocumentTypeId → AttributeId → Option Relation
find_relation_for_attr reg type_id attr = find_first (is_relation_for type_id attr) reg.relations

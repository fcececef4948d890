-- ===== src/Infrastructure/Migration/Builder/Tables.antt =====
-- The tables of one document type
-- (infrastructure/src/persistence/migration/dynamic/builder.rs): `build_document_type_tables`.
use luminair_service_aws_dsq.Base.{
  String, Bool, true, false, Option, none, some, List, [], ◌∷◌, ◌++◌, if◌then◌else◌,
}
use luminair_service_aws_dsq.Domain.Ids.{DocumentTypeId, AttributeId}
use luminair_service_aws_dsq.Domain.Schema.{
  DocumentType, DocumentKind, collection, single_type, OwnerRelationKind, has_one, has_many,
  RelationView, owner_side, inverse_side, unidirectional,
}
use luminair_service_aws_dsq.Domain.Registry.{SchemaRegistry, find_type, find_relations_for}
use luminair_service_aws_dsq.Infrastructure.Naming.Sanitize.{kebab_to_snake}
use luminair_service_aws_dsq.Infrastructure.Naming.Names.{
  document_type_to_table_name, published_table_name, published_link_table_name, link_table_name,
  link_owner_unique_index_name, link_target_index_name, published_fk_name, link_owner_fk_name,
  link_target_fk_name,
}
use luminair_service_aws_dsq.Infrastructure.Migration.Model.{
  TableDefinition, TableKind, ForeignKeyDefinition, cascade, no_action, new_table,
}
use luminair_service_aws_dsq.Infrastructure.Migration.Builder.Columns.{
  add_columns, add_index, add_foreign_key, add_singleton, add_fields, new_index, entity_columns,
  published_columns, key_column,
}

abbrev pub is_single : DocumentKind → Bool
is_single collection = false
is_single single_type = true

-- A key that cascades on deletion and references an `id`.
abbrev pub id_reference : String → String → String → ForeignKeyDefinition
id_reference name column referenced_table = record {
  name = name;
  columns = column ∷ [];
  referenced_table = referenced_table;
  referenced_columns = "id" ∷ [];
  on_delete = cascade;
  on_update = no_action;
}

unfoldable pub entity_table : DocumentType → TableDefinition
entity_table doc_type =
    let table_name = document_type_to_table_name doc_type in
    let is_singleton = is_single doc_type.kind in
    add_fields table_name
      (add_singleton table_name is_singleton
        (add_columns (new_table table_name TableKind.entity is_singleton) entity_columns))
      doc_type.fields

-- The published mirror before its foreign key.
unfoldable pub published_base : DocumentType → TableDefinition
published_base doc_type =
    let pub_table_name = published_table_name (document_type_to_table_name doc_type) in
    let is_singleton = is_single doc_type.kind in
    add_fields pub_table_name
      (add_singleton pub_table_name is_singleton
        (add_columns (new_table pub_table_name TableKind.published is_singleton) published_columns))
      doc_type.fields

unfoldable pub published_table : DocumentType → TableDefinition
published_table doc_type =
    let table_name = document_type_to_table_name doc_type in
    add_foreign_key (published_base doc_type)
      (id_reference (published_fk_name (published_table_name table_name)) "id" table_name)

-- `HasOne` makes the owner unique.
unfoldable pub add_owner_index : String → OwnerRelationKind → TableDefinition → TableDefinition
add_owner_index link_name has_one t =
    add_index t
      (new_index (link_owner_unique_index_name link_name) link_name ("owner_id" ∷ []) true)
add_owner_index link_name has_many t = t

-- The statements that the draft and the published link table share.
unfoldable pub link_table :
    (link_name owner_table target_table : String) → OwnerRelationKind → TableDefinition
link_table link_name owner_table target_table kind =
    add_index
      (add_owner_index link_name kind (
        add_foreign_key
          (add_foreign_key
            (add_columns (new_table link_name TableKind.link false)
              (key_column "owner_id" ∷ key_column "target_id" ∷ []))
            (id_reference (link_owner_fk_name link_name) "owner_id" owner_table))
          (id_reference (link_target_fk_name link_name) "target_id" target_table)))
      (new_index (link_target_index_name link_name) link_name ("target_id" ∷ []) false)

abbrev pub target_table_name : DocumentTypeId → Option DocumentType → String
target_table_name target_type none = kebab_to_snake target_type
target_table_name target_type (some dt) = document_type_to_table_name dt

abbrev pub published_target_name : DocumentTypeId → Option DocumentType → String
published_target_name target_type none = target_table_name target_type none
published_target_name target_type (some dt) =
    if dt.options.draft_and_publish
    then published_table_name (target_table_name target_type (some dt))
    else target_table_name target_type (some dt)

-- The link tables of one relation that the type owns.
unfoldable pub owned_links :
    SchemaRegistry
    → DocumentType
    → AttributeId
    → OwnerRelationKind
    → DocumentTypeId
    → List TableDefinition
owned_links registry doc_type attr kind target_type =
    let table_name = document_type_to_table_name doc_type in
    let target_dt = find_type registry target_type in
    let link_name = link_table_name table_name attr in
    let draft = link_table link_name table_name (target_table_name target_type target_dt) kind in
    if doc_type.options.draft_and_publish
    then draft
      ∷ link_table (published_link_table_name link_name) (published_table_name table_name)
          (published_target_name target_type target_dt) kind
      ∷ []
    else draft ∷ []

unfoldable pub links_of_view : SchemaRegistry → DocumentType → RelationView → List TableDefinition
links_of_view registry doc_type (unidirectional attr kind target_type) =
    owned_links registry doc_type attr kind target_type
links_of_view registry doc_type (owner_side attr kind other_type) =
    owned_links registry doc_type attr kind other_type
links_of_view registry doc_type (inverse_side _ _ _) = []

unfoldable pub links_of_views :
    SchemaRegistry → DocumentType → List RelationView → List TableDefinition
links_of_views registry doc_type [] = []
links_of_views registry doc_type (view ∷ views) =
    links_of_view registry doc_type view ++ links_of_views registry doc_type views

-- The three parts of the triple that `build_document_type_tables` returns.
unfoldable pub published_of : DocumentType → Option TableDefinition
published_of doc_type =
    if doc_type.options.draft_and_publish then some (published_table doc_type) else none

unfoldable pub link_tables : SchemaRegistry → DocumentType → List TableDefinition
link_tables registry doc_type =
    links_of_views registry doc_type (find_relations_for registry doc_type.id)

abbrev pub build_document_type_tables :
    DocumentType → SchemaRegistry → TableDefinition × Option TableDefinition × List TableDefinition
build_document_type_tables doc_type registry =
    (entity_table doc_type, published_of doc_type, link_tables registry doc_type)

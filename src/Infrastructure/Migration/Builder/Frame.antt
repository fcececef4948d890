-- ===== src/Infrastructure/Migration/Builder/Frame.antt =====
-- What columns and indexes leave alone in a table
-- (infrastructure/src/persistence/migration/dynamic/builder.rs).
use luminair_service_aws_dsq.Base.{
  String, Bool, true, false, List, [], ◌∷◌, ◌≡◌, ◌∙◌, refl, if-holds,
}
use luminair_service_aws_dsq.Domain.Schema.{
  DocumentType, FieldDefinition, OwnerRelationKind, has_one, has_many,
}
use luminair_service_aws_dsq.Infrastructure.Naming.Names.{
  document_type_to_table_name, published_table_name,
}
use luminair_service_aws_dsq.Infrastructure.Migration.Model.{
  TableDefinition, TableKind, ColumnDefinition, IndexDefinition, new_table,
}
use luminair_service_aws_dsq.Infrastructure.Migration.Builder.Columns.{
  add_column, add_columns, add_index, add_singleton, add_field, add_fields,
}
use luminair_service_aws_dsq.Infrastructure.Migration.Builder.Tables.{
  entity_table, published_base, add_owner_index, is_single,
}

module _ {A : Type 0} (part : TableDefinition → A)
    (column_keeps : (t : TableDefinition) (c : ColumnDefinition) → part (add_column t c) ≡ part t)
    (index_keeps : (t : TableDefinition) (i : IndexDefinition)
      → part (add_index t i) ≡ part t) where
  pub add_columns-keep :
      (t : TableDefinition) (cs : List ColumnDefinition) → part (add_columns t cs) ≡ part t
  unfolding add_columns
  add_columns-keep t [] = refl
  add_columns-keep t (c ∷ cs) = add_columns-keep (add_column t c) cs ∙ column_keeps t c

  add_singleton-keep :
      (name : String) (single : Bool) (t : TableDefinition)
      → part (add_singleton name single t) ≡ part t
  unfolding add_singleton
  add_singleton-keep name true t = index_keeps _ _ ∙ column_keeps _ _
  add_singleton-keep name false t = refl

  add_field-keep :
      (name : String) (t : TableDefinition) (f : FieldDefinition)
      → part (add_field name t f) ≡ part t
  unfolding add_field
  add_field-keep name t f =
      if-holds (λ grown. part grown ≡ part t) f.unique _ _ (λ _. index_keeps _ _ ∙ column_keeps _ _)
        (λ _. column_keeps _ _)

  add_fields-keep :
      (name : String) (t : TableDefinition) (fs : List FieldDefinition)
      → part (add_fields name t fs) ≡ part t
  unfolding add_fields
  add_fields-keep name t [] = refl
  add_fields-keep name t (f ∷ fs) =
      add_fields-keep name (add_field name t f) fs ∙ add_field-keep name t f

  pub add_owner_index-keep :
      (link : String) (kind : OwnerRelationKind) (t : TableDefinition)
      → part (add_owner_index link kind t) ≡ part t
  unfolding add_owner_index
  add_owner_index-keep link has_one t = index_keeps _ _
  add_owner_index-keep link has_many t = refl

  pub entity_table-keep :
      (dt : DocumentType)
      → part (entity_table dt)
        ≡ part (new_table (document_type_to_table_name dt) TableKind.entity (is_single dt.kind))
  unfolding entity_table
  entity_table-keep dt =
      add_fields-keep _ _ dt.fields ∙ (add_singleton-keep _ _ _ ∙ add_columns-keep _ _)

  pub published_base-keep :
      (dt : DocumentType)
      → part (published_base dt)
        ≡ part (
            new_table
              (published_table_name (document_type_to_table_name dt))
              TableKind.published
              (is_single dt.kind))
  unfolding published_base
  published_base-keep dt =
      add_fields-keep _ _ dt.fields ∙ (add_singleton-keep _ _ _ ∙ add_columns-keep _ _)

-- ===== src/Infrastructure/Migration/Builder/Fields.antt =====
-- The columns of an entity table
-- (infrastructure/src/persistence/migration/dynamic/builder.rs).
use luminair_service_aws_dsq.Base.{
  String, Bool, true, false, Option, List, [], ◌∷◌, ◌++◌, ◌≡◌, string_eq,
}
use luminair_service_aws_dsq.Base.IndexSet
use luminair_service_aws_dsq.Base.Text.{contains_char}
use luminair_service_aws_dsq.Domain.Ids.{AttributeId}
use luminair_service_aws_dsq.Domain.Schema.{DocumentType}
use luminair_service_aws_dsq.Infrastructure.Migration.Model.{ColumnDefinition, column_key}
use luminair_service_aws_dsq.Infrastructure.Migration.Builder.Columns.{
  entity_columns, singleton_column,
}
use luminair_service_aws_dsq.Infrastructure.Migration.Builder.Tables.{is_single}

abbrev columns_find : List ColumnDefinition → String → Option ColumnDefinition
columns_find cs name = IndexSet.get column_key cs name

-- The columns that the system gives an entity table.
abbrev lock_columns : Bool → List ColumnDefinition
lock_columns true = singleton_column ∷ []
lock_columns false = []

abbrev system_columns : DocumentType → List ColumnDefinition
system_columns dt = entity_columns ++ lock_columns (is_single dt.kind)

-- An identifier without `_`, as every kebab-case identifier is.
abbrev IsKebab : AttributeId → Type 0
IsKebab attr = contains_char "_" attr ≡ false

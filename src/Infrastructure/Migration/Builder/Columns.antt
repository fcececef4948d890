-- ===== src/Infrastructure/Migration/Builder/Columns.antt =====
-- Columns (infrastructure/src/persistence/migration/dynamic/builder.rs): `map_field_type_to_sql`,
-- the columns that the system adds to an entity table and to its published mirror, and those of the
-- declared fields.
use Prim.Native.String.{◌++◌}
use luminair_service_aws_dsq.Base.{
  String, Bool, true, false, not, Option, none, some, List, [], ◌∷◌, if◌then◌else◌, string_eq,
}
use luminair_service_aws_dsq.Base.IndexSet
use luminair_service_aws_dsq.Domain.Schema.{
  FieldType, localized_text, email, url, json, PrimitiveType, date_time, IntegerSize,
  FieldDefinition,
}
use luminair_service_aws_dsq.Infrastructure.Naming.Names.{attribute_to_column_name, index_name}
use luminair_service_aws_dsq.Infrastructure.Migration.Model.{
  SqlColumnType, varchar, small_int, big_int, timestamptz, jsonb, ColumnDefinition, IndexDefinition,
  TableDefinition, ForeignKeyDefinition, column_key, index_key,
}

unfoldable pub map_field_type_to_sql : FieldType → SqlColumnType
map_field_type_to_sql (FieldType.primitive PrimitiveType.text) = SqlColumnType.text
map_field_type_to_sql (FieldType.primitive PrimitiveType.uid) = varchar (some 255)
map_field_type_to_sql (FieldType.primitive PrimitiveType.uuid) = SqlColumnType.uuid
map_field_type_to_sql (FieldType.primitive PrimitiveType.boolean) = SqlColumnType.boolean
map_field_type_to_sql (FieldType.primitive PrimitiveType.date) = SqlColumnType.date
map_field_type_to_sql (FieldType.primitive date_time) = timestamptz
map_field_type_to_sql (FieldType.primitive (PrimitiveType.integer IntegerSize.i16)) = small_int
map_field_type_to_sql (FieldType.primitive (PrimitiveType.integer IntegerSize.i32)) =
    SqlColumnType.integer
map_field_type_to_sql (FieldType.primitive (PrimitiveType.integer IntegerSize.i64)) = big_int
map_field_type_to_sql (FieldType.primitive (PrimitiveType.decimal precision scale)) =
    SqlColumnType.decimal precision scale
map_field_type_to_sql email = varchar (some 255)
map_field_type_to_sql url = SqlColumnType.text
map_field_type_to_sql localized_text = jsonb
map_field_type_to_sql json = jsonb

-- Insertions into the sets of a table.
abbrev pub add_column : TableDefinition → ColumnDefinition → TableDefinition
add_column t c = record t { columns = IndexSet.insert column_key t.columns c }

abbrev pub add_index : TableDefinition → IndexDefinition → TableDefinition
add_index t i = record t { indexes = IndexSet.insert index_key t.indexes i }

abbrev pub foreign_key_key : ForeignKeyDefinition → String
foreign_key_key fk = fk.name

abbrev pub add_foreign_key : TableDefinition → ForeignKeyDefinition → TableDefinition
add_foreign_key t fk = record t { foreign_keys = IndexSet.insert foreign_key_key t.foreign_keys fk }

unfoldable pub add_columns : TableDefinition → List ColumnDefinition → TableDefinition
add_columns t [] = t
add_columns t (c ∷ cs) = add_columns (add_column t c) cs

-- A column that is neither a key nor unique.
abbrev plain_column : String → SqlColumnType → Bool → Option String → ColumnDefinition
plain_column name data_type nullable default_value = record {
  name = name;
  data_type = data_type;
  nullable = nullable;
  is_primary_key = false;
  default_value = default_value;
  unique = false;
}

abbrev pub id_column : ColumnDefinition
id_column = record {
  name = "id";
  data_type = SqlColumnType.uuid;
  nullable = false;
  is_primary_key = true;
  default_value = none;
  unique = true;
}

abbrev pub key_column : String → ColumnDefinition
key_column name = record {
  name = name;
  data_type = SqlColumnType.uuid;
  nullable = false;
  is_primary_key = true;
  default_value = none;
  unique = false;
}

abbrev pub singleton_column : ColumnDefinition
singleton_column = record {
  name = "_singleton";
  data_type = SqlColumnType.boolean;
  nullable = false;
  is_primary_key = false;
  default_value = some "TRUE";
  unique = true;
}

abbrev pub entity_columns : List ColumnDefinition
entity_columns =
    id_column
    ∷ plain_column "version" big_int false (some "1")
    ∷ plain_column "owner_id" (varchar (some 255)) false none
    ∷ plain_column "publication_state" (varchar (some 50)) false none
    ∷ plain_column "created_at" timestamptz false (some "CURRENT_TIMESTAMP")
    ∷ plain_column "updated_at" timestamptz false (some "CURRENT_TIMESTAMP")
    ∷ []

abbrev pub published_columns : List ColumnDefinition
published_columns =
    id_column
    ∷ plain_column "published_version" big_int false none
    ∷ plain_column "owner_id" (varchar (some 255)) false none
    ∷ plain_column "created_at" timestamptz false none
    ∷ plain_column "updated_at" timestamptz false none
    ∷ plain_column "published_at" timestamptz false (some "CURRENT_TIMESTAMP")
    ∷ plain_column "published_by" (varchar (some 255)) true none
    ∷ []

abbrev pub new_index : String → String → List String → Bool → IndexDefinition
new_index name table_name columns unique = record {
  name = name;
  table_name = table_name;
  columns = columns;
  unique = unique;
}

-- The lock column of a single type.
unfoldable pub add_singleton : String → Bool → TableDefinition → TableDefinition
add_singleton table_name is_singleton t =
    if is_singleton
    then add_index (add_column t singleton_column)
        (new_index ("idx_" ++ (table_name ++ "__singleton")) table_name ("_singleton" ∷ []) true)
    else t

abbrev pub field_column : FieldDefinition → ColumnDefinition
field_column field_def = record {
  name = attribute_to_column_name field_def.id;
  data_type = map_field_type_to_sql field_def.field_type;
  nullable = not field_def.required;
  is_primary_key = false;
  default_value = none;
  unique = field_def.unique;
}

-- The body of the loop over the declared fields.
unfoldable pub add_field : String → TableDefinition → FieldDefinition → TableDefinition
add_field table_name t field_def =
    let col_name = attribute_to_column_name field_def.id in
    let grown = add_column t (field_column field_def) in
    if field_def.unique
    then add_index grown
        (new_index (index_name table_name col_name) table_name (col_name ∷ []) true)
    else grown

unfoldable pub add_fields : String → TableDefinition → List FieldDefinition → TableDefinition
add_fields table_name t [] = t
add_fields table_name t (f ∷ fs) = add_fields table_name (add_field table_name t f) fs

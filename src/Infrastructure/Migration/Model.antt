-- ===== src/Infrastructure/Migration/Model.antt =====
-- The database schema that migration compares and plans for
-- (infrastructure/src/persistence/migration/dynamic/model.rs). The sets of tables, columns and
-- indexes are `IndexSet`s, keyed by name.
use luminair_service_aws_dsq.Base.{ℕ, String, Bool, Option, List, [], string_eq}
use luminair_service_aws_dsq.Base.IndexSet

pub data TableKind : Type 0 where
  entity published link : TableKind

pub data ForeignKeyAction : Type 0 where
  cascade restrict set_null no_action : ForeignKeyAction

pub data SqlColumnType : Type 0 where
  uuid : SqlColumnType
  varchar : Option ℕ → SqlColumnType
  text small_int integer big_int : SqlColumnType
  decimal : (precision scale : ℕ) → SqlColumnType
  boolean date timestamptz jsonb : SqlColumnType

pub record ColumnDefinition : Type 0 where
  pub name : String
  pub data_type : SqlColumnType
  pub nullable : Bool
  pub is_primary_key : Bool
  pub default_value : Option String
  pub unique : Bool

pub record IndexDefinition : Type 0 where
  pub name : String
  pub table_name : String
  pub columns : List String
  pub unique : Bool

pub record ForeignKeyDefinition : Type 0 where
  pub name : String
  pub columns : List String
  pub referenced_table : String
  pub referenced_columns : List String
  pub on_delete : ForeignKeyAction
  pub on_update : ForeignKeyAction

pub record TableDefinition : Type 0 where
  pub name : String
  pub columns : List ColumnDefinition
  pub indexes : List IndexDefinition
  pub foreign_keys : List ForeignKeyDefinition
  pub kind : TableKind
  pub is_singleton : Bool

pub record DatabaseSchema : Type 0 where
  pub tables : List TableDefinition

-- The key of each set.
abbrev pub table_key : TableDefinition → String
table_key t = t.name

abbrev pub column_key : ColumnDefinition → String
column_key c = c.name

abbrev pub index_key : IndexDefinition → String
index_key i = i.name

-- `TableDefinition::new`
abbrev pub new_table : String → TableKind → Bool → TableDefinition
new_table name kind is_singleton = record {
  name = name;
  columns = [];
  indexes = [];
  foreign_keys = [];
  kind = kind;
  is_singleton = is_singleton;
}

abbrev pub find_table : DatabaseSchema → String → Option TableDefinition
find_table schema name = IndexSet.get table_key schema.tables name

abbrev pub insert_table : DatabaseSchema → TableDefinition → DatabaseSchema
insert_table schema table = record schema { tables = IndexSet.insert table_key schema.tables table }

abbrev pub find_column : TableDefinition → String → Option ColumnDefinition
find_column table name = IndexSet.get column_key table.columns name

abbrev pub find_index : TableDefinition → String → Option IndexDefinition
find_index table name = IndexSet.get index_key table.indexes name

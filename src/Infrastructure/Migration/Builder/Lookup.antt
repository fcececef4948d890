-- ===== src/Infrastructure/Migration/Builder/Lookup.antt =====
-- What is found in a table that columns are added to, and in a set that tables are inserted into
-- (infrastructure/src/persistence/migration/dynamic/builder.rs).
use luminair_service_aws_dsq.Base.{
  String, Bool, true, false, some, List, [], ◌∷◌, ◌≡◌, ◌∙◌, refl, arith, All, inl, inr, Bool-cases,
  string_eq, ◌==◌, ◌||◌,
}
use luminair_service_aws_dsq.Base.IndexSet
use luminair_service_aws_dsq.Base.IndexSet.{
  contains-insert, contains-get, get-contains, get-insert_old, get-insert, All-insert,
}
use luminair_service_aws_dsq.Domain.Schema.{FieldDefinition}
use luminair_service_aws_dsq.Infrastructure.Migration.Model.{
  TableDefinition, ColumnDefinition, DatabaseSchema, table_key, column_key, find_table, find_column,
  insert_table,
}
use luminair_service_aws_dsq.Infrastructure.Migration.Builder.Columns.{
  add_column, add_columns, add_singleton, add_field, add_fields,
}
use luminair_service_aws_dsq.Infrastructure.Migration.Builder.Schema.{insert_tables}

-- A column that is there stays the one that is found.
module _ (name : String) (c : ColumnDefinition) where
  abbrev Finds : TableDefinition → Type 0
  Finds t = find_column t name ≡ some c

  add_column-find : (t : TableDefinition) (d : ColumnDefinition) → Finds t → Finds (add_column t d)
  add_column-find t d h =
      get-insert_old column_key t.columns d name (get-contains column_key t.columns name c h) ∙ h

  pub add_columns-find :
      (t : TableDefinition) (ds : List ColumnDefinition) → Finds t → Finds (add_columns t ds)
  unfolding add_columns
  add_columns-find t [] h = h
  add_columns-find t (d ∷ ds) h = add_columns-find (add_column t d) ds (add_column-find t d h)

  pub add_singleton-find :
      (table_name : String) (is_singleton : Bool) (t : TableDefinition)
      → Finds t
      → Finds (add_singleton table_name is_singleton t)
  unfolding add_singleton
  add_singleton-find table_name true t h = add_column-find t _ h
  add_singleton-find table_name false t h = h

  add_field-find :
      (table_name : String) (t : TableDefinition) (f : FieldDefinition)
      → Finds t
      → Finds (add_field table_name t f)
  unfolding add_field
  add_field-find table_name t f h = elim (Bool-cases f.unique) [
    | inl unique ↦ rw unique (add_column-find t _ h)
    | inr plain ↦ rw plain (add_column-find t _ h)
  ]

  pub add_fields-find :
      (table_name : String) (t : TableDefinition) (fs : List FieldDefinition)
      → Finds t
      → Finds (add_fields table_name t fs)
  unfolding add_fields
  add_fields-find table_name t [] h = h
  add_fields-find table_name t (f ∷ fs) h =
      add_fields-find table_name (add_field table_name t f) fs (add_field-find table_name t f h)

abbrev pub has_table : DatabaseSchema → String → Bool
has_table schema name = IndexSet.contains table_key schema.tables name

module _ (name : String) where
  pub insert_table-has :
      (schema : DatabaseSchema) (t : TableDefinition)
      → has_table (insert_table schema t) name ≡ (has_table schema name || name == t.name)
  insert_table-has schema t = contains-insert table_key schema.tables t name

  -- Insertions keep the tables that are there.
  pub insert_tables-has :
      (schema : DatabaseSchema) (ts : List TableDefinition)
      → has_table (insert_tables schema ts) name
        ≡ (has_table schema name || IndexSet.contains table_key ts name)
  unfolding insert_tables
  insert_tables-has schema [] = ground arith
  insert_tables-has schema (t ∷ ts) =
      ground (arith, insert_tables-has (insert_table schema t) ts, insert_table-has schema t)

  pub insert_tables-find :
      (schema : DatabaseSchema) (ts : List TableDefinition)
      → has_table schema name ≡ true
      → find_table (insert_tables schema ts) name ≡ find_table schema name
  unfolding insert_tables
  insert_tables-find schema [] h = refl
  insert_tables-find schema (t ∷ ts) h =
      insert_tables-find (insert_table schema t) ts (ground (arith, insert_table-has schema t))
      ∙ get-insert_old table_key schema.tables t name h

pub insert_tables-All :
    (P : TableDefinition → Type 0) (schema : DatabaseSchema) (ts : List TableDefinition)
    → All P schema.tables
    → All P ts
    → All P (insert_tables schema ts).tables
unfolding insert_tables
insert_tables-All P schema [] hs _ = hs
insert_tables-All P schema (t ∷ ts) hs (h, rest) =
    insert_tables-All P (insert_table schema t) ts (All-insert table_key P schema.tables t hs h)
      rest

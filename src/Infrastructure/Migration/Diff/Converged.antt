-- ===== src/Infrastructure/Migration/Diff/Converged.antt =====
-- Schemas with the same names, and what `compute_diff` makes of them (dynamic/diff.rs).
use luminair_service_aws_dsq.Base.{String, some, List, [], ◌∷◌, ◌≡◌, refl, ok, All, string_eq}
use luminair_service_aws_dsq.Infrastructure.Migration.Model.{
  ColumnDefinition, IndexDefinition, TableDefinition, DatabaseSchema, find_table, find_column,
  find_index,
}
use luminair_service_aws_dsq.Infrastructure.Migration.Diff.{
  SafetyPolicy, new_columns, dropped_columns, new_indexes, dropped_indexes, diff_table, diff_tables,
  dropped_tables, compute_diff,
}

-- Each of the columns has a namesake in the table; and so for indexes and tables.
abbrev pub HasColumns : TableDefinition → List ColumnDefinition → Type 0
HasColumns table cols =
    All (λ col. (found : ColumnDefinition) × (find_column table col.name ≡ some found)) cols

abbrev pub HasIndexes : TableDefinition → List IndexDefinition → Type 0
HasIndexes table idxs =
    All (λ idx. (found : IndexDefinition) × (find_index table idx.name ≡ some found)) idxs

new_columns-nil :
    (actual : TableDefinition) (name : String) (cols : List ColumnDefinition)
    → HasColumns actual cols
    → new_columns actual name cols ≡ []
unfolding new_columns
new_columns-nil actual name [] h = refl
new_columns-nil actual name (col ∷ cols) ((found, e), h) =
    rw (e, new_columns) (new_columns-nil actual name cols h)

dropped_columns-nil :
    (policy : SafetyPolicy) (desired : TableDefinition) (cols : List ColumnDefinition)
    → HasColumns desired cols
    → dropped_columns policy desired cols ≡ ok []
unfolding dropped_columns
dropped_columns-nil policy desired [] h = refl
dropped_columns-nil policy desired (col ∷ cols) ((found, e), h) =
    rw (e, dropped_columns) (dropped_columns-nil policy desired cols h)

new_indexes-nil :
    (actual : TableDefinition) (idxs : List IndexDefinition)
    → HasIndexes actual idxs
    → new_indexes actual idxs ≡ []
unfolding new_indexes
new_indexes-nil actual [] h = refl
new_indexes-nil actual (idx ∷ idxs) ((found, e), h) =
    rw (e, new_indexes) (new_indexes-nil actual idxs h)

dropped_indexes-nil :
    (policy : SafetyPolicy) (actual desired : TableDefinition) (idxs : List IndexDefinition)
    → HasIndexes desired idxs
    → dropped_indexes policy actual desired idxs ≡ ok []
unfolding dropped_indexes
dropped_indexes-nil policy actual desired [] h = refl
dropped_indexes-nil policy actual desired (idx ∷ idxs) ((found, e), h) =
    rw (e, dropped_indexes) (dropped_indexes-nil policy actual desired idxs h)

-- Two tables with the same names of columns and of indexes.
pub record SameNames (actual desired : TableDefinition) : Type 0 where
  pub columns : HasColumns actual desired.columns
  pub no_other_columns : HasColumns desired actual.columns
  pub indexes : HasIndexes actual desired.indexes
  pub no_other_indexes : HasIndexes desired actual.indexes

diff_table-nil :
    (policy : SafetyPolicy) (actual : DatabaseSchema) (desired table : TableDefinition)
    → find_table actual desired.name ≡ some table
    → SameNames table desired
    → diff_table policy actual desired ≡ ok []
unfolding diff_table
diff_table-nil policy actual desired table e h =
    rw
      (
        e,
        diff_table,
        new_columns-nil table desired.name desired.columns h.columns,
        dropped_columns-nil policy desired table.columns h.no_other_columns,
        new_indexes-nil table desired.indexes h.indexes,
        dropped_indexes-nil policy table desired table.indexes h.no_other_indexes,
      )
      refl

-- The two schemas have tables of the same names, and namesakes have the same names in them.
pub record IsConverged (actual desired : DatabaseSchema) : Type 0 where
  pub present :
      All
        (λ t.
          (found : TableDefinition) × (find_table actual t.name ≡ some found) × SameNames found t)
        desired.tables
  pub no_other :
      All (λ t. (found : TableDefinition) × (find_table desired t.name ≡ some found)) actual.tables

diff_tables-nil :
    (policy : SafetyPolicy) (actual : DatabaseSchema) (tables : List TableDefinition)
    → All
        (λ t.
          (found : TableDefinition) × (find_table actual t.name ≡ some found) × SameNames found t)
        tables
    → diff_tables policy actual tables ≡ ok []
unfolding diff_tables
diff_tables-nil policy actual [] h = refl
diff_tables-nil policy actual (t ∷ tables) ((found, e, same), h) =
    rw (diff_table-nil policy actual t found e same, diff_tables-nil policy actual tables h) refl

dropped_tables-nil :
    (policy : SafetyPolicy) (desired : DatabaseSchema) (tables : List TableDefinition)
    → All (λ t. (found : TableDefinition) × (find_table desired t.name ≡ some found)) tables
    → dropped_tables policy desired tables ≡ ok []
unfolding dropped_tables
dropped_tables-nil policy desired [] h = refl
dropped_tables-nil policy desired (t ∷ tables) ((found, e), h) =
    rw (e, dropped_tables) (dropped_tables-nil policy desired tables h)

-- Between two schemas with the same names, `compute_diff` finds no step and no error, under either
-- policy, whatever else differs.
pub compute_diff-nil :
    (policy : SafetyPolicy) (actual desired : DatabaseSchema)
    → IsConverged actual desired
    → compute_diff actual desired policy ≡ ok []
unfolding compute_diff
compute_diff-nil policy actual desired h =
    rw
      (
        diff_tables-nil policy actual desired.tables h.present,
        dropped_tables-nil policy desired actual.tables h.no_other,
      )
      refl

-- ===== src/Infrastructure/Migration/Diff.antt =====
-- Drift detection (infrastructure/src/persistence/migration/dynamic/diff.rs). The vector of steps
-- that the loops push on is the concatenation of what they push, and an early return is an error.
pub mod Policy
pub mod Converged
pub mod Detection
use luminair_service_aws_dsq.Base.{
  ℕ, String, Bool, true, false, Option, none, some, List, [], ◌∷◌, ◌++◌, Result, ok, err,
}
use luminair_service_aws_dsq.Base.Fallible.{◌>>=◌, ◌>>◌}
use luminair_service_aws_dsq.Infrastructure.Migration.Model.{
  TableKind, ColumnDefinition, IndexDefinition, TableDefinition, DatabaseSchema, find_table,
  find_column, find_index,
}

pub data SafetyPolicy : Type 0 where
  additive_only allow_destructive : SafetyPolicy

-- The operation that an error names.
pub data Operation : Type 0 where
  column_drop : (table column : String) → Operation
  index_drop : (index : String) → Operation
  table_drop : (table : String) → Operation

pub data DiffError : Type 0 where
  destructive_operation_blocked : (operation : Operation) → DiffError

pub data MigrationStep : Type 0 where
  create_table : TableDefinition → MigrationStep
  drop_table : (name : String) (kind : TableKind) → MigrationStep
  add_column : (table : String) (column : ColumnDefinition) → MigrationStep
  drop_column : (table column : String) → MigrationStep
  create_index : IndexDefinition → MigrationStep
  drop_index : (name table : String) → MigrationStep

-- A drop under the policy, and then the rest.
abbrev pub guarded :
    SafetyPolicy
    → Operation
    → MigrationStep
    → Result DiffError (List MigrationStep)
    → Result DiffError (List MigrationStep)
guarded additive_only op step rest = err (destructive_operation_blocked op)
guarded allow_destructive op step rest = do steps ← rest; ok (step ∷ steps)

-- 1a
unfoldable pub new_columns : TableDefinition → String → List ColumnDefinition → List MigrationStep
new_columns actual name [] = []
new_columns actual name (col ∷ cols) =
    let rest = new_columns actual name cols in
    elim (find_column actual col.name) [ none ↦ add_column name col ∷ rest | some _ ↦ rest ]

-- 1b
unfoldable pub dropped_columns :
    SafetyPolicy → TableDefinition → List ColumnDefinition → Result DiffError (List MigrationStep)
dropped_columns policy desired [] = ok []
dropped_columns policy desired (col ∷ cols) =
    let rest = dropped_columns policy desired cols in
    elim (find_column desired col.name) [
      | none ↦
          guarded policy (column_drop desired.name col.name) (drop_column desired.name col.name)
            rest
      | some _ ↦ rest
    ]

-- 1c
unfoldable pub new_indexes : TableDefinition → List IndexDefinition → List MigrationStep
new_indexes actual [] = []
new_indexes actual (idx ∷ idxs) =
    let rest = new_indexes actual idxs in
    elim (find_index actual idx.name) [ none ↦ create_index idx ∷ rest | some _ ↦ rest ]

-- 1d
unfoldable pub dropped_indexes :
    SafetyPolicy
    → TableDefinition
    → TableDefinition
    → List IndexDefinition
    → Result DiffError (List MigrationStep)
dropped_indexes policy actual desired [] = ok []
dropped_indexes policy actual desired (idx ∷ idxs) =
    let rest = dropped_indexes policy actual desired idxs in
    elim (find_index desired idx.name) [
      | none ↦ guarded policy (index_drop idx.name) (drop_index idx.name actual.name) rest
      | some _ ↦ rest
    ]

-- The loop's body for a desired table.
unfoldable pub diff_table :
    SafetyPolicy → DatabaseSchema → TableDefinition → Result DiffError (List MigrationStep)
diff_table policy actual desired = elim (find_table actual desired.name) [
  | none ↦ ok (create_table desired ∷ [])
  | some table ↦ (do
    columns ← dropped_columns policy desired table.columns
    indexes ← dropped_indexes policy table desired table.indexes
    ok (
        new_columns table desired.name desired.columns
        ++ columns
        ++ new_indexes table desired.indexes
        ++ indexes))
]

unfoldable pub diff_tables :
    SafetyPolicy → DatabaseSchema → List TableDefinition → Result DiffError (List MigrationStep)
diff_tables policy actual [] = ok []
diff_tables policy actual (desired ∷ rest) = do
  steps ← diff_table policy actual desired
  more ← diff_tables policy actual rest
  ok (steps ++ more)

-- 2
unfoldable pub dropped_tables :
    SafetyPolicy → DatabaseSchema → List TableDefinition → Result DiffError (List MigrationStep)
dropped_tables policy desired [] = ok []
dropped_tables policy desired (table ∷ tables) =
    let rest = dropped_tables policy desired tables in
    elim (find_table desired table.name) [
      | none ↦ guarded policy (table_drop table.name) (drop_table table.name table.kind) rest
      | some _ ↦ rest
    ]

unfoldable pub compute_diff :
    DatabaseSchema → DatabaseSchema → SafetyPolicy → Result DiffError (List MigrationStep)
compute_diff actual desired policy = do
  steps ← diff_tables policy actual desired.tables
  drops ← dropped_tables policy desired actual.tables
  ok (steps ++ drops)

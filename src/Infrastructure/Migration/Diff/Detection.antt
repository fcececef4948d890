-- ===== src/Infrastructure/Migration/Diff/Detection.antt =====
-- What a diff without steps says of the two schemas (dynamic/diff.rs).
use luminair_service_aws_dsq.Base.{
  String, some, List, [], ◌∷◌, ◌++◌, ◌≡◌, ◌≢◌, ◌↔◌, ap, Result, ok, err, All, Option-cases, inl,
  inr, arith, string_eq, append-eq-nil,
}
use luminair_service_aws_dsq.Infrastructure.Migration.Model.{
  ColumnDefinition, IndexDefinition, TableDefinition, DatabaseSchema, find_table, find_column,
  find_index,
}
use luminair_service_aws_dsq.Infrastructure.Migration.Diff.{
  SafetyPolicy, additive_only, allow_destructive, Operation, DiffError, MigrationStep, guarded,
  new_columns, dropped_columns, new_indexes, dropped_indexes, diff_table, diff_tables,
  dropped_tables, compute_diff,
}
use luminair_service_aws_dsq.Infrastructure.Migration.Diff.Policy.{joined, both}
use luminair_service_aws_dsq.Infrastructure.Migration.Diff.Converged.{
  HasColumns, HasIndexes, SameNames, IsConverged, compute_diff-nil,
}

abbrev Steps : Type 0
Steps = Result DiffError (List MigrationStep)

guarded_some :
    (policy : SafetyPolicy) (op : Operation) (step : MigrationStep) (rest : Steps)
    → guarded policy op step rest ≢ ok []
guarded_some additive_only op step rest h = absurd (ground arith)
guarded_some allow_destructive op step (ok steps) h = absurd (ground arith)
guarded_some allow_destructive op step (err e) h = absurd (ground arith)

joined_nil :
    (us vs : List MigrationStep) (r q : Steps)
    → joined us vs r q ≡ ok []
    → (us ≡ []) × (r ≡ ok []) × (vs ≡ []) × (q ≡ ok [])
joined_nil us vs (ok xs) (ok ys) h =
    let whole : us ++ xs ++ vs ++ ys ≡ [] = ground arith in
    let (front, eys) = (append-eq-nil (us ++ xs ++ vs) ys).0 whole in
    let (front', evs) = (append-eq-nil (us ++ xs) vs).0 front in
    let (eus, exs) = (append-eq-nil us xs).0 front' in (eus, ap ok exs, evs, ap ok eys)
joined_nil us vs (ok xs) (err e) h = absurd (ground arith)
joined_nil us vs (err e) q h = absurd (ground arith)

both_nil : (r q : Steps) → both r q ≡ ok [] → (r ≡ ok []) × (q ≡ ok [])
both_nil (ok xs) (ok ys) h =
    let whole : xs ++ ys ≡ [] = ground arith in
    let (exs, eys) = (append-eq-nil xs ys).0 whole in (ap ok exs, ap ok eys)
both_nil (ok xs) (err e) h = absurd (ground arith)
both_nil (err e) q h = absurd (ground arith)

new_columns_nil :
    (actual : TableDefinition) (name : String) (cols : List ColumnDefinition)
    → new_columns actual name cols ≡ []
    → HasColumns actual cols
unfolding new_columns
new_columns_nil actual name [] h = tt
new_columns_nil actual name (col ∷ cols) h = elim (Option-cases (find_column actual col.name)) [
  | inl absent ↦ absurd (ground arith)
  | inr (found, e) ↦ ((found, e), new_columns_nil actual name cols (rw (e, new_columns) at h))
]

new_indexes_nil :
    (actual : TableDefinition) (idxs : List IndexDefinition)
    → new_indexes actual idxs ≡ []
    → HasIndexes actual idxs
unfolding new_indexes
new_indexes_nil actual [] h = tt
new_indexes_nil actual (idx ∷ idxs) h = elim (Option-cases (find_index actual idx.name)) [
  | inl absent ↦ absurd (ground arith)
  | inr (found, e) ↦ ((found, e), new_indexes_nil actual idxs (rw (e, new_indexes) at h))
]

dropped_columns_nil :
    (policy : SafetyPolicy) (desired : TableDefinition) (cols : List ColumnDefinition)
    → dropped_columns policy desired cols ≡ ok []
    → HasColumns desired cols
unfolding dropped_columns
dropped_columns_nil policy desired [] h = tt
dropped_columns_nil policy desired (col ∷ cols) h =
    elim (Option-cases (find_column desired col.name)) [
      | inl absent ↦ absurd (guarded_some policy _ _ _ (rw (absent, dropped_columns) at h))
      | inr (found, e) ↦
          ((found, e), dropped_columns_nil policy desired cols (rw (e, dropped_columns) at h))
    ]

dropped_indexes_nil :
    (policy : SafetyPolicy) (actual desired : TableDefinition) (idxs : List IndexDefinition)
    → dropped_indexes policy actual desired idxs ≡ ok []
    → HasIndexes desired idxs
unfolding dropped_indexes
dropped_indexes_nil policy actual desired [] h = tt
dropped_indexes_nil policy actual desired (idx ∷ idxs) h =
    elim (Option-cases (find_index desired idx.name)) [
      | inl absent ↦ absurd (guarded_some policy _ _ _ (rw (absent, dropped_indexes) at h))
      | inr (found, e) ↦ (
        (found, e),
        dropped_indexes_nil policy actual desired idxs (rw (e, dropped_indexes) at h),
      )
    ]

dropped_tables_nil :
    (policy : SafetyPolicy) (desired : DatabaseSchema) (tables : List TableDefinition)
    → dropped_tables policy desired tables ≡ ok []
    → All (λ t. (found : TableDefinition) × (find_table desired t.name ≡ some found)) tables
unfolding dropped_tables
dropped_tables_nil policy desired [] h = tt
dropped_tables_nil policy desired (t ∷ tables) h = elim (Option-cases (find_table desired t.name)) [
  | inl absent ↦ absurd (guarded_some policy _ _ _ (rw (absent, dropped_tables) at h))
  | inr (found, e) ↦
      ((found, e), dropped_tables_nil policy desired tables (rw (e, dropped_tables) at h))
]

diff_table_nil :
    (policy : SafetyPolicy) (actual : DatabaseSchema) (desired : TableDefinition)
    → diff_table policy actual desired ≡ ok []
    → (found : TableDefinition) × (find_table actual desired.name ≡ some found)
      × SameNames found desired
unfolding diff_table
diff_table_nil policy actual desired h = elim (Option-cases (find_table actual desired.name)) [
  | inl absent ↦ absurd (ground arith)
  | inr (table, e) ↦
      let (cols, lost_cols, idxs, lost_idxs) =
        joined_nil (new_columns table desired.name desired.columns)
          (new_indexes table desired.indexes) (dropped_columns policy desired table.columns)
          (dropped_indexes policy table desired table.indexes) (rw (e, diff_table) at h) in
      (
        table,
        e,
        record {
          columns = new_columns_nil table desired.name desired.columns cols;
          no_other_columns = dropped_columns_nil policy desired table.columns lost_cols;
          indexes = new_indexes_nil table desired.indexes idxs;
          no_other_indexes = dropped_indexes_nil policy table desired table.indexes lost_idxs;
        },
      )
]

diff_tables_nil :
    (policy : SafetyPolicy) (actual : DatabaseSchema) (tables : List TableDefinition)
    → diff_tables policy actual tables ≡ ok []
    → All
        (λ t.
          (found : TableDefinition) × (find_table actual t.name ≡ some found) × SameNames found t)
        tables
unfolding diff_tables
diff_tables_nil policy actual [] h = tt
diff_tables_nil policy actual (t ∷ tables) h =
    let (first, rest) =
      both_nil (diff_table policy actual t) (diff_tables policy actual tables) h in
    (diff_table_nil policy actual t first, diff_tables_nil policy actual tables rest)

-- If `compute_diff` gives no step and no error, under either policy, then no name differs: the two
-- schemas have tables of the same names, with columns and indexes of the same names.
compute_diff-IsConverged :
    (policy : SafetyPolicy) (actual desired : DatabaseSchema)
    → compute_diff actual desired policy ≡ ok []
    → IsConverged actual desired
unfolding compute_diff
compute_diff-IsConverged policy actual desired h =
    let (tables, drops) =
      both_nil (diff_tables policy actual desired.tables)
        (dropped_tables policy desired actual.tables) h in
    record {
      present = diff_tables_nil policy actual desired.tables tables;
      no_other = dropped_tables_nil policy desired actual.tables drops;
    }

-- Under either policy, `compute_diff` gives no step and no error exactly if no name differs: the two
-- schemas have tables of the same names, with columns and indexes of the same names, whatever else
-- differs.
pub compute_diff-nil_iff :
    (policy : SafetyPolicy) (actual desired : DatabaseSchema)
    → (compute_diff actual desired policy ≡ ok []) ↔ IsConverged actual desired
compute_diff-nil_iff policy actual desired =
    (compute_diff-IsConverged policy actual desired, compute_diff-nil policy actual desired)

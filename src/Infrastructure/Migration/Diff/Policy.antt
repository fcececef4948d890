-- ===== src/Infrastructure/Migration/Diff/Policy.antt =====
-- The two safety policies side by side (dynamic/diff.rs).
use luminair_service_aws_dsq.Base.{
  String, Bool, true, false, ◌||◌, List, [], ◌∷◌, ◌++◌, ◌≡◌, refl, ap, Result, ok, err, any,
  any-append, Option-cases, Bool-cases, inl, inr, arith, string_eq,
}
use mathlib.Core.List.{append-nil}
use luminair_service_aws_dsq.Base.Fallible.{◌>>=◌}
use luminair_service_aws_dsq.Infrastructure.Migration.Model.{
  ColumnDefinition, IndexDefinition, TableDefinition, DatabaseSchema, find_table, find_column,
  find_index,
}
use luminair_service_aws_dsq.Infrastructure.Migration.Diff.{
  additive_only, allow_destructive, Operation, DiffError, MigrationStep, create_table, drop_table,
  add_column, drop_column, create_index, drop_index, guarded, new_columns, dropped_columns,
  new_indexes, dropped_indexes, diff_table, diff_tables, dropped_tables, compute_diff,
}

abbrev pub is_drop : MigrationStep → Bool
is_drop (create_table _) = false
is_drop (drop_table _ _) = true
is_drop (add_column _ _) = false
is_drop (drop_column _ _) = true
is_drop (create_index _) = false
is_drop (drop_index _ _) = true

-- The two policies on the same input: with drops allowed there is a result; without, it is the same
-- where nothing is to be dropped and an error where something is.
pub record Agree (additive destructive : Result DiffError (List MigrationStep)) : Type 0 where
  pub steps : List MigrationStep
  pub allowed : destructive ≡ ok steps
  pub same : any is_drop steps ≡ false → additive ≡ ok steps
  blocked : any is_drop steps ≡ true → (e : DiffError) × (additive ≡ err e)

Agree-ok : (steps : List MigrationStep) → any is_drop steps ≡ false → Agree (ok steps) (ok steps)
Agree-ok steps h = record {
  steps = steps;
  allowed = refl;
  same = λ _. refl;
  blocked = λ drops. absurd (ground arith);
}

Agree-guarded :
    (op : Operation) (step : MigrationStep) (ra rd : Result DiffError (List MigrationStep))
    → is_drop step ≡ true
    → Agree ra rd
    → Agree (guarded additive_only op step ra) (guarded allow_destructive op step rd)
Agree-guarded op step ra rd h a = record {
  steps = step ∷ a.steps;
  allowed = rw a.allowed refl;
  same = λ quiet. absurd (ground arith);
  blocked = λ _. (_, refl);
}

-- Two lists of steps that may fail, among others that drop nothing.
abbrev pub joined :
    List MigrationStep
    → List MigrationStep
    → Result DiffError (List MigrationStep)
    → Result DiffError (List MigrationStep)
    → Result DiffError (List MigrationStep)
joined us vs r q = do xs ← r; ys ← q; ok (us ++ xs ++ vs ++ ys)

any-joined :
    (us vs xs ys : List MigrationStep)
    → any is_drop us ≡ false
    → any is_drop vs ≡ false
    → any is_drop (us ++ xs ++ vs ++ ys) ≡ (any is_drop xs || any is_drop ys)
any-joined us vs xs ys hu hv =
    rw
      (
        any-append is_drop (us ++ xs ++ vs) ys,
        any-append is_drop (us ++ xs) vs,
        any-append is_drop us xs,
        hu,
        hv,
      )
      (ground arith)

Agree-joined :
    (us vs : List MigrationStep) (ra rd qa qd : Result DiffError (List MigrationStep))
    → any is_drop us ≡ false
    → any is_drop vs ≡ false
    → Agree ra rd
    → Agree qa qd
    → Agree (joined us vs ra qa) (joined us vs rd qd)
Agree-joined us vs ra rd qa qd hu hv a b =
    let split = any-joined us vs a.steps b.steps hu hv in
    record {
      steps = us ++ a.steps ++ vs ++ b.steps;
      allowed = rw (a.allowed, b.allowed) refl;
      same = λ quiet. rw (a.same (ground arith), b.same (ground arith)) refl;
      blocked = λ drops. elim (Bool-cases (any is_drop a.steps)) [
        | inl here ↦ let (e, stop) = a.blocked here in (e, rw stop refl)
        | inr quiet ↦ let (e, stop) = b.blocked (ground arith) in (e, rw (a.same quiet, stop) refl)
      ];
    }

dropped_columns-Agree :
    (desired : TableDefinition) (cols : List ColumnDefinition)
    → Agree
        (dropped_columns additive_only desired cols)
        (dropped_columns allow_destructive desired cols)
unfolding dropped_columns
dropped_columns-Agree desired [] = Agree-ok [] refl
dropped_columns-Agree desired (col ∷ cols) =
    let ih = dropped_columns-Agree desired cols in
    elim (Option-cases (find_column desired col.name)) [
      | inl gone ↦ rw (gone, dropped_columns) (Agree-guarded _ _ _ _ refl ih)
      | inr (found, kept) ↦ rw (kept, dropped_columns) ih
    ]

dropped_indexes-Agree :
    (actual desired : TableDefinition) (idxs : List IndexDefinition)
    → Agree
        (dropped_indexes additive_only actual desired idxs)
        (dropped_indexes allow_destructive actual desired idxs)
unfolding dropped_indexes
dropped_indexes-Agree actual desired [] = Agree-ok [] refl
dropped_indexes-Agree actual desired (idx ∷ idxs) =
    let ih = dropped_indexes-Agree actual desired idxs in
    elim (Option-cases (find_index desired idx.name)) [
      | inl gone ↦ rw (gone, dropped_indexes) (Agree-guarded _ _ _ _ refl ih)
      | inr (found, kept) ↦ rw (kept, dropped_indexes) ih
    ]

dropped_tables-Agree :
    (desired : DatabaseSchema) (tables : List TableDefinition)
    → Agree
        (dropped_tables additive_only desired tables)
        (dropped_tables allow_destructive desired tables)
unfolding dropped_tables
dropped_tables-Agree desired [] = Agree-ok [] refl
dropped_tables-Agree desired (table ∷ tables) =
    let ih = dropped_tables-Agree desired tables in
    elim (Option-cases (find_table desired table.name)) [
      | inl gone ↦ rw (gone, dropped_tables) (Agree-guarded _ _ _ _ refl ih)
      | inr (found, kept) ↦ rw (kept, dropped_tables) ih
    ]

new_columns_keep :
    (actual : TableDefinition) (name : String) (cols : List ColumnDefinition)
    → any is_drop (new_columns actual name cols) ≡ false
unfolding new_columns
new_columns_keep actual name [] = refl
new_columns_keep actual name (col ∷ cols) = ground (arith, new_columns_keep actual name cols)

new_indexes_keep :
    (actual : TableDefinition) (idxs : List IndexDefinition)
    → any is_drop (new_indexes actual idxs) ≡ false
unfolding new_indexes
new_indexes_keep actual [] = refl
new_indexes_keep actual (idx ∷ idxs) = ground (arith, new_indexes_keep actual idxs)

abbrev pub both :
    Result DiffError (List MigrationStep)
    → Result DiffError (List MigrationStep)
    → Result DiffError (List MigrationStep)
both r q = do xs ← r; ys ← q; ok (xs ++ ys)

both-joined : (r q : Result DiffError (List MigrationStep)) → joined [] [] r q ≡ both r q
both-joined (ok xs) (ok ys) = ap (λ l. ok (l ++ ys)) (append-nil xs)
both-joined (ok xs) (err e) = refl
both-joined (err e) q = refl

Agree-both :
    (ra rd qa qd : Result DiffError (List MigrationStep))
    → Agree ra rd
    → Agree qa qd
    → Agree (both ra qa) (both rd qd)
Agree-both ra rd qa qd a b =
    rw (← both-joined ra qa, ← both-joined rd qd) (Agree-joined [] [] ra rd qa qd refl refl a b)

diff_table-Agree :
    (actual : DatabaseSchema) (desired : TableDefinition)
    → Agree (diff_table additive_only actual desired) (diff_table allow_destructive actual desired)
unfolding diff_table
diff_table-Agree actual desired = elim (Option-cases (find_table actual desired.name)) [
  | inl fresh ↦ rw (fresh, diff_table) (Agree-ok (create_table desired ∷ []) refl)
  | inr (table, known) ↦
      rw (known, diff_table)
        (Agree-joined (new_columns table desired.name desired.columns)
          (new_indexes table desired.indexes) _ _ _ _
          (new_columns_keep table desired.name desired.columns)
          (new_indexes_keep table desired.indexes) (dropped_columns-Agree desired table.columns)
          (dropped_indexes-Agree table desired table.indexes))
]

diff_tables-Agree :
    (actual : DatabaseSchema) (tables : List TableDefinition)
    → Agree (diff_tables additive_only actual tables) (diff_tables allow_destructive actual tables)
unfolding diff_tables
diff_tables-Agree actual [] = Agree-ok [] refl
diff_tables-Agree actual (desired ∷ rest) =
    Agree-both _ _ _ _ (diff_table-Agree actual desired) (diff_tables-Agree actual rest)

-- Where drops are allowed there is always a list of steps. The additive policy gives the same list
-- if no step of it is a drop, and is an error if one is: it never plans a drop, and never leaves
-- one out silently.
pub compute_diff-Agree :
    (actual desired : DatabaseSchema)
    → Agree
        (compute_diff actual desired additive_only)
        (compute_diff actual desired allow_destructive)
unfolding compute_diff
compute_diff-Agree actual desired =
    Agree-both _ _ _ _ (diff_tables-Agree actual desired.tables)
      (dropped_tables-Agree desired actual.tables)

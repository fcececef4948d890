-- ===== src/Infrastructure/Migration/Planner.antt =====
-- The planner (infrastructure/src/persistence/migration/dynamic/planner.rs). Its twelve vectors are
-- a function of their names.
pub mod Order
use luminair_service_aws_dsq.Base.{
  ℕ, String, Bool, true, false, ◌||◌, List, [], ◌∷◌, ◌++◌, ◌==◌, nat_eq, string_eq, if◌then◌else◌,
}
use luminair_service_aws_dsq.Base.Text.{ends_with}
use luminair_service_aws_dsq.Infrastructure.Migration.Model.{
  TableKind, entity, published, link, TableDefinition,
}
use luminair_service_aws_dsq.Infrastructure.Migration.Diff.{
  MigrationStep, create_table, drop_table, add_column, drop_column, create_index, drop_index,
}

pub data Vector : Type 0 where
  drop_indexes drop_published_link_tables drop_draft_link_tables : Vector
  drop_published_tables drop_entity_tables drop_columns : Vector
  create_entity_tables create_published_tables create_draft_link_tables : Vector
  create_published_link_tables add_columns create_indexes : Vector

-- The place of a vector in the plan.
abbrev pub rank : Vector → ℕ
rank drop_indexes = 1
rank drop_published_link_tables = 2
rank drop_draft_link_tables = 3
rank drop_published_tables = 4
rank drop_entity_tables = 5
rank drop_columns = 6
rank create_entity_tables = 7
rank create_published_tables = 8
rank create_draft_link_tables = 9
rank create_published_link_tables = 10
rank add_columns = 11
rank create_indexes = 12

abbrev dropped_table : String → TableKind → Vector
dropped_table name link =
    if ends_with name "__published" then drop_published_link_tables else drop_draft_link_tables
dropped_table name published = drop_published_tables
dropped_table name entity = drop_entity_tables

abbrev created_table : String → TableKind → Vector
created_table name entity = create_entity_tables
created_table name published = create_published_tables
created_table name link =
    if ends_with name "__published" then create_published_link_tables else create_draft_link_tables

-- The `match step` of the loop's body.
unfoldable pub vector_of : MigrationStep → Vector
vector_of (drop_index _ _) = drop_indexes
vector_of (drop_table name kind) = dropped_table name kind
vector_of (drop_column _ _) = drop_columns
vector_of (create_table table) = created_table table.name table.kind
vector_of (add_column _ _) = add_columns
vector_of (create_index _) = create_indexes

-- `push` on one of the vectors.
unfoldable pub push : MigrationStep → (Vector → List MigrationStep) → Vector → List MigrationStep
push step vectors v = if rank (vector_of step) == rank v then vectors v ++ step ∷ [] else vectors v

unfoldable pub distribute :
    List MigrationStep → (Vector → List MigrationStep) → Vector → List MigrationStep
distribute [] vectors = vectors
distribute (step ∷ steps) vectors = distribute steps (push step vectors)

unfoldable pub plan_migrations : List MigrationStep → List MigrationStep
plan_migrations raw =
    let vectors = distribute raw (λ _. []) in
    vectors drop_indexes
    ++ vectors drop_published_link_tables
    ++ vectors drop_draft_link_tables
    ++ vectors drop_published_tables
    ++ vectors drop_entity_tables
    ++ vectors drop_columns
    ++ vectors create_entity_tables
    ++ vectors create_published_tables
    ++ vectors create_draft_link_tables
    ++ vectors create_published_link_tables
    ++ vectors add_columns
    ++ vectors create_indexes

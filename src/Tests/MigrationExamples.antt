-- ===== src/Tests/MigrationExamples.antt =====
-- The migration's theorems at concrete inputs.
use luminair_service_aws_dsq.Base.{true, false, none, List, [], ◌∷◌, ◌≡◌, ◌↔◌, ok, string_eq}
use luminair_service_aws_dsq.Infrastructure.Migration.Model.{
  text, uuid, entity, link, ColumnDefinition, IndexDefinition, TableDefinition, DatabaseSchema,
  new_table,
}
use luminair_service_aws_dsq.Infrastructure.Migration.Diff.{
  additive_only, allow_destructive, MigrationStep, create_table, create_index, drop_table,
  compute_diff,
}
use luminair_service_aws_dsq.Infrastructure.Migration.Diff.Policy.{Agree, compute_diff-Agree}
use luminair_service_aws_dsq.Infrastructure.Migration.Diff.Converged.{IsConverged}
use luminair_service_aws_dsq.Infrastructure.Migration.Diff.Detection.{compute_diff-nil_iff}
use luminair_service_aws_dsq.Infrastructure.Migration.Planner.{plan_migrations}
use luminair_service_aws_dsq.Infrastructure.Migration.Planner.Order.{of_phase, plan_is_stable}

abbrev id_column : ColumnDefinition
id_column = record {
  name = "id";
  data_type = uuid;
  nullable = false;
  is_primary_key = true;
  default_value = none;
  unique = true;
}

abbrev title_index : IndexDefinition
title_index = record {
  name = "idx_articles_title";
  table_name = "articles";
  columns = "title" ∷ [];
  unique = true;
}

abbrev articles : TableDefinition
articles = record (new_table "articles" entity false) {
  columns = id_column ∷ [];
  indexes = title_index ∷ [];
}

abbrev desired : DatabaseSchema
desired = record { tables = articles ∷ new_table "articles__tags_link" link false ∷ [] }

-- The same names, one column of another type, and the tables in another order.
abbrev actual : DatabaseSchema
actual = record {
  tables =
      new_table "articles__tags_link" link false
      ∷ record articles { columns = record id_column { data_type = text } ∷ [] }
      ∷ [];
}

abbrev outdated : DatabaseSchema
outdated = record { tables = new_table "posts" entity false ∷ [] }

compute_diff-Agree_example :
    Agree
      (compute_diff outdated desired additive_only)
      (compute_diff outdated desired allow_destructive)
compute_diff-Agree_example = compute_diff-Agree outdated desired

abbrev raw : List MigrationStep
raw =
    create_index title_index
    ∷ create_table (new_table "articles__tags_link" link false)
    ∷ create_table articles
    ∷ drop_table "posts" entity
    ∷ []

plan_is_stable_example : of_phase 7 (plan_migrations raw) ≡ of_phase 7 raw
plan_is_stable_example = plan_is_stable raw 7

compute_diff-nil_iff_example :
    (compute_diff actual desired additive_only ≡ ok []) ↔ IsConverged actual desired
compute_diff-nil_iff_example = compute_diff-nil_iff additive_only actual desired

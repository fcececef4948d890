-- ===== src/Infrastructure/Naming/Links.antt =====
-- The names of a link table (infrastructure/src/persistence/naming/provider.rs).
use Prim.Native.String.{◌++◌}
use luminair_service_aws_dsq.Base.{String}
use luminair_service_aws_dsq.Domain.Ids.{AttributeId}
use luminair_service_aws_dsq.Infrastructure.Naming.Sanitize.{kebab_to_snake}

pub record LinkTableNaming : Type 0 where
  pub table_name : String

abbrev pub new : String → AttributeId → LinkTableNaming
new owner_table owner_attr = record {
  table_name = owner_table ++ ("__" ++ (kebab_to_snake owner_attr ++ "_link"));
}

abbrev pub from_table_name : String → LinkTableNaming
from_table_name table_name = record { table_name = table_name }

abbrev pub published_table_name : LinkTableNaming → String
published_table_name naming = naming.table_name ++ "__published"

abbrev pub owner_unique_index_name : LinkTableNaming → String
owner_unique_index_name naming = "uq_" ++ (naming.table_name ++ "_owner")

abbrev pub target_index_name : LinkTableNaming → String
target_index_name naming = "idx_" ++ (naming.table_name ++ "_target")

abbrev pub owner_fk_name : LinkTableNaming → String
owner_fk_name naming = "fk_" ++ (naming.table_name ++ "_owner")

abbrev pub target_fk_name : LinkTableNaming → String
target_fk_name naming = "fk_" ++ (naming.table_name ++ "_target")

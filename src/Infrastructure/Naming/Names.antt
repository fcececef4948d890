-- ===== src/Infrastructure/Naming/Names.antt =====
-- The naming functions that the persistence code calls
-- (infrastructure/src/persistence/naming/mod.rs).
use Prim.Native.String.{◌++◌}
use luminair_service_aws_dsq.Base.{String, false}
use luminair_service_aws_dsq.Domain.Ids.{AttributeId}
use luminair_service_aws_dsq.Domain.Schema.{DocumentKind, DocumentType}
use luminair_service_aws_dsq.Infrastructure.Naming.Sanitize.{kebab_to_snake}
use luminair_service_aws_dsq.Infrastructure.Naming.Tables
use luminair_service_aws_dsq.Infrastructure.Naming.Links

unfoldable pub document_type_to_table_name : DocumentType → String
unfolding Tables.new
document_type_to_table_name doc_type = (Tables.new doc_type).table_name

unfoldable pub type_names_to_table_name : DocumentKind → (singular plural : String) → String
unfolding Tables.from_parts
type_names_to_table_name kind singular plural =
    (Tables.from_parts kind singular plural false).table_name

unfoldable pub published_table_name : String → String
published_table_name table_name = table_name ++ "__published"

unfoldable pub published_link_table_name : String → String
published_link_table_name link_table = link_table ++ "__published"

unfoldable pub attribute_to_column_name : AttributeId → String
attribute_to_column_name attr = kebab_to_snake attr

abbrev pub foreign_key_column_name : AttributeId → String
foreign_key_column_name attr = kebab_to_snake attr ++ "_id"

-- `link_table_name` and its alias `junction_table_name`
unfoldable pub link_table_name : String → AttributeId → String
link_table_name owner_table owner_attr = (Links.new owner_table owner_attr).table_name

abbrev pub index_name : (table column : String) → String
index_name table column = "idx_" ++ (table ++ ("_" ++ column))

abbrev pub link_owner_unique_index_name : String → String
link_owner_unique_index_name link_table =
    Links.owner_unique_index_name (Links.from_table_name link_table)

-- `link_target_index_name` and its alias `junction_target_index_name`
abbrev pub link_target_index_name : String → String
link_target_index_name link_table = Links.target_index_name (Links.from_table_name link_table)

abbrev pub published_fk_name : String → String
published_fk_name published_table = "fk_" ++ (published_table ++ "_id")

abbrev pub link_owner_fk_name : String → String
link_owner_fk_name link_table = Links.owner_fk_name (Links.from_table_name link_table)

abbrev pub link_target_fk_name : String → String
link_target_fk_name link_table = Links.target_fk_name (Links.from_table_name link_table)

-- ===== src/Infrastructure/Naming/Tables.antt =====
-- The names of the tables of a document type (infrastructure/src/persistence/naming/provider.rs).
use Prim.Native.String.{◌++◌}
use luminair_service_aws_dsq.Base.{String, Bool, Option, none, some, if◌then◌else◌}
use luminair_service_aws_dsq.Domain.Ids.{AttributeId}
use luminair_service_aws_dsq.Domain.Schema.{DocumentKind, collection, single_type, DocumentType}
use luminair_service_aws_dsq.Infrastructure.Naming.Sanitize.{kebab_to_snake}
use luminair_service_aws_dsq.Infrastructure.Naming.Links.{LinkTableNaming}
use luminair_service_aws_dsq.Infrastructure.Naming.Links

pub record DocumentTableNaming : Type 0 where
  pub doc_type : Option DocumentType
  pub table_name : String
  pub draft_and_publish : Bool

-- The `match` on the kind that both constructors make.
abbrev raw_name : DocumentKind → (singular plural : String) → String
raw_name collection singular plural = plural
raw_name single_type singular plural = singular

unfoldable pub new : DocumentType → DocumentTableNaming
new doc_type = record {
  doc_type = some doc_type;
  table_name =
      kebab_to_snake (raw_name doc_type.kind doc_type.info.singular_name doc_type.info.plural_name);
  draft_and_publish = doc_type.options.draft_and_publish;
}

unfoldable pub from_parts : DocumentKind → (singular plural : String) → Bool → DocumentTableNaming
from_parts kind singular plural draft_and_publish = record {
  doc_type = none;
  table_name = kebab_to_snake (raw_name kind singular plural);
  draft_and_publish = draft_and_publish;
}

unfoldable pub published_table_name : DocumentTableNaming → Option String
published_table_name naming =
    if naming.draft_and_publish then some (naming.table_name ++ "__published") else none

abbrev column_name : DocumentTableNaming → AttributeId → String
column_name naming attr = kebab_to_snake attr

abbrev pub foreign_key_column_name : DocumentTableNaming → AttributeId → String
foreign_key_column_name naming attr = kebab_to_snake attr ++ "_id"

abbrev pub link_table : DocumentTableNaming → AttributeId → LinkTableNaming
link_table naming attr = Links.new naming.table_name attr

abbrev pub index_name : DocumentTableNaming → String → String
index_name naming column = "idx_" ++ (naming.table_name ++ ("_" ++ column))

abbrev pub published_fk_name : DocumentTableNaming → Option String
published_fk_name naming = elim (published_table_name naming) [
  | none ↦ none
  | some pub_name ↦ some ("fk_" ++ (pub_name ++ "_id"))
]

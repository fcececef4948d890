-- ===== src/Infrastructure/Migration/Builder/Schema.antt =====
-- The loops of `build_desired_schema`
-- (infrastructure/src/persistence/migration/dynamic/builder.rs). `type_names` lists the keys of the map
-- of plural names in the order of the entries of the association list.
use luminair_service_aws_dsq.Base.{String, Option, none, some, List, [], ◌∷◌, ◌++◌, if◌then◌else◌}
use luminair_service_aws_dsq.Base.Map
use luminair_service_aws_dsq.Base.Text.{ends_with}
use luminair_service_aws_dsq.Domain.Schema.{DocumentType}
use luminair_service_aws_dsq.Domain.Registry.{SchemaRegistry, find_type_by_name}
use luminair_service_aws_dsq.Infrastructure.Migration.Model.{
  TableDefinition, DatabaseSchema, insert_table,
}
use luminair_service_aws_dsq.Infrastructure.Migration.Builder.Tables.{build_document_type_tables}

-- What the loop over the types has gathered.
pub record Gathered : Type 0 where
  pub schema : DatabaseSchema
  pub published_tables : List TableDefinition
  pub draft_links : List TableDefinition
  pub published_links : List TableDefinition

abbrev pub push_published : Gathered → Option TableDefinition → Gathered
push_published g none = g
push_published g (some t) = record g { published_tables = g.published_tables ++ t ∷ [] }

unfoldable pub push_links : Gathered → List TableDefinition → Gathered
push_links g [] = g
push_links g (link ∷ links) =
    if ends_with link.name "__published"
    then push_links (record g { published_links = g.published_links ++ link ∷ [] }) links
    else push_links (record g { draft_links = g.draft_links ++ link ∷ [] }) links

unfoldable pub gather_type : SchemaRegistry → Gathered → DocumentType → Gathered
gather_type registry g doc_type =
    let (entity, published, links) = build_document_type_tables doc_type registry in
    push_links (push_published (record g { schema = insert_table g.schema entity }) published) links

abbrev pub gather_found : SchemaRegistry → Gathered → Option DocumentType → Gathered
gather_found registry g none = g
gather_found registry g (some doc_type) = gather_type registry g doc_type

unfoldable pub gather : SchemaRegistry → Gathered → List String → Gathered
gather registry g [] = g
gather registry g (name ∷ names) =
    gather registry (gather_found registry g (find_type_by_name registry name)) names

unfoldable pub insert_tables : DatabaseSchema → List TableDefinition → DatabaseSchema
insert_tables schema [] = schema
insert_tables schema (t ∷ ts) = insert_tables (insert_table schema t) ts

abbrev pub nothing_gathered : Gathered
nothing_gathered = record {
  schema = record { tables = [] };
  published_tables = [];
  draft_links = [];
  published_links = [];
}

abbrev pub type_names : SchemaRegistry → List String
type_names registry = Map.keys registry.by_name

abbrev pub insert_groups : Gathered → DatabaseSchema
insert_groups g =
    insert_tables (insert_tables (insert_tables g.schema g.published_tables) g.draft_links)
      g.published_links

unfoldable pub build_desired_schema : SchemaRegistry → DatabaseSchema
build_desired_schema registry =
    insert_groups (gather registry nothing_gathered (type_names registry))

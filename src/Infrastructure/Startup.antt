-- ===== src/Infrastructure/Startup.antt =====
-- From the schema directory to the database's desired schema
-- (infrastructure/src/schema_loader/loader.rs, infrastructure/src/persistence/migration/dynamic/builder.rs).
use luminair_service_aws_dsq.Base.{String, ◌≡◌, ok, All, All-map, subst, sym, ap, ◌∙◌, string_eq}
use luminair_service_aws_dsq.Base.IndexSet
use luminair_service_aws_dsq.Domain.Ids.{Uuid}
use luminair_service_aws_dsq.Domain.Registry.{SchemaRegistry}
use luminair_service_aws_dsq.Domain.Registry.Lookup.{name_key, new-types}
use luminair_service_aws_dsq.Domain.Config.{SystemConfig}
use luminair_service_aws_dsq.Infrastructure.Json.{Numbers}
use luminair_service_aws_dsq.Infrastructure.Loader.Types.{Identifiers}
use luminair_service_aws_dsq.Infrastructure.Loader.Directory.{Files, load_schema_registry}
use luminair_service_aws_dsq.Infrastructure.Loader.Loaded.{load_schema_registry-IsLoaded}
use luminair_service_aws_dsq.Infrastructure.Migration.Builder.Schema.{build_desired_schema}
use luminair_service_aws_dsq.Infrastructure.Migration.Builder.References.{References}
use luminair_service_aws_dsq.Infrastructure.Migration.Builder.Closed.{LeadsToId}
use luminair_service_aws_dsq.Infrastructure.Migration.Builder.Resolved.{build_desired_schema-new}

-- Each foreign key of the desired schema references a table of it, whose column `id` is a primary key.
abbrev pub IsClosed : SchemaRegistry → Type 0
IsClosed registry = All (References (LeadsToId registry)) (build_desired_schema registry).tables

module _ (files : Files) (numbers : Numbers) (ids : Identifiers) (base : String)
    (fresh : Uuid) where
  -- Where a schema directory loads and the plural names of its types are distinct, each foreign key of
  -- the schema that is built for the loaded registry references a table of that schema, whose column
  -- `id` is a primary key.
  pub load_schema_registry-IsClosed :
      (loaded : SchemaRegistry × SystemConfig)
      → load_schema_registry files numbers ids base fresh ≡ ok loaded
      → IndexSet.HasDistinctKeys name_key loaded.0.types
      → IsClosed loaded.0
  load_schema_registry-IsClosed loaded h names =
      let l = load_schema_registry-IsLoaded files numbers ids base fresh loaded h in
      let same =
        ap (λ (r : SchemaRegistry). r.types) l.built ∙ new-types l.types l.relations l.distinct in
      subst IsClosed (sym l.built) (
        build_desired_schema-new l.types l.relations (
          l.distinct,
          subst (IndexSet.HasDistinctKeys name_key) same names,
          All-map (λ r ends. ends.1) l.relations l.ends,
        ))

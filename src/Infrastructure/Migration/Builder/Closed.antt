-- ===== src/Infrastructure/Migration/Builder/Closed.antt =====
-- The desired schema (infrastructure/src/persistence/migration/dynamic/builder.rs): where its foreign
-- keys lead.
use luminair_service_aws_dsq.Base.{
  String, true, some, List, [], ◌∷◌, ◌≡◌, ◌∙◌, refl, arith, All, All-map, inl, inr, string_eq,
}
use luminair_service_aws_dsq.Base.IndexSet.{All-get, contains-get}
use luminair_service_aws_dsq.Domain.Registry.{SchemaRegistry}
use luminair_service_aws_dsq.Infrastructure.Migration.Model.{
  TableDefinition, ForeignKeyDefinition, find_table, table_key,
}
use luminair_service_aws_dsq.Infrastructure.Migration.Builder.Schema.{
  Gathered, gather, insert_tables, insert_groups, nothing_gathered, type_names,
  build_desired_schema,
}
use luminair_service_aws_dsq.Infrastructure.Migration.Builder.Lookup.{
  has_table, insert_tables-has, insert_tables-find, insert_tables-All,
}
use luminair_service_aws_dsq.Infrastructure.Migration.Builder.References.{
  References, IsMet, IsServed, IsResolved, entity_table-References, published_table-References,
  link_tables-References,
}
use luminair_service_aws_dsq.Infrastructure.Migration.Builder.Gathering.{
  HasId, Everywhere, entity_table-HasId, published_table-HasId, gather-Everywhere,
  insert_groups-Everywhere, gather-serves, serves,
}

-- Groups that are inserted later do not hide a table of a type or of a mirror.
insert_groups-find :
    (g : Gathered) (name : String)
    → serves g name ≡ true
    → All HasId g.schema.tables
    → All HasId g.published_tables
    → (t : TableDefinition) × (find_table (insert_groups g) name ≡ some t) × HasId t
insert_groups-find g name served ids mirror_ids =
    let base = insert_tables g.schema g.published_tables in
    let with_drafts = insert_tables base g.draft_links in
    let in_base : has_table base name ≡ true =
      ground (arith, insert_tables-has name g.schema g.published_tables) in
    let in_drafts : has_table with_drafts name ≡ true =
      ground (arith, insert_tables-has name base g.draft_links) in
    let (t, found) = contains-get table_key base.tables name in_base in
    (
      t,
      insert_tables-find name with_drafts g.published_links in_drafts
          ∙ (insert_tables-find name base g.draft_links in_base ∙ found),
      All-get table_key HasId base.tables name t
          (insert_tables-All HasId g.schema g.published_tables ids mirror_ids) found,
    )

all_unit : (ts : List TableDefinition) → All (λ _. Unit {0}) ts
all_unit [] = tt
all_unit (t ∷ ts) = (tt, all_unit ts)

module _ (registry : SchemaRegistry) where
  abbrev gathered : Gathered
  gathered = gather registry nothing_gathered (type_names registry)

  -- The name is that of a table of the desired schema with a key `id`.
  abbrev pub LeadsToId : String → Type 0
  LeadsToId name =
      (t : TableDefinition) × (find_table (build_desired_schema registry) name ≡ some t) × HasId t

  gathered-ids : Everywhere HasId (λ _. Unit) gathered
  gathered-ids =
      gather-Everywhere HasId (λ _. Unit) registry (type_names registry) nothing_gathered
        (λ name dt listed found. (entity_table-HasId dt, published_table-HasId dt, all_unit _))
        (tt, tt, tt, tt)

  IsServed-serves : (name : String) → IsServed registry name → serves gathered name ≡ true
  IsServed-serves name (dt, (n, listed, found), inl base) =
      gather-serves registry name (type_names registry) nothing_gathered n dt listed found
        (ground arith)
  IsServed-serves name (dt, (n, listed, found), inr (on, mirror)) =
      gather-serves registry name (type_names registry) nothing_gathered n dt listed found
        (ground arith)

  IsServed-LeadsToId : (name : String) → IsServed registry name → LeadsToId name
  unfolding build_desired_schema
  IsServed-LeadsToId name served =
      insert_groups-find gathered name (IsServed-serves name served) gathered-ids.0 gathered-ids.1

  gathered-References :
      IsResolved registry
      → Everywhere (References (IsServed registry)) (References (IsServed registry)) gathered
  gathered-References resolved =
      gather-Everywhere (References (IsServed registry)) (References (IsServed registry)) registry
        (type_names registry) nothing_gathered
        (λ name dt listed found.
          let met : IsMet registry dt = (name, listed, found) in
          (
            entity_table-References (IsServed registry) dt,
            published_table-References (IsServed registry) dt (dt, met, inl refl),
            link_tables-References registry dt met resolved,
          ))
        (tt, tt, tt, tt)

  -- Where every relation's target is a type that its plural name finds, each foreign key of the
  -- desired schema references a table of that schema, whose column `id` is a primary key.
  pub build_desired_schema-References :
      IsResolved registry → All (References LeadsToId) (build_desired_schema registry).tables
  unfolding build_desired_schema
  build_desired_schema-References resolved =
      All-map
        (λ t.
          All-map (λ (fk : ForeignKeyDefinition). IsServed-LeadsToId fk.referenced_table)
            t.foreign_keys)
        (insert_groups gathered).tables
        (insert_groups-Everywhere _ gathered (gathered-References resolved))

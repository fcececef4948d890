-- ===== src/Infrastructure/Migration/Builder/Resolved.antt =====
-- The registry that document types and relations make, as the desired schema reads it
-- (infrastructure/src/persistence/migration/dynamic/builder.rs, domain/src/schema/registry.rs).
use luminair_service_aws_dsq.Base.{
  true, none, some, List, [], ◌∷◌, ◌≡◌, ◌∙◌, String, refl, All, All-map, Option-cases, inl, inr,
  string_eq, arith,
}
use luminair_service_aws_dsq.Base.IndexSet
use luminair_service_aws_dsq.Base.Map
use luminair_service_aws_dsq.Base.IndexSet.{All-insert, contains-get, get-found}
use luminair_service_aws_dsq.Domain.Ids.{DocumentTypeId}
use luminair_service_aws_dsq.Domain.Schema.{DocumentType, Relation}
use luminair_service_aws_dsq.Domain.Registry.{
  SchemaRegistry, type_key, relation_key, add_type, add_types, add_relation, add_relations, empty,
  new, find_type_by_name,
}
use luminair_service_aws_dsq.Domain.Registry.Lookup.{name_key, find_type-new, find_type_by_name-new}
use luminair_service_aws_dsq.Infrastructure.Migration.Builder.Schema.{build_desired_schema}
use luminair_service_aws_dsq.Infrastructure.Migration.Builder.References.{
  References, IsMet, IsTarget, IsResolved,
}
use luminair_service_aws_dsq.Infrastructure.Migration.Builder.Closed.{
  LeadsToId, build_desired_schema-References,
}

find_unnamed :
    (reg : SchemaRegistry) (name : String)
    → Map.get reg.by_name name ≡ none
    → find_type_by_name reg name ≡ none
unfolding find_type_by_name
find_unnamed reg name h = rw (h, find_type_by_name) refl

find_type_by_name-IsMet :
    (reg : SchemaRegistry) (dt : DocumentType)
    → find_type_by_name reg dt.info.plural_name ≡ some dt
    → IsMet reg dt
find_type_by_name-IsMet reg dt h = elim (Option-cases (Map.get reg.by_name dt.info.plural_name)) [
  | inl absent ↦ absurd (ground (arith, find_unnamed reg dt.info.plural_name absent))
  | inr (id, named) ↦ (dt.info.plural_name, Map.get-keys reg.by_name _ id named, h)
]

add_types-relations :
    (reg : SchemaRegistry) (dts : List DocumentType) → (add_types reg dts).relations ≡ reg.relations
unfolding add_types
add_types-relations reg [] = refl
add_types-relations reg (dt ∷ dts) = add_types-relations (add_type reg dt) dts

add_relations-All :
    (P : Relation → Type 0) (reg : SchemaRegistry) (rs : List Relation)
    → All P reg.relations
    → All P rs
    → All P (add_relations reg rs).relations
unfolding add_relations
add_relations-All P reg [] hs _ = hs
add_relations-All P reg (r ∷ rs) hs (h, rest) =
    add_relations-All P (add_relation reg r) rs (All-insert relation_key P reg.relations r hs h)
      rest

module _ (types : List DocumentType) (relations : List Relation) where
  -- Identifiers and plural names are distinct, and the target of every relation is one of the types.
  abbrev pub IsConsistent : Type 0
  IsConsistent =
      IndexSet.HasDistinctKeys type_key types
      × IndexSet.HasDistinctKeys name_key types
      × All (λ (r : Relation). IndexSet.contains type_key types r.target_type ≡ true) relations

  contains-IsTarget :
      IndexSet.HasDistinctKeys type_key types
      → IndexSet.HasDistinctKeys name_key types
      → (id : DocumentTypeId) → IndexSet.contains type_key types id ≡ true
      → IsTarget (new types relations) id
  contains-IsTarget ids names id h =
      let (dt, found) = contains-get type_key types id h in
      (
        dt,
        find_type-new types relations id ∙ found,
        find_type_by_name-IsMet (new types relations) dt (
            find_type_by_name-new types relations dt.info.plural_name ids names
            ∙ get-found type_key name_key types id dt names found),
      )

  new-IsResolved : IsConsistent → IsResolved (new types relations)
  unfolding new
  new-IsResolved (ids, names, targets) =
      add_relations-All (λ r. IsTarget (new types relations) r.target_type) (add_types empty types)
        relations (rw (add_types-relations empty types) tt)
        (All-map (λ r. contains-IsTarget ids names r.target_type) relations targets)

  -- Where identifiers and plural names are distinct and every relation's target is one of the types,
  -- each foreign key of the schema that is built for them references a table of that schema, whose
  -- column `id` is a primary key.
  pub build_desired_schema-new :
      IsConsistent
      → All
          (References (LeadsToId (new types relations)))
          (build_desired_schema (new types relations)).tables
  build_desired_schema-new consistent =
      build_desired_schema-References (new types relations) (new-IsResolved consistent)

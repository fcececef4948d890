-- ===== src/Infrastructure/Migration/Builder/References.antt =====
-- The tables that the foreign keys of one document type's tables reference
-- (infrastructure/src/persistence/migration/dynamic/builder.rs).
use mathlib.Core.Option.{some-injective, none-ne-some}
use luminair_service_aws_dsq.Base.{
  String, true, some, List, [], ◌∷◌, ◌≡◌, ◌⊎◌, refl, subst, All, All-append, All-filter_map, inl,
  inr, Option-cases, if-holds, contains, string_eq, ◌==◌,
}
use luminair_service_aws_dsq.Base.IndexSet.{All-insert}
use luminair_service_aws_dsq.Domain.Ids.{DocumentTypeId, AttributeId}
use luminair_service_aws_dsq.Domain.Schema.{
  DocumentType, OwnerRelationKind, Relation, RelationView, owner_side, inverse_side, unidirectional,
  view_for, inverse_kind,
}
use luminair_service_aws_dsq.Domain.Registry.{
  SchemaRegistry, find_type, find_type_by_name, find_relations_for,
}
use luminair_service_aws_dsq.Infrastructure.Naming.Names.{
  document_type_to_table_name, published_table_name, link_table_name,
}
use luminair_service_aws_dsq.Infrastructure.Migration.Model.{
  TableDefinition, ColumnDefinition, IndexDefinition, ForeignKeyDefinition,
}
use luminair_service_aws_dsq.Infrastructure.Migration.Builder.Columns.{
  add_column, add_index, foreign_key_key,
}
use luminair_service_aws_dsq.Infrastructure.Migration.Builder.Tables.{
  entity_table, published_base, published_table, link_table, owned_links, links_of_view,
  links_of_views, link_tables, published_target_name,
}
use luminair_service_aws_dsq.Infrastructure.Migration.Builder.Frame.{
  entity_table-keep, published_base-keep, add_columns-keep, add_owner_index-keep,
}
use luminair_service_aws_dsq.Infrastructure.Migration.Builder.Schema.{type_names}

abbrev foreign_keys_of : TableDefinition → List ForeignKeyDefinition
foreign_keys_of t = t.foreign_keys

-- Columns and indexes leave the foreign keys alone.
keeps_column :
    (t : TableDefinition) (c : ColumnDefinition)
    → foreign_keys_of (add_column t c) ≡ foreign_keys_of t
keeps_column t c = refl

keeps_index :
    (t : TableDefinition) (i : IndexDefinition)
    → foreign_keys_of (add_index t i) ≡ foreign_keys_of t
keeps_index t i = refl

-- The predicate of a foreign key that its table is served, and of a table that all its keys' are.
module _ (IsServedName : String → Type 0) where
  abbrev pub References : TableDefinition → Type 0
  References t =
      All (λ (fk : ForeignKeyDefinition). IsServedName fk.referenced_table) t.foreign_keys

  abbrev IsServedKey : ForeignKeyDefinition → Type 0
  IsServedKey fk = IsServedName fk.referenced_table

  pub entity_table-References : (dt : DocumentType) → References (entity_table dt)
  entity_table-References dt = rw (entity_table-keep foreign_keys_of keeps_column keeps_index dt) tt

  pub published_table-References :
      (dt : DocumentType)
      → IsServedName (document_type_to_table_name dt)
      → References (published_table dt)
  unfolding published_table
  published_table-References dt h =
      All-insert foreign_key_key IsServedKey (published_base dt).foreign_keys _
        (rw (published_base-keep foreign_keys_of keeps_column keeps_index dt) tt) h

  link_table-References :
      (link owner target : String) (kind : OwnerRelationKind)
      → IsServedName owner
      → IsServedName target
      → References (link_table link owner target kind)
  unfolding link_table
  link_table-References link owner target kind ho ht =
      rw
        (
          add_owner_index-keep foreign_keys_of keeps_column keeps_index link kind _,
          add_columns-keep foreign_keys_of keeps_column keeps_index _ _,
        )
        (All-insert foreign_key_key IsServedKey _ _
          (All-insert foreign_key_key IsServedKey [] _ tt ho) ht)

-- A table of the schema that is built: that of a type which the loop meets, or its mirror.
module _ (registry : SchemaRegistry) where
  -- The loop meets the type.
  abbrev pub IsMet : DocumentType → Type 0
  IsMet dt =
      (name : String) × (contains (type_names registry) name ≡ true)
      × (find_type_by_name registry name ≡ some dt)

  abbrev pub IsServed : String → Type 0
  IsServed name =
      (dt : DocumentType) × IsMet dt
      × ((name ≡ document_type_to_table_name dt)
          ⊎ ((dt.options.draft_and_publish ≡ true)
              × (name ≡ published_table_name (document_type_to_table_name dt))))

  abbrev pub IsTarget : DocumentTypeId → Type 0
  IsTarget id = (dt : DocumentType) × (find_type registry id ≡ some dt) × IsMet dt

  abbrev HasTarget : RelationView → Type 0
  HasTarget (unidirectional _ _ target) = IsTarget target
  HasTarget (owner_side _ _ other) = IsTarget other
  HasTarget (inverse_side _ _ _) = Unit

  published_target-IsServed :
      (dt : DocumentType) (id : DocumentTypeId)
      → IsMet dt
      → IsServed (published_target_name id (some dt))
  published_target-IsServed dt id met =
      if-holds IsServed dt.options.draft_and_publish _ _
        (λ mirrored. (dt, met, inr (mirrored, refl))) (λ plain. (dt, met, inl refl))

  owned_links-References :
      (dt : DocumentType) (attr : AttributeId) (kind : OwnerRelationKind) (target : DocumentTypeId)
      → IsMet dt
      → IsTarget target
      → All (References IsServed) (owned_links registry dt attr kind target)
  unfolding owned_links
  owned_links-References dt attr kind target met (td, found, target_met) =
      let draft =
        link_table-References IsServed (link_table_name (document_type_to_table_name dt) attr)
          (document_type_to_table_name dt) (document_type_to_table_name td) kind (dt, met, inl refl)
          (td, target_met, inl refl) in
      rw found (
        if-holds (All (References IsServed)) dt.options.draft_and_publish _ _
          (λ mirrored. (
            draft,
            (
              link_table-References IsServed _ _ _ kind (dt, met, inr (mirrored, refl))
                  (published_target-IsServed td target target_met),
              tt,
            ),
          ))
          (λ plain. (draft, tt)))

  links_of_view-References :
      (dt : DocumentType) (view : RelationView)
      → IsMet dt
      → HasTarget view
      → All (References IsServed) (links_of_view registry dt view)
  unfolding links_of_view
  links_of_view-References dt (unidirectional attr kind target) met h =
      owned_links-References dt attr kind target met h
  links_of_view-References dt (owner_side attr kind other) met h =
      owned_links-References dt attr kind other met h
  links_of_view-References dt (inverse_side _ _ _) met h = tt

  links_of_views-References :
      (dt : DocumentType) (views : List RelationView)
      → IsMet dt
      → All HasTarget views
      → All (References IsServed) (links_of_views registry dt views)
  unfolding links_of_views
  links_of_views-References dt [] met _ = tt
  links_of_views-References dt (view ∷ views) met (h, hs) =
      All-append (References IsServed) (links_of_view registry dt view)
        (links_of_views registry dt views) (links_of_view-References dt view met h)
        (links_of_views-References dt views met hs)

  view_for-HasTarget :
      (r : Relation) (id : DocumentTypeId) (view : RelationView)
      → IsTarget r.target_type
      → view_for r id ≡ some view
      → HasTarget view
  unfolding view_for
  view_for-HasTarget r id view h =
      if-holds (λ o. o ≡ some view → HasTarget view) (id == r.owner_type) _ _
        (λ owns. elim (Option-cases r.inverse) [
          | inl one_way ↦ rw one_way (λ eq. subst HasTarget (some-injective _ _ eq) h)
          | inr (inv, both) ↦ rw both (λ eq. subst HasTarget (some-injective _ _ eq) h)
        ])
        (λ other.
          if-holds (λ o. o ≡ some view → HasTarget view) (id == r.target_type) _ _
            (λ targeted. elim (Option-cases r.inverse) [
              | inl one_way ↦ rw one_way (λ eq. absurd (none-ne-some view eq))
              | inr (inv, both) ↦ rw both (elim (Option-cases (inverse_kind r)) [
                | inl hidden ↦ rw hidden (λ eq. absurd (none-ne-some view eq))
                | inr (kind, known) ↦ rw known (λ eq. subst HasTarget (some-injective _ _ eq) tt)
              ])
            ])
            (λ unrelated eq. absurd (none-ne-some view eq)))

  -- Every relation's target is met.
  abbrev pub IsResolved : Type 0
  IsResolved = All (λ (r : Relation). IsTarget r.target_type) registry.relations

  pub link_tables-References :
      (dt : DocumentType)
      → IsMet dt
      → IsResolved
      → All (References IsServed) (link_tables registry dt)
  unfolding link_tables find_relations_for
  link_tables-References dt met resolved = links_of_views-References dt _ met (
      All-filter_map (λ r. view_for r dt.id) (λ r view. view_for-HasTarget r dt.id view)
        registry.relations resolved)

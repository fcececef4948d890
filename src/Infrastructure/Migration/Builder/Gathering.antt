-- ===== src/Infrastructure/Migration/Builder/Gathering.antt =====
-- What the loop over the types gathers (infrastructure/src/persistence/migration/dynamic/builder.rs).
use mathlib.Core.Option.{some-injective, none-ne-some}
use luminair_service_aws_dsq.Base.{
  String, Bool, true, Option, none, some, List, [], ◌∷◌, subst, ◌≡◌, ◌∙◌, ◌||◌, ◌&&◌, refl, ap,
  arith, All, All-append, inl, inr, Bool-cases, if-holds, contains, string_eq, ◌==◌,
}
use luminair_service_aws_dsq.Base.IndexSet
use luminair_service_aws_dsq.Base.IndexSet.{All-insert, All-get, contains-get, get-insert}
use luminair_service_aws_dsq.Base.Text.{ends_with}
use luminair_service_aws_dsq.Domain.Schema.{DocumentType}
use luminair_service_aws_dsq.Domain.Registry.{SchemaRegistry, find_type_by_name}
use luminair_service_aws_dsq.Infrastructure.Naming.Names.{
  document_type_to_table_name, published_table_name,
}
use luminair_service_aws_dsq.Infrastructure.Migration.Model.{
  TableDefinition, TableKind, DatabaseSchema, ColumnDefinition, find_column, table_key, column_key,
  insert_table, new_table,
}
use luminair_service_aws_dsq.Infrastructure.Migration.Builder.Columns.{
  add_column, add_columns, id_column,
}
use luminair_service_aws_dsq.Infrastructure.Migration.Builder.Tables.{
  entity_table, published_base, published_table, published_of, link_tables,
}
use luminair_service_aws_dsq.Infrastructure.Migration.Builder.Schema.{
  Gathered, push_published, push_links, gather_type, gather_found, gather, insert_groups,
}
use luminair_service_aws_dsq.Infrastructure.Migration.Builder.Frame.{
  entity_table-keep, published_base-keep,
}
use luminair_service_aws_dsq.Infrastructure.Migration.Builder.Lookup.{
  add_columns-find, add_singleton-find, add_fields-find, has_table, insert_table-has,
  insert_tables-All,
}

-- The table can be referenced: its column `id` is the key of type `uuid`.
abbrev pub HasId : TableDefinition → Type 0
HasId t = find_column t "id" ≡ some id_column

add_columns-HasId :
    (name : String) (kind : TableKind) (single : Bool) (cs : List ColumnDefinition)
    → HasId (add_columns (new_table name kind single) (id_column ∷ cs))
unfolding add_columns
add_columns-HasId name kind single cs =
    add_columns-find "id" id_column (add_column (new_table name kind single) id_column) cs
      (ground (arith, get-insert column_key [] id_column "id"))

pub entity_table-HasId : (dt : DocumentType) → HasId (entity_table dt)
unfolding entity_table
entity_table-HasId dt =
    add_fields-find "id" id_column _ _ dt.fields
      (add_singleton-find "id" id_column _ _ _ (add_columns-HasId _ _ _ _))

pub published_table-HasId : (dt : DocumentType) → HasId (published_table dt)
unfolding published_table published_base
published_table-HasId dt =
    add_fields-find "id" id_column _ _ dt.fields
      (add_singleton-find "id" id_column _ _ _ (add_columns-HasId _ _ _ _))

entity_table-name : (dt : DocumentType) → (entity_table dt).name ≡ document_type_to_table_name dt
entity_table-name dt = entity_table-keep table_key (λ t c. refl) (λ t i. refl) dt

published_table-name :
    (dt : DocumentType)
    → (published_table dt).name ≡ published_table_name (document_type_to_table_name dt)
unfolding published_table
published_table-name dt = published_base-keep table_key (λ t c. refl) (λ t i. refl) dt

-- Link tables are gathered beside the others.
push_links-schema : (g : Gathered) (ls : List TableDefinition) → (push_links g ls).schema ≡ g.schema
unfolding push_links
push_links-schema g [] = refl
push_links-schema g (l ∷ ls) =
    if-holds (λ (r : Gathered). r.schema ≡ g.schema) (ends_with l.name "__published") _ _
      (λ _. push_links-schema _ ls) (λ _. push_links-schema _ ls)

push_links-published_tables :
    (g : Gathered) (ls : List TableDefinition)
    → (push_links g ls).published_tables ≡ g.published_tables
unfolding push_links
push_links-published_tables g [] = refl
push_links-published_tables g (l ∷ ls) =
    if-holds (λ (r : Gathered). r.published_tables ≡ g.published_tables)
      (ends_with l.name "__published") _ _ (λ _. push_links-published_tables _ ls)
      (λ _. push_links-published_tables _ ls)

-- What holds of the tables of types and of mirrors, and of link tables.
module _ (P Q : TableDefinition → Type 0) where
  abbrev pub Everywhere : Gathered → Type 0
  Everywhere g =
      All P g.schema.tables
      × All P g.published_tables
      × All Q g.draft_links
      × All Q g.published_links

  push_links-Everywhere :
      (ls : List TableDefinition) (g : Gathered)
      → Everywhere g
      → All Q ls
      → Everywhere (push_links g ls)
  unfolding push_links
  push_links-Everywhere [] g h _ = h
  push_links-Everywhere (l ∷ ls) g (hs, hp, hd, hl) (h, rest) =
      if-holds Everywhere (ends_with l.name "__published") _ _
        (λ _. push_links-Everywhere ls _ (hs, hp, hd, All-append Q _ (l ∷ []) hl (h, tt)) rest)
        (λ _. push_links-Everywhere ls _ (hs, hp, All-append Q _ (l ∷ []) hd (h, tt), hl) rest)

  push_published-Everywhere :
      (o : Option TableDefinition) (g : Gathered)
      → ((t : TableDefinition) → o ≡ some t → P t)
      → Everywhere g
      → Everywhere (push_published g o)
  push_published-Everywhere none g _ h = h
  push_published-Everywhere (some t) g hp (hs, ps, ds, ls) =
      (hs, All-append P _ (t ∷ []) ps (hp t refl, tt), ds, ls)

  published_of-all :
      (dt : DocumentType)
      → P (published_table dt)
      → (t : TableDefinition) → published_of dt ≡ some t
      → P t
  unfolding published_of
  published_of-all dt h t =
      if-holds (λ o. o ≡ some t → P t) dt.options.draft_and_publish _ _
        (λ _ eq. subst P (some-injective _ _ eq) h) (λ _ eq. absurd (none-ne-some t eq))

  gather_type-Everywhere :
      (registry : SchemaRegistry) (g : Gathered) (dt : DocumentType)
      → P (entity_table dt)
      → P (published_table dt)
      → All Q (link_tables registry dt)
      → Everywhere g
      → Everywhere (gather_type registry g dt)
  unfolding gather_type
  gather_type-Everywhere registry g dt he hp hl (hs, ps, ds, ls) =
      push_links-Everywhere (link_tables registry dt) _
        (push_published-Everywhere (published_of dt) _ (published_of-all dt hp)
          (All-insert table_key P g.schema.tables (entity_table dt) hs he, ps, ds, ls))
        hl

  -- The types that the loop meets decide.
  abbrev pub IsGood : SchemaRegistry → DocumentType → Type 0
  IsGood registry dt =
      P (entity_table dt) × P (published_table dt) × All Q (link_tables registry dt)

  gather_found-Everywhere :
      (registry : SchemaRegistry) (g : Gathered) (o : Option DocumentType)
      → ((dt : DocumentType) → o ≡ some dt → IsGood registry dt)
      → Everywhere g
      → Everywhere (gather_found registry g o)
  gather_found-Everywhere registry g none good h = h
  gather_found-Everywhere registry g (some dt) good h =
      let (he, hp, hl) = good dt refl in gather_type-Everywhere registry g dt he hp hl h

  pub gather-Everywhere :
      (registry : SchemaRegistry) (names : List String) (g : Gathered)
      → ((name : String) (dt : DocumentType)
          → contains names name ≡ true
          → find_type_by_name registry name ≡ some dt
          → IsGood registry dt)
      → Everywhere g
      → Everywhere (gather registry g names)
  unfolding gather
  gather-Everywhere registry [] g good h = h
  gather-Everywhere registry (name ∷ names) g good h =
      gather-Everywhere registry names _ (λ n dt listed. good n dt (ground arith))
        (gather_found-Everywhere registry g (find_type_by_name registry name)
          (λ dt. good name dt (ground arith)) h)

-- The insertions in the end.
pub insert_groups-Everywhere :
    (P : TableDefinition → Type 0) (g : Gathered)
    → Everywhere P P g
    → All P (insert_groups g).tables
insert_groups-Everywhere P g (hs, ps, ds, ls) =
    insert_tables-All P _ g.published_links
      (insert_tables-All P _ g.draft_links (insert_tables-All P g.schema g.published_tables hs ps)
        ds)
      ls

-- The names of the tables of types and of mirrors.
abbrev pub serves : Gathered → String → Bool
serves g name = has_table g.schema name || IndexSet.contains table_key g.published_tables name

abbrev pub mirrors : DocumentType → String → Bool
mirrors dt name =
    dt.options.draft_and_publish && name == published_table_name (document_type_to_table_name dt)

push_published-serves :
    (g : Gathered) (dt : DocumentType) (name : String)
    → serves (push_published g (published_of dt)) name ≡ (serves g name || mirrors dt name)
unfolding published_of
push_published-serves g dt name =
    if-holds (λ o. serves (push_published g o) name ≡ (serves g name || mirrors dt name))
      dt.options.draft_and_publish _ _
      (λ on. ground (
        arith,
        published_table-name dt,
        IndexSet.contains-append table_key g.published_tables (published_table dt ∷ []) name,
      ))
      (λ off. ground arith)

gather_type-serves :
    (registry : SchemaRegistry) (g : Gathered) (dt : DocumentType) (name : String)
    → serves (gather_type registry g dt) name
      ≡ ((serves g name || name == document_type_to_table_name dt) || mirrors dt name)
unfolding gather_type
gather_type-serves registry g dt name =
    let grown = record g { schema = insert_table g.schema (entity_table dt) } in
    let linked = push_published grown (published_of dt) in
    ground (
      arith,
      entity_table-name dt,
      insert_table-has name g.schema (entity_table dt),
      push_published-serves grown dt name,
      ap (λ (d : DatabaseSchema). has_table d name)
          (push_links-schema linked (link_tables registry dt)),
      ap (λ ts. IndexSet.contains table_key ts name)
          (push_links-published_tables linked (link_tables registry dt)),
    )

module _ (registry : SchemaRegistry) (name : String) where
  -- What is served stays served.
  gather-serves_old :
      (names : List String) (g : Gathered)
      → serves g name ≡ true
      → serves (gather registry g names) name ≡ true
  unfolding gather
  gather-serves_old [] g h = h
  gather-serves_old (n ∷ names) g h =
      gather-serves_old names _ (found_old (find_type_by_name registry n))
    where
      found_old : (o : Option DocumentType) → serves (gather_found registry g o) name ≡ true
      found_old none = h
      found_old (some dt) = ground (arith, gather_type-serves registry g dt name)

  -- The loop serves the names of the types that it meets.
  pub gather-serves :
      (names : List String) (g : Gathered) (n : String) (dt : DocumentType)
      → contains names n ≡ true
      → find_type_by_name registry n ≡ some dt
      → (name == document_type_to_table_name dt || mirrors dt name) ≡ true
      → serves (gather registry g names) name ≡ true
  unfolding gather
  gather-serves [] g n dt listed found h = ground arith
  gather-serves (m ∷ names) g n dt listed found h = elim (Bool-cases (n == m)) [
    | inl here ↦
        let same : m ≡ n = ground arith in
        gather-serves_old names _ (
          rw (ap (find_type_by_name registry) same ∙ found)
            (ground (arith, gather_type-serves registry g dt name)))
    | inr later ↦ gather-serves names _ n dt (ground arith) found h
  ]

-- ===== src/Domain/Registry/Lookup.antt =====
-- What the registry's lookups find in the lists that it was built from.
use mathlib.Core.List.{append-nil, append_assoc}
use luminair_service_aws_dsq.Base.{
  String, Option, none, some, List, [], ◌∷◌, ◌++◌, All, sym, false, if-holds, ◌≡◌, ◌≢◌, refl, ap,
  ◌∙◌, ◌⊎◌, inl, inr, ◌==◌, string_eq, option_eq, if◌then◌else◌, Bool-cases, Option-cases, arith,
  or_else,
}
use luminair_service_aws_dsq.Base.Map
use luminair_service_aws_dsq.Base.IndexSet
use luminair_service_aws_dsq.Domain.Ids.{DocumentTypeId}
use luminair_service_aws_dsq.Domain.Schema.{
  DocumentType, Relation, RelationView, owner_side, inverse_side, unidirectional, view_for,
  inverse_kind,
}
use luminair_service_aws_dsq.Domain.Registry.{
  SchemaRegistry, type_key, add_type, add_types, add_relation, add_relations, empty, new, find_type,
  find_type_by_name, inverse_attr_of,
}

abbrev pub name_key : DocumentType → String
name_key dt = dt.info.plural_name

get-add_types :
    (reg : SchemaRegistry) (dts : List DocumentType) (k : DocumentTypeId)
    → IndexSet.get type_key (add_types reg dts).types k ≡ (
        if IndexSet.contains type_key reg.types k
        then IndexSet.get type_key reg.types k
        else IndexSet.get type_key dts k)
unfolding add_types IndexSet.get
get-add_types reg [] k = ground (arith, IndexSet.get-none_iff type_key reg.types k)
get-add_types reg (dt ∷ dts) k = ground (
  arith,
  get-add_types (add_type reg dt) dts k,
  IndexSet.get-insert type_key reg.types dt k,
  IndexSet.contains-insert type_key reg.types dt k,
)

-- The identifier of the last type with the name.
last_named : String → List DocumentType → Option DocumentTypeId
last_named name [] = none
last_named name (dt ∷ dts) = elim (last_named name dts) [
  | none ↦ if name == dt.info.plural_name then some dt.id else none
  | some id ↦ some id
]

or_else-none : (o : Option DocumentTypeId) → or_else o none ≡ o
or_else-none none = refl
or_else-none (some id) = refl

get-by_name :
    (reg : SchemaRegistry) (dts : List DocumentType) (name : String)
    → Map.get (add_types reg dts).by_name name
      ≡ or_else (last_named name dts) (Map.get reg.by_name name)
unfolding add_types last_named
get-by_name reg [] name = refl
get-by_name reg (dt ∷ dts) name = ground (
  arith,
  get-by_name (add_type reg dt) dts name,
  Map.get-insert reg.by_name dt.info.plural_name name dt.id,
)

add_relations-types :
    (reg : SchemaRegistry) (rs : List Relation)
    → ((add_relations reg rs).types ≡ reg.types) × ((add_relations reg rs).by_name ≡ reg.by_name)
unfolding add_relations
add_relations-types reg [] = (refl, refl)
add_relations-types reg (r ∷ rs) = add_relations-types (add_relation reg r) rs

abbrev name_id : Option DocumentType → Option DocumentTypeId
name_id none = none
name_id (some dt) = some dt.id

last_named-get :
    (dts : List DocumentType) (name : String)
    → IndexSet.HasDistinctKeys name_key dts
    → last_named name dts ≡ name_id (IndexSet.get name_key dts name)
unfolding last_named IndexSet.get
last_named-get [] name _ = refl
last_named-get (dt ∷ dts) name (fresh, u) =
    ground (arith, last_named-get dts name u, IndexSet.get-none_iff name_key dts name)

-- No type of the list is in the registry yet.
abbrev AreNew : SchemaRegistry → List DocumentType → Type 0
AreNew reg dts = All (λ dt. IndexSet.contains type_key reg.types (type_key dt) ≡ false) dts

add_type-AreNew :
    (reg : SchemaRegistry) (dt : DocumentType) (dts : List DocumentType)
    → IndexSet.contains type_key dts dt.id ≡ false
    → AreNew reg dts
    → AreNew (add_type reg dt) dts
add_type-AreNew reg dt [] _ _ = tt
add_type-AreNew reg dt (x ∷ xs) alone (h, hs) = (
  ground (arith, IndexSet.contains-insert type_key reg.types dt x.id),
  add_type-AreNew reg dt xs (ground arith) hs,
)

add_types-types :
    (reg : SchemaRegistry) (dts : List DocumentType)
    → IndexSet.HasDistinctKeys type_key dts
    → AreNew reg dts
    → (add_types reg dts).types ≡ reg.types ++ dts
unfolding add_types IndexSet.insert
add_types-types reg [] _ _ = sym (append-nil reg.types)
add_types-types reg (dt ∷ dts) (alone, distinct) (fresh, rest) =
    add_types-types (add_type reg dt) dts distinct (add_type-AreNew reg dt dts alone rest)
    ∙ if-holds (λ types. types ++ dts ≡ reg.types ++ dt ∷ dts)
        (IndexSet.contains type_key reg.types dt.id) _ _
        (λ old. absurd (ground (arith, old, fresh))) (λ _. append_assoc reg.types (dt ∷ []) dts)

all_new : (dts : List DocumentType) → AreNew empty dts
all_new [] = tt
all_new (dt ∷ dts) = (refl, all_new dts)

-- The registry has the types that it was built from, where their identifiers are distinct.
pub new-types :
    (types : List DocumentType) (relations : List Relation)
    → IndexSet.HasDistinctKeys type_key types
    → (new types relations).types ≡ types
unfolding new
new-types types relations distinct =
    (add_relations-types (add_types empty types) relations).0
    ∙ add_types-types empty types distinct (all_new types)

-- A type is found by its identifier: the first of the list that the registry was built from.
pub find_type-new :
    (types : List DocumentType) (relations : List Relation) (id : DocumentTypeId)
    → find_type (new types relations) id ≡ IndexSet.get type_key types id
unfolding find_type new
find_type-new types relations id =
    rw ((add_relations-types (add_types empty types) relations).0) (get-add_types empty types id)

-- Where identifiers and plural names are distinct, the lookup by name is the search for the plural
-- name.
pub find_type_by_name-new :
    (types : List DocumentType) (relations : List Relation) (name : String)
    → IndexSet.HasDistinctKeys type_key types
    → IndexSet.HasDistinctKeys name_key types
    → find_type_by_name (new types relations) name ≡ IndexSet.get name_key types name
unfolding find_type_by_name new
find_type_by_name-new types relations name ids names =
    let built = add_types empty types in
    let (same_types, same_names) = add_relations-types built relations in
    let nothing : Map.get empty.by_name name ≡ none = unfold Map.get in refl in
    let by_name : Map.get (new types relations).by_name name ≡ last_named name types =
      ap (λ m. Map.get m name) same_names
      ∙ get-by_name empty types name
      ∙ rw nothing (or_else-none (last_named name types)) in
    let by_id : (id : DocumentTypeId)
        → IndexSet.get type_key (new types relations).types id ≡ IndexSet.get type_key types id =
      λ id. ap (λ l. IndexSet.get type_key l id) same_types ∙ get-add_types empty types id in
    rw (by_name, last_named-get types name names, find_type_by_name)
      (elim (Option-cases (IndexSet.get name_key types name)) [
        | inl absent ↦ rw absent
        | inr (dt, found) ↦
            rw found (by_id dt.id ∙ IndexSet.get-found name_key type_key types name dt ids found)
      ])

-- What `view_for` must show of a relation to one of the document types.
abbrev pub ViewOf : Relation → DocumentTypeId → Option RelationView → Type 0
ViewOf r t none = (t ≢ r.owner_type) × ((t ≢ r.target_type) ⊎ (r.inverse ≡ none))
ViewOf r t (some (owner_side attr kind other)) =
    (t ≡ r.owner_type)
    × (attr ≡ r.owner_attr)
    × (kind ≡ r.owner_kind)
    × (other ≡ r.target_type)
    × (r.inverse ≢ none)
ViewOf r t (some (unidirectional attr kind target)) =
    (t ≡ r.owner_type)
    × (attr ≡ r.owner_attr)
    × (kind ≡ r.owner_kind)
    × (target ≡ r.target_type)
    × (r.inverse ≡ none)
ViewOf r t (some (inverse_side attr kind other)) =
    (t ≢ r.owner_type)
    × (t ≡ r.target_type)
    × (inverse_attr_of r ≡ some attr)
    × (inverse_kind r ≡ some kind)
    × (other ≡ r.owner_type)

-- The owner sees its own side, also of a relation to itself; only another type sees the inverse
-- side, and only where the relation has one.
pub view_for-ViewOf : (r : Relation) (t : DocumentTypeId) → ViewOf r t (view_for r t)
unfolding view_for inverse_kind
view_for-ViewOf r t = elim (Bool-cases (t == r.owner_type)) [
  | inl own ↦ elim (Option-cases r.inverse) [
    | inl one_way ↦ rw (own, one_way) (ground arith)
    | inr (inv, two_way) ↦ rw (own, two_way) (ground arith)
  ]
  | inr foreign ↦ elim (Bool-cases (t == r.target_type)) [
    | inl target ↦ elim (Option-cases r.inverse) [
      | inl one_way ↦ rw (foreign, target, one_way) (ground arith)
      | inr (inv, two_way) ↦ rw (foreign, target, two_way) (ground arith)
    ]
    | inr other ↦ rw (foreign, other) (ground arith)
  ]
]

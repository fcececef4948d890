-- ===== src/Application/Enrich/Stitching.antt =====
-- What `enrich` attaches to each document: the related documents of its own row of the map.
use luminair_service_aws_dsq.Base.{
  true, ◌&&◌, Option, none, some, List, [], ◌∷◌, map, ◌≡◌, ◌≢◌, refl, ap, ◌∙◌, ◌==◌, nat_eq,
  string_eq, contains, IsNodup, All, if◌then◌else◌, Option-cases, inl, inr, arith,
}
use luminair_service_aws_dsq.Base.Map
use luminair_service_aws_dsq.Domain.Ids.{DocumentInstanceId, AttributeId}
use luminair_service_aws_dsq.Domain.Instance.{
  DocumentInstance, PopulatedInstance, with_populated_relations,
}
use luminair_service_aws_dsq.Application.Ports.{RelationMap}
use luminair_service_aws_dsq.Application.Enrich.{
  Populated, take_relation, take_relations, stitch, ids,
}

-- The documents that the map lists for an attribute of a document.
unfoldable pub items :
    RelationMap → AttributeId → DocumentInstanceId → Option (List DocumentInstance)
items rm attr id = elim (Map.get rm attr) [ none ↦ none | some by_parent ↦ Map.get by_parent id ]

abbrev or_else :
    Option (List DocumentInstance) → Option (List DocumentInstance) → Option (List DocumentInstance)
or_else none other = other
or_else (some x) other = some x

take_relation-get :
    (id : DocumentInstanceId) (attr b : AttributeId) (per : Populated) (rm : RelationMap)
    → Map.get (take_relation id attr (per, rm)).0 b
      ≡ (if b == attr then or_else (items rm b id) (Map.get per b) else Map.get per b)
unfolding take_relation items
take_relation-get id attr b per rm = elim (Option-cases (Map.get rm attr)) [
  | inl no_attr ↦ ground arith
  | inr (by_parent, has_attr) ↦ elim (Option-cases (Map.get by_parent id)) [
    | inl no_row ↦ ground arith
    | inr (list, has_row) ↦ ground (arith, Map.get-insert per attr b list)
  ]
]

take_relation-items :
    (id j : DocumentInstanceId) (attr b : AttributeId) (per : Populated) (rm : RelationMap)
    → items (take_relation id attr (per, rm)).1 b j
      ≡ (if b == attr && j == id then none else items rm b j)
unfolding take_relation items
take_relation-items id j attr b per rm = elim (Option-cases (Map.get rm attr)) [
  | inl no_attr ↦ ground arith
  | inr (by_parent, has_attr) ↦ elim (Option-cases (Map.get by_parent id)) [
    | inl no_row ↦ ground arith
    | inr (list, has_row) ↦
        ground
          (arith, Map.get-insert rm attr b (Map.remove by_parent id), Map.get-remove by_parent id j)
  ]
]

take_relations-items :
    (id j : DocumentInstanceId) (attrs : List AttributeId) (b : AttributeId) (per : Populated)
    (rm : RelationMap)
    → j ≢ id
    → items (take_relations id attrs (per, rm)).1 b j ≡ items rm b j
unfolding take_relations
take_relations-items id j [] b per rm other = refl
take_relations-items id j (attr ∷ attrs) b per rm other =
    let next = take_relation id attr (per, rm) in
    take_relations-items id j attrs b next.0 next.1 other
    ∙ ground (arith, take_relation-items id j attr b per rm)

take_relations-get :
    (id : DocumentInstanceId) (attrs : List AttributeId) (b : AttributeId) (per : Populated)
    (rm : RelationMap)
    → Map.get (take_relations id attrs (per, rm)).0 b
      ≡ (if contains attrs b then or_else (items rm b id) (Map.get per b) else Map.get per b)
unfolding take_relations
take_relations-get id [] b per rm = refl
take_relations-get id (attr ∷ attrs) b per rm =
    let next = take_relation id attr (per, rm) in
    take_relations-get id attrs b next.0 next.1
    ∙ rw (take_relation-get id attr b per rm, take_relation-items id id attr b per rm)
        (ground arith)

-- The result carries the map's documents of its own, under each of the attributes.
abbrev pub IsStitched : List AttributeId → RelationMap → PopulatedInstance → Type 0
IsStitched populate rm p =
    (attr : AttributeId)
    → Map.get p.populated_relations attr
      ≡ (if contains populate attr then items rm attr p.instance_of.id else none)

-- Stitching keeps the documents and their order, whatever the map holds.
pub stitch-instances :
    (populate : List AttributeId) (rm : RelationMap) (insts : List DocumentInstance)
    → map (λ p. p.instance_of) (stitch populate rm insts) ≡ insts
unfolding stitch
stitch-instances populate rm [] = refl
stitch-instances populate rm (inst ∷ rest) =
    ap (λ l. inst ∷ l) (stitch-instances populate (take_relations inst.id populate ([], rm)).1 rest)

stitch_from :
    (populate : List AttributeId) (rm left : RelationMap) (insts : List DocumentInstance)
    → IsNodup (ids insts)
    → ((attr : AttributeId) (id : DocumentInstanceId)
        → contains (ids insts) id ≡ true
        → items left attr id ≡ items rm attr id)
    → All (IsStitched populate rm) (stitch populate left insts)
unfolding stitch with_populated_relations
stitch_from populate rm left [] u same = tt
stitch_from populate rm left (inst ∷ rest) (fresh, u) same =
    let next = take_relations inst.id populate ([], left) in
    (
      λ attr.
          take_relations-get inst.id populate attr [] left
          ∙ rw (same attr inst.id (ground arith)) (unfold Map.get in ground arith),
      stitch_from populate rm next.1 rest u λ attr id later.
          take_relations-items inst.id id populate attr [] left (λ e. absurd (ground arith))
          ∙ same attr id (ground arith),
    )

-- The results are for the documents, in their order, and each carries what the map lists for it.
abbrev pub AreStitched :
    List AttributeId → RelationMap → List DocumentInstance → List PopulatedInstance → Type 0
AreStitched populate rm insts results =
    (map (λ p. p.instance_of) results ≡ insts) × All (IsStitched populate rm) results

-- If the documents have distinct identifiers, the loop of `enrich` returns just these documents, in
-- their order, each with the documents that the repository's map lists for it under each attribute
-- asked for, and with none under another.
pub stitch-AreStitched :
    (populate : List AttributeId) (rm : RelationMap) (insts : List DocumentInstance)
    → IsNodup (ids insts)
    → AreStitched populate rm insts (stitch populate rm insts)
stitch-AreStitched populate rm insts u =
    (stitch-instances populate rm insts, stitch_from populate rm rm insts u λ attr id _. refl)

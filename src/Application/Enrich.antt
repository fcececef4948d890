-- ===== src/Application/Enrich.antt =====
-- `DocumentsServiceImpl::enrich` (application/src/services/documents.rs).
pub mod Stitching
use luminair_service_aws_dsq.Base.{
  ℕ, String, Bool, true, false, ◌||◌, Option, none, some, List, [], ◌∷◌, map, nat_eq, string_eq,
  is_empty, Stateful, ok, if◌then◌else◌,
}
use luminair_service_aws_dsq.Base.Map
use luminair_service_aws_dsq.Base.Map.{HashMap}
use luminair_service_aws_dsq.Base.Store.{◌>>=◌, ◌>>◌, pure}
use luminair_service_aws_dsq.Domain.Ids.{DocumentTypeId, DocumentInstanceId, AttributeId}
use luminair_service_aws_dsq.Domain.Instance.{
  DocumentInstance, PopulatedInstance, with_populated_relations,
}
use luminair_service_aws_dsq.Application.Errors.{ApplicationError}
use luminair_service_aws_dsq.Application.Ports.{DocumentInstanceRepository, RelationMap}
use luminair_service_aws_dsq.Application.Effects.{query}

abbrev pub Populated : Type 0
Populated = HashMap AttributeId (List DocumentInstance)

-- An instance as a repository returns it.
abbrev pub bare : DocumentInstance → PopulatedInstance
bare inst = record { instance_of = inst; populated_relations = [] }

-- One round of the inner loop, over `per_doc_relations` and `relation_map`.
unfoldable pub take_relation :
    DocumentInstanceId → AttributeId → Populated × RelationMap → Populated × RelationMap
take_relation id attr (per_doc, rm) = elim (Map.get rm attr) [
  | none ↦ (per_doc, rm)
  | some by_parent ↦ elim (Map.get by_parent id) [
    | none ↦ (per_doc, rm)
    | some items ↦ (Map.insert per_doc attr items, Map.insert rm attr (Map.remove by_parent id))
  ]
]

unfoldable pub take_relations :
    DocumentInstanceId → List AttributeId → Populated × RelationMap → Populated × RelationMap
take_relations id [] state = state
take_relations id (attr ∷ attrs) state = take_relations id attrs (take_relation id attr state)

unfoldable pub stitch :
    List AttributeId → RelationMap → List DocumentInstance → List PopulatedInstance
unfolding with_populated_relations
stitch populate rm [] = []
stitch populate rm (inst ∷ rest) =
    let (per_doc, rm') = take_relations inst.id populate ([], rm) in
    with_populated_relations inst per_doc ∷ stitch populate rm' rest

abbrev pub ids : List DocumentInstance → List DocumentInstanceId
ids [] = []
ids (inst ∷ rest) = inst.id ∷ ids rest

unfoldable pub enrich :
    {S : Type 0}
    → DocumentInstanceRepository S
    → DocumentTypeId
    → List AttributeId
    → List DocumentInstance
    → Stateful S ApplicationError (List PopulatedInstance)
enrich repo type_id populate instances =
    if is_empty populate || is_empty instances then pure (map bare instances) else (do
      rm ← query (repo.fetch_relations type_id populate (ids instances))
      pure (stitch populate rm instances))

-- ===== src/Application/Relations.antt =====
-- `DocumentsServiceImpl::validate_and_apply_relations` (application/src/services/documents.rs).
pub mod Outcome
pub mod Frame
pub mod Acceptable
pub mod Singular
use luminair_service_aws_dsq.Base.{
  ℕ, String, Bool, true, false, not, ◌&&◌, Option, none, some, List, [], ◌∷◌, ◌==◌, nat_eq,
  string_eq, contains, length, ltb, Stateful, ok, err, if◌then◌else◌,
}
use luminair_service_aws_dsq.Base.Map
use luminair_service_aws_dsq.Base.Map.{HashMap}
use luminair_service_aws_dsq.Base.Store.{◌>>=◌, ◌>>◌, pure}
use luminair_service_aws_dsq.Domain.Ids.{DocumentTypeId, DocumentInstanceId, AttributeId}
use luminair_service_aws_dsq.Domain.Schema.{
  Relation, OwnerRelationKind, has_one, has_many, InverseRelationKind, belongs_to_one,
  belongs_to_many, inverse_kind,
}
use luminair_service_aws_dsq.Domain.Instance.{
  DocumentInstance, targets, set_relations, connect_relations, disconnect_relations,
  unset_relations,
}
use luminair_service_aws_dsq.Domain.Registry.{SchemaRegistry, find_relation_for_attr}
use luminair_service_aws_dsq.Application.Errors.{
  ApplicationError, validation, undefined_relation, inverse_side_relation, too_many_targets,
  multiple_targets,
}
use luminair_service_aws_dsq.Application.Commands.{RelationAction, set, connect, disconnect, unset}

-- `HashSet::insert`, and `collect` into a set that may hold items already.
unfoldable pub set_insert : List DocumentInstanceId → DocumentInstanceId → List DocumentInstanceId
set_insert seen t = if contains seen t then seen else t ∷ seen

unfoldable pub collect_set :
    List DocumentInstanceId → List DocumentInstanceId → List DocumentInstanceId
unfolding set_insert
collect_set seen [] = seen
collect_set seen (t ∷ ts) = collect_set (set_insert seen t) ts

abbrev pub is_has_one_kind : OwnerRelationKind → Bool
is_has_one_kind has_one = true
is_has_one_kind has_many = false

abbrev is_belongs_to_one : Option InverseRelationKind → Bool
is_belongs_to_one none = false
is_belongs_to_one (some belongs_to_one) = true
is_belongs_to_one (some belongs_to_many) = false

abbrev pub is_owner_of : DocumentTypeId → AttributeId → Relation → Bool
is_owner_of type_id attr rel = rel.owner_type == type_id && rel.owner_attr == attr

abbrev pub is_has_one : DocumentTypeId → AttributeId → Relation → Bool
is_has_one type_id attr rel =
    if is_owner_of type_id attr rel
    then is_has_one_kind rel.owner_kind
    else is_belongs_to_one (inverse_kind rel)

-- The targets under the attribute in the instance's map, for the check of `Connect`.
abbrev pub existing : DocumentInstance → AttributeId → List DocumentInstanceId
existing inst attr = elim (Map.get inst.relations attr) [ none ↦ [] | some list ↦ targets list ]

-- The `match action` of the loop's body.
unfoldable pub apply_action :
    Bool → AttributeId → RelationAction → Stateful DocumentInstance ApplicationError (Unit {0})
apply_action single attr (set target_ids) inst =
    let unique = collect_set [] target_ids in
    if single && ltb 1 (length unique)
    then (err (validation (too_many_targets attr (length unique) ∷ [])), inst)
    else (ok tt, set_relations attr target_ids inst)
apply_action single attr (connect target_ids) inst =
    let unique = collect_set (collect_set [] target_ids) (existing inst attr) in
    if single && ltb 1 (length unique)
    then (err (validation (multiple_targets attr ∷ [])), inst)
    else (ok tt, connect_relations attr target_ids inst)
apply_action single attr (disconnect target_ids) inst =
    (ok tt, disconnect_relations attr target_ids inst)
apply_action single attr unset inst = (ok tt, unset_relations attr inst)

module _ (reg : SchemaRegistry) (type_id : DocumentTypeId) where
  -- The loop's body.
  unfoldable pub apply_relation :
      AttributeId → RelationAction → Stateful DocumentInstance ApplicationError (Unit {0})
  apply_relation attr action inst = elim (find_relation_for_attr reg type_id attr) [
    | none ↦ (err (validation (undefined_relation attr type_id ∷ [])), inst)
    | some rel ↦
        if is_owner_of type_id attr rel
        then apply_action (is_has_one type_id attr rel) attr action inst
        else (err (validation (inverse_side_relation attr rel.owner_type ∷ [])), inst)
  ]

  unfoldable pub apply_relations :
      HashMap AttributeId RelationAction → Stateful DocumentInstance ApplicationError (Unit {0})
  apply_relations [] = pure tt
  apply_relations ((attr, action) ∷ relations) = do
    apply_relation attr action
    apply_relations relations

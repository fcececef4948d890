-- ===== src/Application/Relations/Frame.antt =====
-- What relation actions leave alone.
use luminair_service_aws_dsq.Base.{
  Bool, true, false, ◌&&◌, List, [], ◌∷◌, ◌≡◌, refl, ap, ◌∙◌, string_eq, nat_eq, length, ltb,
  Result, ok, err, Option-cases, inl, inr, arith, if◌then◌else◌,
}
use luminair_service_aws_dsq.Base.Map
use luminair_service_aws_dsq.Base.Map.{HashMap}
use luminair_service_aws_dsq.Base.Store.{◌>>◌}
use luminair_service_aws_dsq.Domain.Ids.{DocumentTypeId, DocumentInstanceId, AttributeId}
use luminair_service_aws_dsq.Domain.Instance.{
  DocumentInstance, set_relations, connect_relations, disconnect_relations, unset_relations,
}
use luminair_service_aws_dsq.Domain.Registry.{SchemaRegistry, find_relation_for_attr}
use luminair_service_aws_dsq.Application.Commands.{RelationAction, set, connect, disconnect, unset}
use luminair_service_aws_dsq.Application.Errors.{ApplicationError}
use luminair_service_aws_dsq.Application.Effects.{settled}
use luminair_service_aws_dsq.Application.Relations.{
  collect_set, existing, is_owner_of, is_has_one, apply_action, apply_relation, apply_relations,
}

-- The two instances differ in their relations at most.
abbrev pub SameButRelations : DocumentInstance → DocumentInstance → Type 0
SameButRelations before after = record after { relations = before.relations } ≡ before

choose_frame :
    (b : Bool) (x y : Result ApplicationError (Unit {0}) × DocumentInstance)
    (inst : DocumentInstance)
    → SameButRelations inst x.1
    → SameButRelations inst y.1
    → SameButRelations inst (if b then x else y).1
choose_frame true x y inst hx hy = hx
choose_frame false x y inst hx hy = hy

disconnect_frame :
    (attr : AttributeId) (ids : List DocumentInstanceId) (inst : DocumentInstance)
    → SameButRelations inst (disconnect_relations attr ids inst)
unfolding disconnect_relations
disconnect_frame attr ids inst = elim (Option-cases (Map.get inst.relations attr)) [
  | inl absent ↦ rw (absent, disconnect_relations) refl
  | inr (list, present) ↦ rw (present, disconnect_relations) refl
]

apply_action_frame :
    (single : Bool) (attr : AttributeId) (action : RelationAction) (inst : DocumentInstance)
    → SameButRelations inst (apply_action single attr action inst).1
unfolding apply_action set_relations connect_relations unset_relations
apply_action_frame single attr (set ids) inst =
    choose_frame (single && ltb 1 (length (collect_set [] ids))) _ _ inst refl refl
apply_action_frame single attr (connect ids) inst =
    choose_frame (single && ltb 1 (length (collect_set (collect_set [] ids) (existing inst attr))))
      _ _ inst refl refl
apply_action_frame single attr (disconnect ids) inst = disconnect_frame attr ids inst
apply_action_frame single attr unset inst = refl

abbrev with_relations_of : DocumentInstance → DocumentInstance → DocumentInstance
with_relations_of before inst = record inst { relations = before.relations }

module _ (reg : SchemaRegistry) (type_id : DocumentTypeId) where
  apply_relation_frame :
      (attr : AttributeId) (action : RelationAction) (inst : DocumentInstance)
      → SameButRelations inst (apply_relation reg type_id attr action inst).1
  unfolding apply_relation
  apply_relation_frame attr action inst =
      elim (Option-cases (find_relation_for_attr reg type_id attr)) [
        | inl unknown ↦ rw (unknown, apply_relation) refl
        | inr (rel, known) ↦
            rw (known, apply_relation)
              (choose_frame (is_owner_of type_id attr rel) _ _ inst
                (apply_action_frame (is_has_one type_id attr rel) attr action inst) refl)
      ]

  followed_frame :
      (r : Result ApplicationError (Unit {0})) (relations : HashMap AttributeId RelationAction)
      (before inst : DocumentInstance)
      → SameButRelations before inst
      → ((i : DocumentInstance) → SameButRelations i (apply_relations reg type_id relations i).1)
      → SameButRelations before
          (((λ i. (r, inst)) >> apply_relations reg type_id relations) before).1
  followed_frame (ok u) relations before inst h ih = ap (with_relations_of before) (ih inst) ∙ h
  followed_frame (err e) relations before inst h ih = h

  apply_relations_frame :
      (relations : HashMap AttributeId RelationAction) (inst : DocumentInstance)
      → SameButRelations inst (apply_relations reg type_id relations inst).1
  unfolding apply_relations
  apply_relations_frame [] inst = refl
  apply_relations_frame ((attr, action) ∷ relations) inst =
      let q = apply_relation reg type_id attr action inst in
      followed_frame q.0 relations inst q.1 (apply_relation_frame attr action inst)
        (apply_relations_frame relations)

  settled_frame :
      (q : Result ApplicationError (Unit {0}) × DocumentInstance) (before inst : DocumentInstance)
      → SameButRelations before q.1
      → settled (λ i. q) before ≡ ok inst
      → SameButRelations before inst
  settled_frame (ok u, after) before inst same h =
      let e : after ≡ inst = ground arith in rw (← e) same
  settled_frame (err e, after) before inst same h = absurd (ground arith)

  -- Whatever the actions, the instance that comes of them keeps its identity, type, content and
  -- audit trail.
  pub accepted_frame :
      (relations : HashMap AttributeId RelationAction) (before inst : DocumentInstance)
      → settled (apply_relations reg type_id relations) before ≡ ok inst
      → SameButRelations before inst
  accepted_frame relations before inst h =
      settled_frame (apply_relations reg type_id relations before) before inst
        (apply_relations_frame relations before) h

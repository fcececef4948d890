-- ===== src/Application/Relations/Acceptable.antt =====
-- Which relation actions are accepted (application/src/services/documents.rs).
use luminair_service_aws_dsq.Base.{
  Bool, true, false, ◌≡◌, refl, ap, ◌∙◌, some, List, [], ◌∷◌, length, ltb, ◌≤◌, All, Result, ok,
  Stateful, string_eq, nat_eq, arith,
}
use luminair_service_aws_dsq.Base.Map.{HashMap}
use luminair_service_aws_dsq.Base.Store.{◌>>=◌, ◌>>◌}
use luminair_service_aws_dsq.Domain.Ids.{DocumentTypeId, DocumentInstanceId, AttributeId}
use luminair_service_aws_dsq.Domain.Schema.{Relation}
use luminair_service_aws_dsq.Domain.Instance.{DocumentInstance}
use luminair_service_aws_dsq.Domain.Registry.{SchemaRegistry, find_relation_for_attr}
use luminair_service_aws_dsq.Application.Errors.{ApplicationError}
use luminair_service_aws_dsq.Application.Commands.{RelationAction, set, connect, disconnect, unset}
use luminair_service_aws_dsq.Application.Relations.{
  collect_set, set_insert, is_owner_of, is_has_one_kind, apply_action, apply_relation,
  apply_relations,
}

-- Under a has-one attribute an action that cannot lead to two targets, whatever is stored.
abbrev pub IsAcceptable : (single : Bool) → RelationAction → Type 0
IsAcceptable single (set ids) = single ≡ true → length ids ≤ 1
IsAcceptable single (connect ids) = single ≡ false
IsAcceptable single (disconnect ids) = Unit
IsAcceptable single unset = Unit

-- The type owns a relation with the attribute, and the relation admits the action.
abbrev pub CanApply : SchemaRegistry → DocumentTypeId → AttributeId × RelationAction → Type 0
CanApply reg type_id (attr, action) =
    (rel : Relation) × (find_relation_for_attr reg type_id attr ≡ some rel)
    × (is_owner_of type_id attr rel ≡ true)
    × IsAcceptable (is_has_one_kind rel.owner_kind) action

few_targets :
    (ids : List DocumentInstanceId) → length ids ≤ 1 → ltb 1 (length (collect_set [] ids)) ≡ false
unfolding collect_set set_insert
few_targets [] h = ground arith
few_targets (a ∷ []) h = ground arith
few_targets (a ∷ b ∷ ids) h = absurd (ground arith)

apply_action-ok :
    (single : Bool) (attr : AttributeId) (action : RelationAction) (inst : DocumentInstance)
    → IsAcceptable single action
    → (apply_action single attr action inst).0 ≡ ok tt
unfolding apply_action
apply_action-ok true attr (set ids) inst h = rw (few_targets ids (h refl)) refl
apply_action-ok false attr (set ids) inst h = refl
apply_action-ok single attr (connect ids) inst h = rw h refl
apply_action-ok single attr (disconnect ids) inst h = refl
apply_action-ok single attr unset inst h = refl

-- A step that succeeds hands its state on.
go_on :
    {S E B : Type 0} (m : Stateful S E (Unit {0})) (k : Stateful S E B) (s : S)
    → (m s).0 ≡ ok tt
    → (m >> k) s ≡ k (m s).1
go_on m k s e = rw (e, ◌>>=◌) refl

module _ (reg : SchemaRegistry) (type_id : DocumentTypeId) where
  apply_relation-ok :
      (attr : AttributeId) (action : RelationAction) (inst : DocumentInstance)
      → CanApply reg type_id (attr, action)
      → (apply_relation reg type_id attr action inst).0 ≡ ok tt
  unfolding apply_relation
  apply_relation-ok attr action inst (rel, known, owned, fits) =
      rw (known, owned, apply_relation)
        (apply_action-ok (is_has_one_kind rel.owner_kind) attr action inst fits)

  -- Actions that the type's own relations admit are accepted.
  pub apply_relations-ok :
      (relations : HashMap AttributeId RelationAction) (inst : DocumentInstance)
      → All (CanApply reg type_id) relations
      → (apply_relations reg type_id relations inst).0 ≡ ok tt
  unfolding apply_relations
  apply_relations-ok [] inst h = refl
  apply_relations-ok ((attr, action) ∷ relations) inst (h, hs) =
      let done = apply_relation-ok attr action inst h in
      ap (λ (r : Result ApplicationError (Unit {0}) × DocumentInstance). r.0)
        (go_on (apply_relation reg type_id attr action) (apply_relations reg type_id relations) inst
          done)
      ∙ apply_relations-ok relations (apply_relation reg type_id attr action inst).1 hs

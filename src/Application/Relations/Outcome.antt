-- ===== src/Application/Relations/Outcome.antt =====
-- What an accepted set of relation actions leaves under each attribute.
use luminair_service_aws_dsq.Base.{
  Bool, false, not, ◌&&◌, ◌||◌, none, some, List, [], ◌∷◌, ◌≡◌, refl, ap, ◌∙◌, string_eq, nat_eq,
  contains, length, ltb, ok, Bool-cases, Option-cases, inl, inr, arith,
}
use luminair_service_aws_dsq.Base.Map
use luminair_service_aws_dsq.Base.Map.{HashMap}
use luminair_service_aws_dsq.Domain.Ids.{DocumentTypeId, DocumentInstanceId, AttributeId}
use luminair_service_aws_dsq.Domain.Schema.{Relation}
use luminair_service_aws_dsq.Domain.Instance.{DocumentInstance, targets, related}
use luminair_service_aws_dsq.Domain.Instance.Relations.{
  Stores, IsTidy, Stores-IsTidy, Stores-related, set_relations-Stores, connect_relations-Stores,
  disconnect_relations-Stores, unset_relations-Stores,
}
use luminair_service_aws_dsq.Domain.Registry.{SchemaRegistry, find_relation_for_attr}
use luminair_service_aws_dsq.Application.Commands.{RelationAction, set, connect, disconnect, unset}
use luminair_service_aws_dsq.Application.Effects.{then_ok}
use luminair_service_aws_dsq.Application.Relations.{
  collect_set, existing, is_owner_of, is_has_one, apply_action, apply_relation, apply_relations,
}

-- The targets that an action asks for, given those that are there.
abbrev pub wanted : RelationAction → List DocumentInstanceId → DocumentInstanceId → Bool
wanted (set ids) old a = contains ids a
wanted (connect ids) old a = contains old a || contains ids a
wanted (disconnect ids) old a = contains old a && not (contains ids a)
wanted unset old a = false

abbrev with_relations : DocumentInstance → DocumentInstance → DocumentInstance
with_relations before inst = record inst { relations = before.relations }

-- An action that is accepted leaves, of a tidy instance, under the attribute just the targets that the
-- action asks for, each once, and all else as it was.
pub apply_action-Stores :
    (single : Bool) (attr : AttributeId) (action : RelationAction) (inst : DocumentInstance)
    → (apply_action single attr action inst).0 ≡ ok tt
    → IsTidy inst
    → Stores attr
        (wanted action (targets (related inst attr)))
        inst
        (apply_action single attr action inst).1
unfolding apply_action
apply_action-Stores single attr (set ids) inst h tidy =
    elim (Bool-cases (single && ltb 1 (length (collect_set [] ids)))) [
      | inl many ↦ absurd (ground arith)
      | inr few ↦ rw few (set_relations-Stores attr ids inst)
    ]
apply_action-Stores single attr (connect ids) inst h tidy =
    elim (Bool-cases
      (single && ltb 1 (length (collect_set (collect_set [] ids) (existing inst attr))))) [
        | inl many ↦ absurd (ground arith)
        | inr few ↦ rw few (connect_relations-Stores attr ids inst tidy)
      ]
apply_action-Stores single attr (disconnect ids) inst h tidy =
    disconnect_relations-Stores attr ids inst tidy
apply_action-Stores single attr unset inst h tidy = unset_relations-Stores attr inst

module _ (reg : SchemaRegistry) (type_id : DocumentTypeId) where
  -- The registry knows the attribute as the owner's side of a relation of the type.
  pub record IsOwnedAttribute (attr : AttributeId) : Type 0 where
    pub rel : Relation
    pub known : find_relation_for_attr reg type_id attr ≡ some rel
    pub owner_type : rel.owner_type ≡ type_id
    pub owner_attr : rel.owner_attr ≡ attr

  pub apply_relation-action :
      (attr : AttributeId) (action : RelationAction) (inst : DocumentInstance)
      → (apply_relation reg type_id attr action inst).0 ≡ ok tt
      → (own : IsOwnedAttribute attr) × (apply_relation reg type_id attr action inst
          ≡ apply_action (is_has_one type_id attr own.rel) attr action inst)
  unfolding apply_relation
  apply_relation-action attr action inst h =
      elim (Option-cases (find_relation_for_attr reg type_id attr)) [
        | inl unknown ↦ absurd (ground arith)
        | inr (rel, known) ↦ elim (Bool-cases (is_owner_of type_id attr rel)) [
          | inl own ↦ (
            record {
              rel = rel;
              known = known;
              owner_type = ground arith;
              owner_attr = ground arith;
            },
            rw (known, own, apply_relation),
          )
          | inr other ↦ absurd (ground arith)
        ]
      ]

  pub apply_relation-Stores :
      (attr : AttributeId) (action : RelationAction) (inst : DocumentInstance)
      → (apply_relation reg type_id attr action inst).0 ≡ ok tt
      → IsTidy inst
      → Stores attr
          (wanted action (targets (related inst attr)))
          inst
          (apply_relation reg type_id attr action inst).1
  apply_relation-Stores attr action inst h tidy =
      let (own, same) = apply_relation-action attr action inst h in
      let single = is_has_one type_id attr own.rel in
      rw same (apply_action-Stores single attr action inst (rw same at h) tidy)

  -- What the accepted actions leave: under each attribute with an action just the targets that the
  -- action asks for, the other attributes and the rest of the instance as they were.
  pub record Applied (relations : HashMap AttributeId RelationAction)
      (before after : DocumentInstance) : Type 0 where
    pub tidy : IsTidy after
    pub acted :
        (attr : AttributeId) (action : RelationAction)
        → Map.get relations attr ≡ some action
        → IsOwnedAttribute attr
          × ((a : DocumentInstanceId)
              → contains (targets (related after attr)) a
                ≡ wanted action (targets (related before attr)) a)
    pub kept :
        (attr : AttributeId)
        → Map.get relations attr ≡ none
        → related after attr ≡ related before attr
    pub rest : record after { relations = before.relations } ≡ before

  not-get-nil :
      (attr : AttributeId) (action : RelationAction)
      → Map.get {V = RelationAction} [] attr ≡ some action
      → ⊥
  not-get-nil attr action h = unfold Map.get in cc h

  Applied-cons :
      {attr : AttributeId} {action : RelationAction}
      {relations : HashMap AttributeId RelationAction} {before middle after : DocumentInstance}
      → Map.get relations attr ≡ none
      → IsOwnedAttribute attr
      → Stores attr (wanted action (targets (related before attr))) before middle
      → Applied relations middle after
      → Applied ((attr, action) ∷ relations) before after
  unfolding Map.get
  Applied-cons {attr} {action} {relations} {before} {middle} {after} fresh own st ih = record {
    tidy = ih.tidy;
    acted = λ b asked found. elim (string_eq.dec b attr) [
      | yes same ↦
          let e : action ≡ asked = ground arith in
          rw (same, ← e) (own, λ a. rw (ih.kept attr fresh) (st.members a))
      | no differ ↦
          let (owned, members) = ih.acted b asked (ground arith) in
          (owned, λ a. members a ∙ rw (Stores-related st b differ))
    ];
    kept = λ b absent. elim (string_eq.dec b attr) [
      | yes same ↦ absurd (ground arith)
      | no differ ↦ ih.kept b (ground arith) ∙ Stores-related st b differ
    ];
    rest = ap (with_relations before) ih.rest ∙ st.rest;
  }

  -- If the actions, one to an attribute, are accepted on a tidy instance, then each is on an
  -- attribute that the registry knows as the type's own side of a relation, and the instance holds
  -- what `Applied` says, in whatever order the map yields them.
  pub apply_relations-Applied :
      (relations : HashMap AttributeId RelationAction) (inst : DocumentInstance)
      → Map.HasDistinctKeys relations
      → IsTidy inst
      → (apply_relations reg type_id relations inst).0 ≡ ok tt
      → Applied relations inst (apply_relations reg type_id relations inst).1
  unfolding apply_relations
  apply_relations-Applied [] inst u tidy h = record {
    tidy = tidy;
    acted = λ attr action found. absurd (not-get-nil attr action found);
    kept = λ attr _. refl;
    rest = refl;
  }
  apply_relations-Applied ((attr, action) ∷ relations) inst (fresh, u) tidy h =
      let (first, same) =
        then_ok (apply_relation reg type_id attr action) (apply_relations reg type_id relations)
          inst h in
      let st = apply_relation-Stores attr action inst first tidy in
      let (own, _) = apply_relation-action attr action inst first in
      let ih =
        apply_relations-Applied relations (apply_relation reg type_id attr action inst).1 u
          (Stores-IsTidy st tidy) (rw same at h) in
      rw same (Applied-cons fresh own st ih)

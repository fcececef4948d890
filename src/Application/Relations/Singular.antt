-- ===== src/Application/Relations/Singular.antt =====
-- The number of targets under an attribute of a has-one relation.
use luminair_service_aws_dsq.Base.{
  ◌≤◌, Bool, true, ◌||◌, some, List, [], ◌∷◌, ◌≡◌, refl, ◌∙◌, sym, nat_eq, string_eq, contains,
  length, IsNodup, ok, Option-cases, inl, inr, arith,
}
use luminair_service_aws_dsq.Base.Map
use mathlib.Core.Option.{some-injective}
use luminair_service_aws_dsq.Base.Map.{HashMap}
use luminair_service_aws_dsq.Domain.Ids.{DocumentTypeId, DocumentInstanceId, AttributeId}
use luminair_service_aws_dsq.Domain.Schema.{Relation}
use luminair_service_aws_dsq.Domain.Instance.{DocumentInstance, targets, related}
use luminair_service_aws_dsq.Domain.Instance.Relations.{
  Stores, IsTidy, Stores-IsTidy, Stores-related,
}
use luminair_service_aws_dsq.Domain.Registry.{SchemaRegistry, find_relation_for_attr}
use luminair_service_aws_dsq.Application.Commands.{RelationAction, set, connect, disconnect, unset}
use luminair_service_aws_dsq.Application.Effects.{then_ok}
use luminair_service_aws_dsq.Application.Relations.{
  set_insert, collect_set, existing, is_has_one, apply_action, apply_relation, apply_relations,
}
use luminair_service_aws_dsq.Application.Relations.Outcome.{
  wanted, apply_relation-action, apply_relation-Stores,
}

-- A list without repetitions is no longer than one that has its items, if that has one at most.
nodup_bound :
    (xs ys : List DocumentInstanceId)
    → IsNodup xs
    → ((a : DocumentInstanceId) → contains xs a ≡ true → contains ys a ≡ true)
    → length ys ≤ 1
    → length xs ≤ 1
nodup_bound [] ys u h bound = omega arith
nodup_bound (x ∷ []) ys u h bound = omega arith
nodup_bound (x ∷ y ∷ xs) [] u h bound = let e = h x (ground arith) in absurd (ground arith)
nodup_bound (x ∷ y ∷ xs) (z ∷ []) u h bound =
    let e = h x (ground arith) in let f = h y (ground arith) in absurd (ground arith)
nodup_bound (x ∷ y ∷ xs) (z ∷ w ∷ ys) u h bound = absurd (omega arith)

contains-collect_set :
    (seen ts : List DocumentInstanceId) (a : DocumentInstanceId)
    → contains (collect_set seen ts) a ≡ (contains seen a || contains ts a)
unfolding collect_set set_insert
contains-collect_set seen [] a = ground arith
contains-collect_set seen (t ∷ ts) a = contains-collect_set (set_insert seen t) ts a ∙ ground arith

targets-existing :
    (inst : DocumentInstance) (attr : AttributeId)
    → existing inst attr ≡ targets (related inst attr)
unfolding related
targets-existing inst attr = elim (Option-cases (Map.get inst.relations attr)) [
  | inl absent ↦ rw (absent, existing, related) refl
  | inr (list, present) ↦ rw (present, existing, related) refl
]

Stores-single :
    {attr : AttributeId} {asked : DocumentInstanceId → Bool} {before after : DocumentInstance}
    → Stores attr asked before after
    → (ys : List DocumentInstanceId)
    → ((a : DocumentInstanceId) → asked a ≡ true → contains ys a ≡ true)
    → length ys ≤ 1
    → length (targets (related after attr)) ≤ 1
Stores-single {attr} {after} st ys h bound =
    nodup_bound (targets (related after attr)) ys st.distinct (λ a m. h a (sym (st.members a) ∙ m))
      bound

-- The list that bounds what an accepted action leaves.
action_bound :
    (attr : AttributeId) (action : RelationAction) (inst : DocumentInstance)
    → (apply_action true attr action inst).0 ≡ ok tt
    → length (targets (related inst attr)) ≤ 1
    → (ys : List DocumentInstanceId) × ((a : DocumentInstanceId)
        → wanted action (targets (related inst attr)) a ≡ true
        → contains ys a ≡ true)
      × (length ys ≤ 1)
unfolding apply_action
action_bound attr (set ids) inst h bound =
    (collect_set [] ids, λ a m. contains-collect_set [] ids a ∙ m, ground arith)
action_bound attr (connect ids) inst h bound = (
  collect_set (collect_set [] ids) (existing inst attr),
  λ a m.
      contains-collect_set (collect_set [] ids) (existing inst attr) a
      ∙ rw (contains-collect_set [] ids a, targets-existing inst attr) (ground arith),
  ground arith,
)
action_bound attr (disconnect ids) inst h bound =
    (targets (related inst attr), λ a m. ground arith, bound)
action_bound attr unset inst h bound = ([], λ a m. absurd (ground arith), omega arith)

module _ (reg : SchemaRegistry) (type_id : DocumentTypeId) where
  -- Each of the type's own has-one attributes has one target at most.
  abbrev pub IsSingular : DocumentInstance → Type 0
  IsSingular inst =
      (attr : AttributeId) (rel : Relation)
      → find_relation_for_attr reg type_id attr ≡ some rel
      → is_has_one type_id attr rel ≡ true
      → length (targets (related inst attr)) ≤ 1

  apply_relation-IsSingular :
      (attr : AttributeId) (action : RelationAction) (inst : DocumentInstance)
      → (apply_relation reg type_id attr action inst).0 ≡ ok tt
      → IsTidy inst
      → IsSingular inst
      → IsSingular (apply_relation reg type_id attr action inst).1
  apply_relation-IsSingular attr action inst h tidy single b rel known has_one =
      let st = apply_relation-Stores reg type_id attr action inst h tidy in
      let (own, same) = apply_relation-action reg type_id attr action inst h in
      elim (string_eq.dec b attr) [
        | yes e ↦
            let same_rel : rel ≡ own.rel = some-injective _ _ (sym known ∙ rw e own.known) in
            let has : is_has_one type_id attr own.rel ≡ true = rw (← same_rel, ← e) has_one in
            let (ys, below, bound) =
              action_bound attr action inst (rw (same, has) at h)
                (single attr own.rel own.known has) in
            rw e (Stores-single st ys below bound)
        | no differ ↦ rw (Stores-related st b differ) (single b rel known has_one)
      ]

  -- If the actions are accepted on a tidy instance in which each has-one
  -- attribute of the type has one target at most, it has one at most afterwards.
  pub apply_relations-IsSingular :
      (relations : HashMap AttributeId RelationAction) (inst : DocumentInstance)
      → IsTidy inst
      → IsSingular inst
      → (apply_relations reg type_id relations inst).0 ≡ ok tt
      → IsSingular (apply_relations reg type_id relations inst).1
  unfolding apply_relations
  apply_relations-IsSingular [] inst tidy single h = single
  apply_relations-IsSingular ((attr, action) ∷ relations) inst tidy single h =
      let (first, same) =
        then_ok (apply_relation reg type_id attr action) (apply_relations reg type_id relations)
          inst h in
      let st = apply_relation-Stores reg type_id attr action inst first tidy in
      rw same (
        apply_relations-IsSingular relations (apply_relation reg type_id attr action inst).1
          (Stores-IsTidy st tidy) (apply_relation-IsSingular attr action inst first tidy single)
          (rw same at h))

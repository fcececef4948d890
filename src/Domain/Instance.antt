-- ===== src/Domain/Instance.antt =====
-- Document instances (domain/src/content/instance.rs). A method on `&mut self` that can fail is a
-- computation over the instance; the clock and the generator of identifiers are arguments. The
-- transient field `populated_relations` is split off into `PopulatedInstance`: an instance that a
-- repository takes or gives is without it.
pub mod Relations
pub mod Edits
pub mod Publication
use luminair_service_aws_dsq.Base.{
  ℕ, String, Bool, true, false, not, Option, none, some, List, [], ◌∷◌, ◌++◌, map, ◌+◌, ◌%◌, ◌==◌,
  nat_eq, string_eq, option_eq, contains, retain, if◌then◌else◌, Stateful, ok, err,
}
use luminair_service_aws_dsq.Base.Map
use luminair_service_aws_dsq.Base.Map.{HashMap}
use luminair_service_aws_dsq.Domain.Ids.{
  DocumentInstanceId, DocumentTypeId, AttributeId, UserId, DateTime, u32_modulus,
}
use luminair_service_aws_dsq.Domain.Errors.{DomainError, invalid_state_transition, already_draft}
use luminair_service_aws_dsq.Domain.Values.{ContentValue}

pub data PublicationState : Type 0 where
  draft : (last_published_revision : Option ℕ) → PublicationState
  published :
      (revision : ℕ) (published_at : DateTime) (published_by : Option UserId) → PublicationState

pub record DocumentContent : Type 0 where
  pub fields : HashMap AttributeId ContentValue
  pub publication_state : PublicationState

pub record AuditTrail : Type 0 where
  pub created_at : DateTime
  pub created_by : Option UserId
  pub updated_at : DateTime
  pub updated_by : Option UserId
  pub version : ℕ

pub record ResolvedRelation : Type 0 where
  pub attribute_id : AttributeId
  pub target_instance_id : DocumentInstanceId

pub record DocumentInstance : Type 0 where
  pub id : DocumentInstanceId
  pub db_row_id : Option DocumentInstanceId
  pub document_type_id : DocumentTypeId
  pub content : DocumentContent
  pub relations : HashMap AttributeId (List ResolvedRelation)
  pub audit : AuditTrail

pub record PopulatedInstance : Type 0 where
  pub instance_of : DocumentInstance
  pub populated_relations : HashMap AttributeId (List DocumentInstance)

-- `DocumentInstance::new`, with the identifier that `Uuid::now_v7` yields.
unfoldable pub new :
    DocumentInstanceId → DocumentTypeId → Option UserId → DateTime → DocumentInstance
new id type_id by now = record {
  id = id;
  db_row_id = none;
  document_type_id = type_id;
  content = record { fields = []; publication_state = draft none };
  relations = [];
  audit = record {
    created_at = now;
    created_by = by;
    updated_at = now;
    updated_by = by;
    version = 1;
  };
}

unfoldable pub with_populated_relations :
    DocumentInstance → HashMap AttributeId (List DocumentInstance) → PopulatedInstance
with_populated_relations inst populated = record {
  instance_of = inst;
  populated_relations = populated;
}

abbrev pub targets : List ResolvedRelation → List DocumentInstanceId
targets [] = []
targets (r ∷ rs) = r.target_instance_id ∷ targets rs

-- The loop that `set_relations` and `connect_relations` share: `seen` and `list` are its variables.
unfoldable pub push_unseen :
    AttributeId
    → List DocumentInstanceId
    → List ResolvedRelation
    → List DocumentInstanceId
    → List ResolvedRelation
push_unseen attr seen list [] = list
push_unseen attr seen list (t ∷ ts) =
    let skipped = push_unseen attr seen list ts in
    let pushed =
      push_unseen attr (t ∷ seen)
        (list ++ record { attribute_id = attr; target_instance_id = t } ∷ []) ts in
    if contains seen t then skipped else pushed

unfoldable pub set_relations :
    AttributeId → List DocumentInstanceId → DocumentInstance → DocumentInstance
set_relations attr target_ids inst = record inst {
  relations = Map.insert inst.relations attr (push_unseen attr [] [] target_ids);
}

-- `entry(attr).or_default()`
unfoldable pub related : DocumentInstance → AttributeId → List ResolvedRelation
related inst attr = elim (Map.get inst.relations attr) [ none ↦ [] | some list ↦ list ]

unfoldable pub connect_relations :
    AttributeId → List DocumentInstanceId → DocumentInstance → DocumentInstance
connect_relations attr target_ids inst =
    let list = related inst attr in
    record inst {
      relations = Map.insert inst.relations attr (push_unseen attr (targets list) list target_ids);
    }

unfoldable pub disconnect_relations :
    AttributeId → List DocumentInstanceId → DocumentInstance → DocumentInstance
disconnect_relations attr target_ids inst = elim (Map.get inst.relations attr) [
  | none ↦ inst
  | some list ↦ record inst {
    relations =
        Map.insert inst.relations attr
          (retain (λ r. not (contains target_ids r.target_instance_id)) list);
  }
]

unfoldable pub unset_relations : AttributeId → DocumentInstance → DocumentInstance
unset_relations attr inst = record inst { relations = Map.remove inst.relations attr }

unfoldable pub touch : Option UserId → DateTime → DocumentInstance → DocumentInstance
touch by now inst = record inst {
  audit = record (inst.audit) {
    updated_at = now;
    updated_by = by;
    version = (inst.audit.version + 1) % u32_modulus;
  };
}

unfoldable pub new_revision : PublicationState → ℕ
new_revision (draft none) = 1
new_revision (draft (some last)) = (last + 1) % u32_modulus
new_revision (published revision _ _) = (revision + 1) % u32_modulus

unfoldable pub publish : Option UserId → DateTime → Stateful DocumentInstance DomainError ℕ
unfolding new_revision touch
publish by now inst =
    let revision = new_revision inst.content.publication_state in
    let state = record (inst.content) { publication_state = published revision now by } in
    (ok revision, touch by now (record inst { content = state }))

unfoldable pub unpublish : DateTime → Stateful DocumentInstance DomainError (Unit {0})
unpublish now inst = elim (inst.content.publication_state) [
  | draft _ ↦ (err (invalid_state_transition already_draft), inst)
  | published revision _ _ ↦ (
    ok tt,
    record inst {
      content = record (inst.content) { publication_state = draft (some revision) };
      audit = record (inst.audit) {
        updated_at = now;
        version = (inst.audit.version + 1) % u32_modulus;
      };
    },
  )
]

unfoldable pub is_owned_by : DocumentInstance → UserId → Bool
is_owned_by inst user_id = inst.audit.created_by == some user_id

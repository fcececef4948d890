-- ===== src/Domain/Instance/Edits.antt =====
-- Everything that is done to a document instance after it was made (domain/src/content/instance.rs),
-- and the replacement of its fields by the document service (application/src/services/documents.rs).
use luminair_service_aws_dsq.Base.{◌≡◌, Bool, Option, List, ◌∙◌, ap, arith}
use luminair_service_aws_dsq.Base.Map
use luminair_service_aws_dsq.Base.Map.{HashMap}
use luminair_service_aws_dsq.Domain.Ids.{
  DocumentInstanceId, DocumentTypeId, AttributeId, UserId, DateTime,
}
use luminair_service_aws_dsq.Domain.Values.{ContentValue}
use luminair_service_aws_dsq.Domain.Instance.{
  DocumentInstance, related, new, touch, publish, unpublish, set_relations, connect_relations,
  disconnect_relations, unset_relations,
}
use luminair_service_aws_dsq.Domain.Instance.Relations.{
  Stores, IsTidy, set_relations-Stores, connect_relations-Stores, disconnect_relations-Stores,
  unset_relations-Stores, Stores-IsTidy,
}

-- One call on the instance, also one that fails.
pub data Edit (inst : DocumentInstance) : DocumentInstance → Type 0 where
  filling :
      (fields : HashMap AttributeId ContentValue)
      → Edit inst (record inst { content = record (inst.content) { fields = fields } })
  touching : (by : Option UserId) (now : DateTime) → Edit inst (touch by now inst)
  publishing : (by : Option UserId) (now : DateTime) → Edit inst (publish by now inst).1
  unpublishing : (now : DateTime) → Edit inst (unpublish now inst).1
  setting :
      (attr : AttributeId) (ids : List DocumentInstanceId) → Edit inst (set_relations attr ids inst)
  connecting :
      (attr : AttributeId) (ids : List DocumentInstanceId)
      → Edit inst (connect_relations attr ids inst)
  disconnecting :
      (attr : AttributeId) (ids : List DocumentInstanceId)
      → Edit inst (disconnect_relations attr ids inst)
  unsetting : (attr : AttributeId) → Edit inst (unset_relations attr inst)

pub data Edits (start : DocumentInstance) : DocumentInstance → Type 0 where
  begin : Edits start start
  edit : {inst after : DocumentInstance} → Edits start inst → Edit inst after → Edits start after

-- The same document, made at the same time for the same owner.
pub record IsSameDocument (a b : DocumentInstance) : Type 0 where
  pub id : a.id ≡ b.id
  pub document_type_id : a.document_type_id ≡ b.document_type_id
  pub created_at : a.audit.created_at ≡ b.audit.created_at
  pub created_by : a.audit.created_by ≡ b.audit.created_by

-- A tidy instance of the document that `start` is.
abbrev pub IsKept : DocumentInstance → DocumentInstance → Type 0
IsKept start inst = IsSameDocument inst start × IsTidy inst

same_rest : {a b : DocumentInstance} → record a { relations = b.relations } ≡ b → IsSameDocument a b
same_rest e = record {
  id = ap (λ (i : DocumentInstance). i.id) e;
  document_type_id = ap (λ (i : DocumentInstance). i.document_type_id) e;
  created_at = ap (λ (i : DocumentInstance). i.audit.created_at) e;
  created_by = ap (λ (i : DocumentInstance). i.audit.created_by) e;
}

same_relations :
    (inst after : DocumentInstance) → after.relations ≡ inst.relations → IsTidy inst → IsTidy after
unfolding related
same_relations inst after e tidy attr = rw e (tidy attr)

Stores-IsKept :
    {attr : AttributeId} {wanted : DocumentInstanceId → Bool} {inst after : DocumentInstance}
    → Stores attr wanted inst after
    → IsTidy inst
    → IsKept inst after
Stores-IsKept st tidy = (same_rest st.rest, Stores-IsTidy st tidy)

Edit-IsKept : {inst after : DocumentInstance} → Edit inst after → IsTidy inst → IsKept inst after
unfolding related touch publish unpublish
Edit-IsKept {inst} (filling fields) tidy = (ground arith, tidy)
Edit-IsKept {inst} (touching by now) tidy = (ground arith, tidy)
Edit-IsKept {inst} (publishing by now) tidy = (ground arith, tidy)
Edit-IsKept {inst} (unpublishing now) tidy =
    (ground arith, same_relations inst (unpublish now inst).1 (ground arith) tidy)
Edit-IsKept {inst} (setting attr ids) tidy = Stores-IsKept (set_relations-Stores attr ids inst) tidy
Edit-IsKept {inst} (connecting attr ids) tidy =
    Stores-IsKept (connect_relations-Stores attr ids inst tidy) tidy
Edit-IsKept {inst} (disconnecting attr ids) tidy =
    Stores-IsKept (disconnect_relations-Stores attr ids inst tidy) tidy
Edit-IsKept {inst} (unsetting attr) tidy = Stores-IsKept (unset_relations-Stores attr inst) tidy

new-IsTidy :
    (id : DocumentInstanceId) (type_id : DocumentTypeId) (by : Option UserId) (now : DateTime)
    → IsTidy (new id type_id by now)
unfolding new related Map.get
new-IsTidy id type_id by now attr = (tt, tt)

-- After any sequence of calls on a new document that touch, publish or unpublish it, set, connect,
-- disconnect or unset relations, or replace its fields, it has the identity, type, creation date and
-- creator that it was made with, and each attribute lists distinct targets, each entry under that
-- attribute's own name.
pub Edits-IsKept :
    (id : DocumentInstanceId) (type_id : DocumentTypeId) (by : Option UserId) (now : DateTime)
    {inst : DocumentInstance}
    → Edits (new id type_id by now) inst
    → IsKept (new id type_id by now) inst
Edits-IsKept id type_id by now begin = (ground arith, new-IsTidy id type_id by now)
Edits-IsKept id type_id by now (edit edits e) =
    let (before, tidy) = Edits-IsKept id type_id by now edits in
    let (step, kept) = Edit-IsKept e tidy in
    (
      record {
        id = step.id ∙ before.id;
        document_type_id = step.document_type_id ∙ before.document_type_id;
        created_at = step.created_at ∙ before.created_at;
        created_by = step.created_by ∙ before.created_by;
      },
      kept,
    )

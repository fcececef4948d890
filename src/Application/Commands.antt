-- ===== src/Application/Commands.antt =====
-- Commands of the services (application/src/commands/). Their `new` and `with_…` builders set
-- fields one by one; a command is built by its record.
use luminair_service_aws_dsq.Base.{ℕ, String, Option, List}
use luminair_service_aws_dsq.Base.Map.{HashMap}
use luminair_service_aws_dsq.Domain.Ids.{
  DocumentTypeId, DocumentInstanceId, AttributeId, UserId, Email, DisplayName, AccessRequestId,
  RoleId,
}
use luminair_service_aws_dsq.Domain.Values.{ContentValue, DomainValue}

-- `Pagination` and `FieldFilter` of domain/src/content/ports.rs.
pub record Pagination : Type 0 where
  pub page : ℕ
  pub page_size : ℕ

pub record FieldFilter : Type 0 where
  pub attribute_id : AttributeId
  pub value : DomainValue

pub record FindDocumentsCommand : Type 0 where
  pub document_type : DocumentTypeId
  pub pagination : Pagination
  pub filters : List FieldFilter
  pub populate : Option (List AttributeId)

pub record FindByIdCommand : Type 0 where
  pub document_type : DocumentTypeId
  pub document_instance_id : DocumentInstanceId
  pub populate : Option (List AttributeId)

pub data RelationAction : Type 0 where
  set connect disconnect : List DocumentInstanceId → RelationAction
  unset : RelationAction

pub record CreateDocumentCommand : Type 0 where
  pub document_type : DocumentTypeId
  pub fields : HashMap AttributeId ContentValue
  pub relations : HashMap AttributeId RelationAction
  pub populate : Option (List AttributeId)

pub record UpdateDocumentCommand : Type 0 where
  pub document_instance_id : DocumentInstanceId
  pub document_type : DocumentTypeId
  pub fields : HashMap AttributeId ContentValue
  pub relations : HashMap AttributeId RelationAction
  pub populate : Option (List AttributeId)

pub record DeleteDocumentCommand : Type 0 where
  pub document_instance_id : DocumentInstanceId
  pub document_type : DocumentTypeId

pub record PublishDocumentCommand : Type 0 where
  pub document_instance_id : DocumentInstanceId
  pub document_type : DocumentTypeId

pub record UnpublishDocumentCommand : Type 0 where
  pub document_instance_id : DocumentInstanceId
  pub document_type : DocumentTypeId

pub record SubmitAccessRequestCommand : Type 0 where
  pub user_id : UserId
  pub email : Option Email
  pub name : Option DisplayName

pub record ApproveAccessRequestCommand : Type 0 where
  pub request_id : AccessRequestId
  pub role_ids : List RoleId

pub record RejectAccessRequestCommand : Type 0 where
  pub request_id : AccessRequestId
  pub reason : Option String

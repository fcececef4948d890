-- ===== src/Application/Errors.antt =====
-- `ApplicationError` (application/src/errors.rs). A formatted message is a constructor for its
-- template with the values that it shows.
use luminair_service_aws_dsq.Base.{ℕ, String, List}
use luminair_service_aws_dsq.Domain.Ids.{UserId, Uuid, AttributeId, DocumentTypeId}
use luminair_service_aws_dsq.Domain.Errors.{DomainError}
use luminair_service_aws_dsq.Domain.Auth.{Permission}

pub data Message : Type 0 where
  undefined_relation : (attr : AttributeId) (type_id : DocumentTypeId) → Message
  inverse_side_relation : (attr : AttributeId) (owner : DocumentTypeId) → Message
  too_many_targets : (attr : AttributeId) (received : ℕ) → Message
  multiple_targets : (attr : AttributeId) → Message
  no_draft_and_publish : (title : String) → Message
  -- the `to_string` of a domain error
  of_domain : DomainError → Message

pub data ApplicationError : Type 0 where
  domain : DomainError → ApplicationError
  unauthorized : (user_id : UserId) (action : Permission) → ApplicationError
  not_found : (entity : String) (id : Uuid) → ApplicationError
  validation : List Message → ApplicationError
  conflict : Message → ApplicationError
  internal : Message → ApplicationError

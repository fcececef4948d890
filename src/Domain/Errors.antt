-- ===== src/Domain/Errors.antt =====
-- `DomainError` (domain/src/errors.rs). A formatted message is a constructor for its template with
-- the values that it shows.
use luminair_service_aws_dsq.Base.{ℕ, String}
use luminair_service_aws_dsq.Base.Int.{ℤ}
use luminair_service_aws_dsq.Domain.Ids.{
  DocumentTypeId, DocumentInstanceId, AttributeId, LocaleId, AccessRequestId, UserId, Decimal,
}
use luminair_service_aws_dsq.Domain.Schema.{FieldType}
use luminair_service_aws_dsq.Domain.Status.{AccessRequestStatus}

pub data Reason : Type 0 where
  -- "locale '{}': " in front of another reason
  in_locale : LocaleId → Reason → Reason
  length_below length_above : (length bound : ℕ) → Reason
  pattern_mismatch : (value pat : String) → Reason
  invalid_pattern : (pat error : String) → Reason
  integer_below integer_above : (value bound : ℤ) → Reason
  decimal_below decimal_above : (value bound : Decimal) → Reason
  missing_or_null not_localized : Reason
  type_mismatch : FieldType → Reason
  incompatible : FieldType → Reason
  already_draft : Reason
  cannot_approve cannot_reject : AccessRequestStatus → Reason
  no_roles : Reason
  too_many_roles : (max received : ℕ) → Reason
  -- a message that another crate formats
  foreign : String → Reason

pub data DomainError : Type 0 where
  document_type_not_found : DocumentTypeId → DomainError
  document_instance_not_found : DocumentInstanceId → DomainError
  single_type_already_exists : DocumentTypeId → DomainError
  invalid_field_value : (attribute_id : AttributeId) (reason : Reason) → DomainError
  unknown_locale : LocaleId → DomainError
  unknown_attribute : AttributeId → DomainError
  access_request_not_found : AccessRequestId → DomainError
  access_request_already_active : UserId → DomainError
  unauthorized : Reason → DomainError
  invalid_state_transition : (reason : Reason) → DomainError
  validation : Reason → DomainError
  storage : Reason → DomainError

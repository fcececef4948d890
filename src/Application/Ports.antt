-- ===== src/Application/Ports.antt =====
-- The repository traits (domain/src/content/ports.rs, domain/src/auth/ports.rs) over a store of
-- type `S`. A query reads the store as it is at the call; a command may change it, also when it
-- fails. Only the methods that the services call are listed.
use luminair_service_aws_dsq.Base.{ℕ, Bool, Option, List, Result, Stateful}
use luminair_service_aws_dsq.Base.Map.{HashMap}
use luminair_service_aws_dsq.Domain.Ids.{
  DocumentTypeId, DocumentInstanceId, AttributeId, UserId, AccessRequestId, RoleId,
}
use luminair_service_aws_dsq.Domain.Errors.{DomainError}
use luminair_service_aws_dsq.Domain.Instance.{DocumentInstance}
use luminair_service_aws_dsq.Domain.Auth.{Role, UserRoleAssignment}
use luminair_service_aws_dsq.Domain.AccessRequest.{AccessRequest}
use luminair_service_aws_dsq.Application.Commands.{Pagination, FieldFilter}

pub record Page : Type 0 where
  pub items : List DocumentInstance
  pub total : ℕ
  pub page : ℕ
  pub page_size : ℕ

abbrev pub RelationMap : Type 0
RelationMap = HashMap AttributeId (HashMap DocumentInstanceId (List DocumentInstance))

pub record DocumentInstanceRepository (S : Type 0) : Type 0 where
  pub find_by_id :
      DocumentTypeId → DocumentInstanceId → S → Result DomainError (Option DocumentInstance)
  pub find_by_type : DocumentTypeId → Pagination → List FieldFilter → S → Result DomainError Page
  pub count : DocumentTypeId → List FieldFilter → S → Result DomainError ℕ
  pub fetch_relations :
      DocumentTypeId
      → List AttributeId
      → List DocumentInstanceId
      → S
      → Result DomainError RelationMap
  pub save : DocumentInstance → Stateful S DomainError (Unit {0})
  pub delete : DocumentTypeId → DocumentInstanceId → Stateful S DomainError (Unit {0})
  pub exists_for_type : DocumentTypeId → S → Result DomainError Bool

pub record RoleRepository (S : Type 0) : Type 0 where
  pub find_by_id : RoleId → S → Result DomainError (Option Role)
  pub find_by_ids : List RoleId → S → Result DomainError (List Role)

pub record UserRoleAssignmentRepository (S : Type 0) : Type 0 where
  pub find_by_user : UserId → S → Result DomainError (List UserRoleAssignment)
  pub save : UserRoleAssignment → Stateful S DomainError (Unit {0})
  pub save_all : List UserRoleAssignment → Stateful S DomainError (Unit {0})

pub record AccessRequestRepository (S : Type 0) : Type 0 where
  pub find_by_id : AccessRequestId → S → Result DomainError (Option AccessRequest)
  pub find_by_user : UserId → S → Result DomainError (Option AccessRequest)
  pub find_active_by_user : UserId → S → Result DomainError (Option AccessRequest)
  pub find_pending : S → Result DomainError (List AccessRequest)
  pub save : AccessRequest → Stateful S DomainError (Unit {0})

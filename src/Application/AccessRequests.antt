-- ===== src/Application/AccessRequests.antt =====
-- `AccessRequestsServiceImpl` (application/src/services/access_requests.rs) over any repositories
-- that share a store.
pub mod Reviews
use luminair_service_aws_dsq.Base.{
  ℕ, String, Bool, true, false, not, Option, none, some, List, [], ◌∷◌, contains, Result, ok, err,
  map_err, ok_or, Stateful, ◌==◌, nat_eq, string_eq, if◌then◌else◌,
}
use luminair_service_aws_dsq.Base.Store.{◌>>=◌, ◌>>◌, pure, lift}
use luminair_service_aws_dsq.Domain.Ids.{AccessRequestId, RoleId, UserId, DateTime, Uuid}
use luminair_service_aws_dsq.Domain.Errors.{
  DomainError, access_request_not_found, access_request_already_active,
}
use luminair_service_aws_dsq.Domain.Auth.{Role, UserRoleAssignment, manage_users}
use luminair_service_aws_dsq.Domain.AccessRequest
use luminair_service_aws_dsq.Domain.AccessRequest.{AccessRequest}
use luminair_service_aws_dsq.Application.Errors.{ApplicationError, domain, not_found}
use luminair_service_aws_dsq.Application.Context.{CallerContext, check_permission}
use luminair_service_aws_dsq.Application.Commands.{
  SubmitAccessRequestCommand, ApproveAccessRequestCommand, RejectAccessRequestCommand,
}
use luminair_service_aws_dsq.Application.Ports.{
  AccessRequestRepository, UserRoleAssignmentRepository, RoleRepository,
}
use luminair_service_aws_dsq.Application.Effects.{query, command, read}

-- The identifiers of the roles that the batch query finds.
abbrev pub found_ids : List Role → List RoleId
found_ids [] = []
found_ids (role ∷ rest) = role.id ∷ found_ids rest

-- The loop that rejects the first role that is missing.
unfoldable pub check_roles : List RoleId → List RoleId → Result ApplicationError (Unit {0})
check_roles existing [] = ok tt
check_roles existing (role ∷ rest) =
    let later = check_roles existing rest in
    if contains existing role then later else err (not_found "Role" role)

module _ {S : Type 0} (requests : AccessRequestRepository S)
    (assignments : UserRoleAssignmentRepository S) (roles : RoleRepository S) where
  abbrev pub find_request : AccessRequestId → S → Result ApplicationError AccessRequest
  find_request id s = elim (requests.find_by_id id s) [
    | ok found ↦ ok_or (domain (access_request_not_found id)) found
    | err e ↦ err (domain e)
  ]

  -- The check of `submit`: no active request is found.
  abbrev pub no_active : UserId → S → Result ApplicationError (Unit {0})
  no_active user s = elim (requests.find_active_by_user user s) [
    | ok none ↦ ok tt
    | ok (some _) ↦ err (domain (access_request_already_active user))
    | err e ↦ err (domain e)
  ]

  -- The check of `approve`: each role is found.
  abbrev pub all_found : List RoleId → S → Result ApplicationError (Unit {0})
  all_found ids s = elim (roles.find_by_ids ids s) [
    | ok existing ↦ check_roles (found_ids existing) ids
    | err e ↦ err (domain e)
  ]

  unfoldable pub submit :
      SubmitAccessRequestCommand
      → AccessRequestId
      → DateTime
      → Stateful S ApplicationError AccessRequest
  submit cmd id now = do
    read (no_active cmd.user_id)
    let request = AccessRequest.new id cmd.user_id cmd.email cmd.name now
    command (requests.save request)
    pure request

  unfoldable pub approve :
      CallerContext
      → ApproveAccessRequestCommand
      → (ℕ → Uuid)
      → DateTime
      → Stateful S ApplicationError (List UserRoleAssignment)
  approve caller cmd fresh now = do
    lift (check_permission caller manage_users none)
    request ← read (find_request cmd.request_id)
    read (all_found cmd.role_ids)
    let (outcome, reviewed) = AccessRequest.approve fresh caller.user_id cmd.role_ids now request
    grants ← lift (map_err domain outcome)
    command (assignments.save_all grants)
    command (requests.save reviewed)
    pure grants

  unfoldable pub reject :
      CallerContext
      → RejectAccessRequestCommand
      → DateTime
      → Stateful S ApplicationError AccessRequest
  reject caller cmd now = do
    lift (check_permission caller manage_users none)
    request ← read (find_request cmd.request_id)
    let (outcome, reviewed) = AccessRequest.reject caller.user_id cmd.reason now request
    lift (map_err domain outcome)
    command (requests.save reviewed)
    pure reviewed

  -- The requester may see the request, others need to manage users.
  unfoldable pub get_by_id :
      CallerContext → AccessRequestId → Stateful S ApplicationError AccessRequest
  get_by_id caller id = do
    request ← read (find_request id)
    lift (
        if request.user_id == caller.user_id
        then ok tt
        else check_permission caller manage_users none)
    pure request

  unfoldable list_pending : CallerContext → Stateful S ApplicationError (List AccessRequest)
  list_pending caller = do
    lift (check_permission caller manage_users none)
    query requests.find_pending

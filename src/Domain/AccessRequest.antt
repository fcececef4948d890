-- ===== src/Domain/AccessRequest.antt =====
-- Access requests (domain/src/auth/access_request.rs). The clock and the generator of identifiers
-- are arguments: `fresh i` is the identifier that the i-th call of `Uuid::now_v7` yields.
pub mod Review
pub mod Sequence
use luminair_service_aws_dsq.Base.{
  ℕ, suc, ltb, Bool, true, false, Option, none, some, List, [], ◌∷◌, String, length, is_empty,
  Stateful, ok, err, if◌then◌else◌,
}
use luminair_service_aws_dsq.Domain.Ids.{
  AccessRequestId, UserId, Email, DisplayName, DateTime, RoleId, Uuid,
}
use luminair_service_aws_dsq.Domain.Status.{
  AccessRequestStatus, pending, approved, rejected, is_pending,
}
use luminair_service_aws_dsq.Domain.Errors.{
  DomainError, invalid_state_transition, validation, cannot_approve, cannot_reject, no_roles,
  too_many_roles,
}
use luminair_service_aws_dsq.Domain.Auth.{UserRoleAssignment}

pub record AccessRequest : Type 0 where
  pub id : AccessRequestId
  pub user_id : UserId
  pub email : Option Email
  pub name : Option DisplayName
  pub requested_at : DateTime
  pub status : AccessRequestStatus
  pub reviewed_by : Option UserId
  pub reviewed_at : Option DateTime
  pub assigned_roles : List RoleId

abbrev pub max_roles : ℕ
max_roles = 50

unfoldable pub new :
    AccessRequestId → UserId → Option Email → Option DisplayName → DateTime → AccessRequest
new id user_id email name now = record {
  id = id;
  user_id = user_id;
  email = email;
  name = name;
  requested_at = now;
  status = pending;
  reviewed_by = none;
  reviewed_at = none;
  assigned_roles = [];
}

-- The `map` over the roles, from the i-th identifier on.
unfoldable pub assign :
    (ℕ → Uuid) → ℕ → UserId → UserId → DateTime → List RoleId → List UserRoleAssignment
assign fresh i user by now [] = []
assign fresh i user by now (role ∷ roles) =
    record { id = fresh i; user_id = user; role_id = role; granted_at = now; granted_by = some by }
    ∷ assign fresh (suc i) user by now roles

unfoldable pub approve :
    (ℕ → Uuid)
    → UserId
    → List RoleId
    → DateTime
    → Stateful AccessRequest DomainError (List UserRoleAssignment)
approve fresh by roles now request =
    if is_pending request.status
    then if is_empty roles
      then (err (validation no_roles), request)
      else if ltb max_roles (length roles)
      then (err (validation (too_many_roles max_roles (length roles))), request)
      else (
        ok (assign fresh 0 request.user_id by now roles),
        record request {
          status = approved;
          reviewed_by = some by;
          reviewed_at = some now;
          assigned_roles = roles;
        },
      )
    else (err (invalid_state_transition (cannot_approve request.status)), request)

unfoldable pub reject :
    UserId → Option String → DateTime → Stateful AccessRequest DomainError (Unit {0})
reject by reason now request =
    if is_pending request.status
    then (
      ok tt,
      record request { status = rejected reason; reviewed_by = some by; reviewed_at = some now },
    )
    else (err (invalid_state_transition (cannot_reject request.status)), request)

unfoldable pub is_active : AccessRequest → Bool
is_active request = elim (request.status) [ pending ↦ true | approved ↦ true | rejected _ ↦ false ]

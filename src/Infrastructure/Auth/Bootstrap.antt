-- ===== src/Infrastructure/Auth/Bootstrap.antt =====
-- The bootstrap of the first administrator (infrastructure/src/auth/bootstrap.rs).
use luminair_service_aws_dsq.Base.{
  String, Bool, true, false, Option, none, some, List, [], ◌∷◌, ◌==◌, nat_eq, string_eq, any,
  Result, map_err, Stateful, if◌then◌else◌,
}
use luminair_service_aws_dsq.Base.Text.{trim}
use luminair_service_aws_dsq.Base.Store.{◌>>=◌, ◌>>◌, pure, lift}
use luminair_service_aws_dsq.Domain.Ids.{
  UserId, RoleId, AccessRequestId, UserRoleAssignmentId, DateTime, DisplayName,
}
use luminair_service_aws_dsq.Domain.Auth.{UserRoleAssignment}
use luminair_service_aws_dsq.Domain.AccessRequest.{AccessRequest}
use luminair_service_aws_dsq.Domain.Status.{approved}
use luminair_service_aws_dsq.Domain.Errors.{DomainError}
use luminair_service_aws_dsq.Application.Ports.{
  UserRoleAssignmentRepository, AccessRequestRepository,
}
use luminair_service_aws_dsq.Infrastructure.Http.Errors.{AuthError, bootstrap, invalid_subject}
use luminair_service_aws_dsq.Infrastructure.Auth.Resolver.{Upsert, stored}

-- The two settings that are read.
pub record AuthConfig : Type 0 where
  pub bootstrap_admin_sub : Option String
  pub bootstrap_auth_type : String

-- The identifiers and the instants of one run.
pub record Fresh : Type 0 where
  pub request_id : AccessRequestId
  pub assignment_id : UserRoleAssignmentId
  pub requested_at : DateTime
  pub reviewed_at : DateTime
  pub granted_at : DateTime

-- The trimmed subject, if there is one.
abbrev pub admin_subject : AuthConfig → Option String
admin_subject config = elim config.bootstrap_admin_sub [
  | none ↦ none
  | some sub ↦ if trim sub == "" then none else some (trim sub)
]

abbrev pub approved_request : RoleId → Option DisplayName → Fresh → UserId → AccessRequest
approved_request admin_role name fresh user = record {
  id = fresh.request_id;
  user_id = user;
  email = none;
  name = name;
  requested_at = fresh.requested_at;
  status = approved;
  reviewed_by = some user;
  reviewed_at = some fresh.reviewed_at;
  assigned_roles = admin_role ∷ [];
}

abbrev pub admin_assignment : RoleId → Fresh → UserId → UserRoleAssignment
admin_assignment admin_role fresh user = record {
  id = fresh.assignment_id;
  user_id = user;
  role_id = admin_role;
  granted_at = fresh.granted_at;
  granted_by = none;
}

abbrev pub has_role : RoleId → List UserRoleAssignment → Bool
has_role role assignments = any (λ a. a.role_id == role) assignments

-- A query, and a command, whose error becomes a storage error.
abbrev pub ask : {S A : Type 0} → (S → Result DomainError A) → Stateful S AuthError A
ask q s = (stored (q s), s)

abbrev pub tell : {S A : Type 0} → Stateful S DomainError A → Stateful S AuthError A
tell c s = let (r, s') = c s in (stored r, s')

module _ {S : Type 0} (assignment_repo : UserRoleAssignmentRepository S)
    (access_request_repo : AccessRequestRepository S) (upsert : Upsert S)
    (try_user_id : String → Result String UserId) (admin_role : RoleId)
    (admin_name : Option DisplayName) where
  -- The approved request for the audit trail, unless the user has a request.
  abbrev pub save_request : Fresh → UserId → Option AccessRequest → Stateful S AuthError (Unit {0})
  save_request fresh user (some _) = pure tt
  save_request fresh user none =
      tell (access_request_repo.save (approved_request admin_role admin_name fresh user))

  -- What follows the check for an assignment.
  unfoldable pub seed : AuthConfig → Fresh → String → UserId → Stateful S AuthError Bool
  seed config fresh subject user = do
    upsert subject none (some "Bootstrap Admin") (some config.bootstrap_auth_type)
    existing_request ← ask (access_request_repo.find_by_user user)
    save_request fresh user existing_request
    tell (assignment_repo.save (admin_assignment admin_role fresh user))
    pure true

  unfoldable pub seed_unless_assigned :
      AuthConfig → Fresh → String → UserId → Stateful S AuthError Bool
  seed_unless_assigned config fresh subject user = do
    existing ← ask (assignment_repo.find_by_user user)
    if has_role admin_role existing then pure false else seed config fresh subject user

  abbrev pub bootstrap_as : AuthConfig → Fresh → Option String → Stateful S AuthError Bool
  bootstrap_as config fresh none = pure false
  bootstrap_as config fresh (some subject) =
      lift (map_err (λ e. bootstrap (invalid_subject subject e)) (try_user_id subject))
      >>= seed_unless_assigned config fresh subject

  unfoldable pub run_bootstrap : AuthConfig → Fresh → Stateful S AuthError Bool
  run_bootstrap config fresh = bootstrap_as config fresh (admin_subject config)

-- ===== src/Infrastructure/Auth/Resolver.antt =====
-- The resolution of a caller (infrastructure/src/auth/resolver.rs).
use luminair_service_aws_dsq.Base.{
  String, Option, none, some, List, [], ◌∷◌, is_empty, Result, ok, err, map_err, Stateful,
  if◌then◌else◌,
}
use luminair_service_aws_dsq.Base.Fallible.{◌>>=◌}
use luminair_service_aws_dsq.Domain.Ids.{UserId}
use luminair_service_aws_dsq.Domain.Auth.{Role, UserRoleAssignment}
use luminair_service_aws_dsq.Domain.AccessRequest.{AccessRequest}
use luminair_service_aws_dsq.Domain.Status.{pending, approved, rejected}
use luminair_service_aws_dsq.Domain.Errors.{DomainError}
use luminair_service_aws_dsq.Application.Context.{CallerContext}
use luminair_service_aws_dsq.Application.Ports.{
  RoleRepository, UserRoleAssignmentRepository, AccessRequestRepository,
}
use luminair_service_aws_dsq.Infrastructure.Http.Errors.{
  AuthError, storage, of_domain, access_pending, access_rejected, access_not_requested,
}
use luminair_service_aws_dsq.Infrastructure.Auth.Claims.{Claims, user_id}

-- `SqlxShadowUserRepository::upsert`, which writes SQL: subject, e-mail, name and authentication type.
abbrev pub Upsert : Type 0 → Type 0
Upsert S = String → Option String → Option String → Option String → Stateful S AuthError (Unit {0})

-- `map_err(|e| AuthError::Storage(e.to_string()))`
abbrev pub stored : {A : Type 0} → Result DomainError A → Result AuthError A
stored r = map_err (λ e. storage (of_domain e)) r

module _ {S : Type 0} (assignment_repo : UserRoleAssignmentRepository S)
    (role_repo : RoleRepository S) (access_request_repo : AccessRequestRepository S)
    (upsert : Upsert S) (try_user_id : String → Result String UserId) where
  -- The loop over the assignments: a role that is not found is left out.
  unfoldable pub collect_roles : S → List UserRoleAssignment → Result AuthError (List Role)
  collect_roles s [] = ok []
  collect_roles s (assignment ∷ rest) =
      stored (role_repo.find_by_id assignment.role_id s) >>= λ found.
      collect_roles s rest >>= λ roles. ok (elim found [ none ↦ roles | some role ↦ role ∷ roles ])

  -- The last step, where the user has no role: what became of the access request.
  abbrev pub enrollment : Option AccessRequest → AuthError
  enrollment none = access_not_requested
  enrollment (some req) = elim req.status [
    | pending ↦ access_pending
    | rejected reason ↦ access_rejected reason
    | approved ↦ access_pending
  ]

  -- The reads, on the store that the upsert leaves.
  unfoldable pub resolve_roles : UserId → S → Result AuthError CallerContext
  resolve_roles user s = stored (assignment_repo.find_by_user user s) >>= λ assignments.
      collect_roles s assignments >>= λ roles.
      if is_empty roles
      then (stored (access_request_repo.find_by_user user s) >>= λ request.
          err (enrollment request))
      else ok (record { user_id = user; roles = roles })

  -- The outcome of the upsert is ignored.
  abbrev pub context_for : Claims → S → Result AuthError UserId → Result AuthError CallerContext × S
  context_for claims s (err e) = (err e, s)
  context_for claims s (ok user) =
      let seen = (upsert claims.sub claims.email claims.name none s).1 in
      (resolve_roles user seen, seen)

  unfoldable pub resolve_context : Claims → Stateful S AuthError CallerContext
  resolve_context claims s = context_for claims s (user_id try_user_id claims)

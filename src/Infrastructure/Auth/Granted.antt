-- ===== src/Infrastructure/Auth/Granted.antt =====
-- The roles of a resolved caller (infrastructure/src/auth/resolver.rs).
use luminair_service_aws_dsq.Base.{
  String, false, Option, none, some, List, [], ◌∷◌, ◌≡◌, ◌⊎◌, refl, inl, inr, is_empty, All,
  All-map, if-holds, Result, ok, err,
}
use luminair_service_aws_dsq.Base.Fallible.{Yields, any_value, bind-Yields, Yields-ok}
use luminair_service_aws_dsq.Domain.Ids.{UserId}
use luminair_service_aws_dsq.Domain.Auth.{Role, UserRoleAssignment}
use luminair_service_aws_dsq.Domain.Errors.{DomainError}
use luminair_service_aws_dsq.Application.Context.{CallerContext}
use luminair_service_aws_dsq.Application.Ports.{
  RoleRepository, UserRoleAssignmentRepository, AccessRequestRepository,
}
use luminair_service_aws_dsq.Infrastructure.Http.Errors.{AuthError}
use luminair_service_aws_dsq.Infrastructure.Auth.Claims.{Claims, user_id}
use luminair_service_aws_dsq.Infrastructure.Auth.Resolver.{
  Upsert, stored, collect_roles, resolve_roles, context_for, resolve_context,
}

stored-same : {A : Type 0} (r : Result DomainError A) → Yields (λ a. r ≡ ok a) (stored r)
stored-same (ok a) = refl
stored-same (err e) = tt

module _ {S : Type 0} (assignment_repo : UserRoleAssignmentRepository S)
    (role_repo : RoleRepository S) (access_request_repo : AccessRequestRepository S)
    (upsert : Upsert S) (try_user_id : String → Result String UserId) where
  -- The store has the role of one of the assignments.
  abbrev pub IsRoleOf : S → List UserRoleAssignment → Role → Type 0
  IsRoleOf s [] role = ⊥
  IsRoleOf s (a ∷ assignments) role =
      (role_repo.find_by_id a.role_id s ≡ ok (some role)) ⊎ IsRoleOf s assignments role

  collect_roles-Yields :
      (s : S) (assignments : List UserRoleAssignment)
      → Yields (All (IsRoleOf s assignments)) (
          collect_roles assignment_repo role_repo access_request_repo upsert try_user_id s
            assignments)
  unfolding collect_roles
  collect_roles-Yields s [] = tt
  collect_roles-Yields s (a ∷ rest) =
      bind-Yields (λ found. role_repo.find_by_id a.role_id s ≡ ok found)
        (All (IsRoleOf s (a ∷ rest))) (stored (role_repo.find_by_id a.role_id s)) _
        (stored-same (role_repo.find_by_id a.role_id s))
        λ found same.
          bind-Yields (All (IsRoleOf s rest)) (All (IsRoleOf s (a ∷ rest)))
            (collect_roles assignment_repo role_repo access_request_repo upsert try_user_id s rest)
            _ (collect_roles-Yields s rest)
            λ roles h. with_found found roles same (All-map (λ role. inr) roles h)
    where
      with_found :
          (found : Option Role) (roles : List Role)
          → role_repo.find_by_id a.role_id s ≡ ok found
          → All (IsRoleOf s (a ∷ rest)) roles
          → All (IsRoleOf s (a ∷ rest)) (elim found [ none ↦ roles | some role ↦ role ∷ roles ])
      with_found none roles same h = h
      with_found (some role) roles same h = (inl same, h)

  -- The caller is the user, with at least one role, each of them assigned to the user and found.
  pub record IsGranted (user : UserId) (s : S) (caller : CallerContext) : Type 0 where
    pub same_user : caller.user_id ≡ user
    pub has_roles : is_empty caller.roles ≡ false
    pub assignments : List UserRoleAssignment
    pub assigned : assignment_repo.find_by_user user s ≡ ok assignments
    pub granted : All (IsRoleOf s assignments) caller.roles

  resolve_roles-Yields :
      (user : UserId) (s : S)
      → Yields
          (IsGranted user s)
          (resolve_roles assignment_repo role_repo access_request_repo upsert try_user_id user s)
  unfolding resolve_roles
  resolve_roles-Yields user s =
      bind-Yields (λ assignments. assignment_repo.find_by_user user s ≡ ok assignments)
        (IsGranted user s) (stored (assignment_repo.find_by_user user s)) _
        (stored-same (assignment_repo.find_by_user user s))
        λ assignments assigned.
          bind-Yields (All (IsRoleOf s assignments)) (IsGranted user s)
            (collect_roles assignment_repo role_repo access_request_repo upsert try_user_id s
              assignments)
            _ (collect_roles-Yields s assignments)
            λ roles granted.
              if-holds (Yields (IsGranted user s)) (is_empty roles) _ _
                (λ nobody.
                  any_value (IsGranted user s) (stored (access_request_repo.find_by_user user s)) _
                    λ request. tt)
                (λ somebody. record {
                  same_user = refl;
                  has_roles = somebody;
                  assignments = assignments;
                  assigned = assigned;
                  granted = granted;
                })

  context_for-IsGranted :
      (claims : Claims) (s : S) (caller : CallerContext) (r : Result AuthError UserId)
      → (context_for assignment_repo role_repo access_request_repo upsert try_user_id claims s r).0
        ≡ ok caller
      → (user : UserId) × (r ≡ ok user)
        × IsGranted user
            (context_for assignment_repo role_repo access_request_repo upsert try_user_id claims s
              r).1
            caller
  context_for-IsGranted claims s caller (err e) h = cc h
  context_for-IsGranted claims s caller (ok user) h =
      let seen = (upsert claims.sub claims.email claims.name none s).1 in
      (
        user,
        refl,
        Yields-ok (IsGranted user seen)
            (resolve_roles assignment_repo role_repo access_request_repo upsert try_user_id user
              seen)
            caller (resolve_roles-Yields user seen) h,
      )

  -- A caller that is resolved is the user of the claims' subject, with at least one role, and each of
  -- its roles is found for an assignment of that user, in the store that the call leaves.
  pub resolve_context-IsGranted :
      (claims : Claims) (s : S) (caller : CallerContext)
      → (resolve_context assignment_repo role_repo access_request_repo upsert try_user_id claims
          s).0
        ≡ ok caller
      → (user : UserId) × (user_id try_user_id claims ≡ ok user)
        × IsGranted user
            (resolve_context assignment_repo role_repo access_request_repo upsert try_user_id claims
              s).1
            caller
  unfolding resolve_context
  resolve_context-IsGranted claims s caller =
      context_for-IsGranted claims s caller (user_id try_user_id claims)

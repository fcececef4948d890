-- ===== src/Domain/AccessRequest/Review.antt =====
-- When a review of an access request succeeds, and what it leaves.
use luminair_service_aws_dsq.Base.{
  ℕ, suc, ◌≤◌, ◌≡◌, refl, true, some, List, [], ◌∷◌, length, Result, ok, err, All, ap, Bool-cases,
  inl, inr, ltb, is_empty, arith,
}
use luminair_service_aws_dsq.Domain.Ids.{UserId, DateTime, RoleId, Uuid}
use luminair_service_aws_dsq.Domain.Status.{
  AccessRequestStatus, pending, approved, rejected, is_pending,
}
use luminair_service_aws_dsq.Domain.Errors.{DomainError}
use luminair_service_aws_dsq.Domain.Auth.{UserRoleAssignment}
use luminair_service_aws_dsq.Domain.AccessRequest.{AccessRequest, max_roles, assign, approve}

pub role_ids : List UserRoleAssignment → List RoleId
role_ids [] = []
role_ids (a ∷ rest) = a.role_id ∷ role_ids rest

-- An assignment of the user, granted by the reviewer at the time of the review.
pub record IsGrantOf (user by : UserId) (now : DateTime) (a : UserRoleAssignment) : Type 0 where
  pub to : a.user_id ≡ user
  pub granted : a.granted_by ≡ some by
  pub dated : a.granted_at ≡ now

role_ids-assign :
    (fresh : ℕ → Uuid) (i : ℕ) (user by : UserId) (now : DateTime) (roles : List RoleId)
    → role_ids (assign fresh i user by now roles) ≡ roles
unfolding role_ids assign
role_ids-assign fresh i user by now [] = refl
role_ids-assign fresh i user by now (role ∷ roles) =
    ap (λ l. role ∷ l) (role_ids-assign fresh (suc i) user by now roles)

assign-IsGrantOf :
    (fresh : ℕ → Uuid) (i : ℕ) (user by : UserId) (now : DateTime) (roles : List RoleId)
    → All (IsGrantOf user by now) (assign fresh i user by now roles)
unfolding assign
assign-IsGrantOf fresh i user by now [] = tt
assign-IsGrantOf fresh i user by now (role ∷ roles) = (
  record { to = refl; granted = refl; dated = refl },
  assign-IsGrantOf fresh (suc i) user by now roles,
)

pending_of : (s : AccessRequestStatus) → is_pending s ≡ true → s ≡ pending
pending_of pending h = refl
pending_of approved h = cc
pending_of (rejected reason) h = cc

abbrev pub IsApprovable : AccessRequest → List RoleId → Type 0
IsApprovable request roles =
    (request.status ≡ pending) × (1 ≤ length roles) × (length roles ≤ max_roles)

-- What `approve` owes its caller, by its result.
abbrev pub ApprovalOf :
    UserId
    → List RoleId
    → DateTime
    → AccessRequest
    → Result DomainError (List UserRoleAssignment) × AccessRequest
    → Type 0
ApprovalOf by roles now request (ok grants, after) =
    IsApprovable request roles
    × (role_ids grants ≡ roles)
    × All (IsGrantOf request.user_id by now) grants
    × (after ≡ record request {
      status = approved;
      reviewed_by = some by;
      reviewed_at = some now;
      assigned_roles = roles;
    })
ApprovalOf by roles now request (err e, after) =
    (IsApprovable request roles → ⊥) × (after ≡ request)

-- `approve` succeeds exactly on a pending request with 1 to 50 roles. It then returns one grant for
-- each role, in their order, made out to the requester by the reviewer, and marks the request
-- approved; otherwise the request stays as it was.
pub approve-ApprovalOf :
    (fresh : ℕ → Uuid) (by : UserId) (roles : List RoleId) (now : DateTime)
    (request : AccessRequest)
    → ApprovalOf by roles now request (approve fresh by roles now request)
unfolding approve
approve-ApprovalOf fresh by roles now request = elim (Bool-cases (is_pending request.status)) [
  | inl opened ↦ elim (Bool-cases (is_empty roles)) [
    | inl bare ↦ rw (opened, bare) (λ (_, some_role, _). ground arith, refl)
    | inr given ↦ elim (Bool-cases (ltb max_roles (length roles))) [
      | inl many ↦ rw (opened, given, many) (λ (_, _, few). ground arith, refl)
      | inr few ↦
          rw (opened, given, few)
            (
              (pending_of request.status opened, ground arith, ground arith),
              role_ids-assign fresh 0 request.user_id by now roles,
              assign-IsGrantOf fresh 0 request.user_id by now roles,
              refl,
            )
    ]
  ]
  | inr closed ↦ rw closed (λ (still, _, _). ground arith, refl)
]

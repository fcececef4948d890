-- ===== src/Application/AccessRequests/Reviews.antt =====
-- What the access request service does to the store, and for whom.
use luminair_service_aws_dsq.Base.{
  ℕ, true, none, List, [], ◌∷◌, contains, Result, ok, err, map_err, ◌≡◌, refl, ap, ◌∙◌, ◌⊎◌, inl,
  inr, ◌==◌, nat_eq, string_eq, if◌then◌else◌, All, Bool-cases, arith,
}
use luminair_service_aws_dsq.Domain.Ids.{AccessRequestId, RoleId, DateTime, Uuid}
use luminair_service_aws_dsq.Domain.Errors.{DomainError}
use luminair_service_aws_dsq.Domain.Auth.{Role, UserRoleAssignment, manage_users}
use luminair_service_aws_dsq.Domain.AccessRequest
use luminair_service_aws_dsq.Domain.AccessRequest.{AccessRequest}
use luminair_service_aws_dsq.Application.Errors.{ApplicationError, domain}
use luminair_service_aws_dsq.Application.Context.{
  CallerContext, caller_can, check_permission, check_permission-ok,
}
use luminair_service_aws_dsq.Application.Commands.{
  SubmitAccessRequestCommand, ApproveAccessRequestCommand, RejectAccessRequestCommand,
}
use luminair_service_aws_dsq.Application.Ports.{
  AccessRequestRepository, UserRoleAssignmentRepository, RoleRepository,
}
use luminair_service_aws_dsq.Application.Effects.{then_at, read_step_to, command, then_at-ok}
use luminair_service_aws_dsq.Base.Store.{◌>>◌, pure}
use luminair_service_aws_dsq.Application.AccessRequests.{
  found_ids, check_roles, find_request, no_active, all_found, submit, approve, reject, get_by_id,
}

check_roles-All :
    (existing ids : List RoleId) (u : Unit {0})
    → check_roles existing ids ≡ ok u
    → All (λ id. contains existing id ≡ true) ids
unfolding check_roles
check_roles-All existing [] u h = tt
check_roles-All existing (id ∷ rest) u h = elim (Bool-cases (contains existing id)) [
  | inl here ↦ (here, check_roles-All existing rest u (ground arith))
  | inr missing ↦ absurd (ground arith)
]

outcome_ok : {A : Type 0} {a : A} (r : Result DomainError A) → map_err domain r ≡ ok a → r ≡ ok a
outcome_ok (ok b) h = ground arith
outcome_ok (err e) h = absurd (ground arith)

-- A last save, whatever its outcome.
last_save :
    {S A : Type 0} (r : Result ApplicationError (Unit {0})) (a : A) (t : S)
    → (then_at r (λ _. (ok a, t)) t).1 ≡ t
last_save (ok u) a t = refl
last_save (err e) a t = refl

module _ {S : Type 0} (requests : AccessRequestRepository S) (reviewed : AccessRequest) where
  -- The request is saved only after a save that succeeded.
  abbrev pub SavedAfter : Result DomainError (Unit {0}) × S → S → Type 0
  SavedAfter (ok _, middle) t = t ≡ (requests.save reviewed middle).1
  SavedAfter (err _, middle) t = t ≡ middle

  saves_in_order :
      (r : Result DomainError (Unit {0})) (grants : List UserRoleAssignment) (middle : S)
      → SavedAfter
          (r, middle)
          (then_at
            (map_err domain r)
            (λ _. (command (requests.save reviewed) >> pure grants) middle)
            middle).1
  saves_in_order (ok u) grants middle =
      let q = requests.save reviewed middle in last_save (map_err domain q.0) grants q.1
  saves_in_order (err e) grants middle = refl

module _ {S : Type 0} (requests : AccessRequestRepository S)
    (assignments : UserRoleAssignmentRepository S) (roles : RoleRepository S) where
  -- `submit` leaves the store alone or makes one save, of a new pending request of the user, and
  -- that only when the repository has found no active request of that user.
  pub submit-changes :
      (cmd : SubmitAccessRequestCommand) (id : AccessRequestId) (now : DateTime) (s : S)
      → ((submit requests assignments roles cmd id now s).1 ≡ s)
        ⊎ ((requests.find_active_by_user cmd.user_id s ≡ ok none)
            × ((submit requests assignments roles cmd id now s).1
                ≡ (requests.save (AccessRequest.new id cmd.user_id cmd.email cmd.name now) s).1))
  unfolding submit
  submit-changes cmd id now s =
      let W : S → Type 0 = λ t.
        (requests.find_active_by_user cmd.user_id s ≡ ok none)
        × (t ≡ (requests.save (AccessRequest.new id cmd.user_id cmd.email cmd.name now) s).1) in
      let q = requests.save (AccessRequest.new id cmd.user_id cmd.email cmd.name now) s in
      read_step_to W s (no_active requests assignments roles cmd.user_id s) _
        λ _ none_active. inr (ground arith, last_save (map_err domain q.0) _ q.1)

  -- What `approve` requires before it writes: the permission, a stored request, every role stored,
  -- and the request's own approval.
  pub record IsApproval (caller : CallerContext) (cmd : ApproveAccessRequestCommand)
      (fresh : ℕ → Uuid) (now : DateTime) (s : S) : Type 0 where
    pub allowed : caller_can caller manage_users none ≡ true
    pub request : AccessRequest
    pub found : find_request requests assignments roles cmd.request_id s ≡ ok request
    pub existing : List Role
    pub looked_up : roles.find_by_ids cmd.role_ids s ≡ ok existing
    pub all_exist : All (λ id. contains (found_ids existing) id ≡ true) cmd.role_ids
    pub grants : List UserRoleAssignment
    pub reviewed : AccessRequest
    pub made :
        AccessRequest.approve fresh caller.user_id cmd.role_ids now request ≡ (ok grants, reviewed)

  all_found-All :
      (ids : List RoleId) (s : S) (u : Unit {0})
      → all_found requests assignments roles ids s ≡ ok u
      → (existing : List Role) × (roles.find_by_ids ids s ≡ ok existing)
        × All (λ id. contains (found_ids existing) id ≡ true) ids
  all_found-All ids s u h = go (roles.find_by_ids ids s) refl
    where
      go :
          (r : Result DomainError (List Role))
          → roles.find_by_ids ids s ≡ r
          → (existing : List Role) × (roles.find_by_ids ids s ≡ ok existing)
            × All (λ id. contains (found_ids existing) id ≡ true) ids
      go (ok existing) e =
          (existing, e, check_roles-All (found_ids existing) ids u (rw (e, all_found) at h))
      go (err x) e = absurd (ground arith)

  -- `approve` leaves the store alone, or it saves the grants that the approval makes, and then, if
  -- that save succeeds, the reviewed request. It gets there only for a caller who may manage
  -- users, on a stored request, when the repository has found every role that is asked for.
  pub approve-changes :
      (caller : CallerContext) (cmd : ApproveAccessRequestCommand) (fresh : ℕ → Uuid)
      (now : DateTime) (s : S)
      → ((approve requests assignments roles caller cmd fresh now s).1 ≡ s)
        ⊎ ((a : IsApproval caller cmd fresh now s) × SavedAfter requests a.reviewed
              (assignments.save_all a.grants s)
              (approve requests assignments roles caller cmd fresh now s).1)
  unfolding approve
  approve-changes caller cmd fresh now s =
      let W : S → Type 0 = λ t.
        (a : IsApproval caller cmd fresh now s) × SavedAfter requests a.reviewed
          (assignments.save_all a.grants s) t in
      read_step_to W s (check_permission caller manage_users none) _ λ _ permitted.
        read_step_to W s (find_request requests assignments roles cmd.request_id s) _
          λ request found.
            read_step_to W s (all_found requests assignments roles cmd.role_ids s) _ λ _ all.
              let q = AccessRequest.approve fresh caller.user_id cmd.role_ids now request in
              let (existing, looked_up, present) = all_found-All cmd.role_ids s _ all in
              read_step_to W s (map_err domain q.0) _ λ grants made. inr (
                record {
                  allowed = check_permission-ok caller _ none _ permitted;
                  request = request;
                  found = found;
                  existing = existing;
                  looked_up = looked_up;
                  all_exist = present;
                  grants = grants;
                  reviewed = q.1;
                  made = ap (λ r. (r, q.1)) (outcome_ok q.0 made);
                },
                saves_in_order requests q.1 (assignments.save_all grants s).0 grants
                    (assignments.save_all grants s).1,
              )

  -- `reject` leaves the store alone or makes one save: of a pending request, marked rejected, by a
  -- caller who may manage users.
  pub reject-changes :
      (caller : CallerContext) (cmd : RejectAccessRequestCommand) (now : DateTime) (s : S)
      → ((reject requests assignments roles caller cmd now s).1 ≡ s)
        ⊎ ((caller_can caller manage_users none ≡ true)
            × ((request : AccessRequest) × (find_request requests assignments roles cmd.request_id s
                  ≡ ok request)
                × ((AccessRequest.reject caller.user_id cmd.reason now request).0 ≡ ok tt)
                × ((reject requests assignments roles caller cmd now s).1
                    ≡ (requests.save
                        (AccessRequest.reject caller.user_id cmd.reason now request).1
                        s).1)))
  unfolding reject
  reject-changes caller cmd now s =
      let W : S → Type 0 = λ t.
        (caller_can caller manage_users none ≡ true)
        × ((request : AccessRequest) × (find_request requests assignments roles cmd.request_id s
              ≡ ok request)
            × ((AccessRequest.reject caller.user_id cmd.reason now request).0 ≡ ok tt)
            × (t
                ≡ (requests.save (AccessRequest.reject caller.user_id cmd.reason now request).1
                    s).1)) in
      read_step_to W s (check_permission caller manage_users none) _ λ _ permitted.
        read_step_to W s (find_request requests assignments roles cmd.request_id s) _
          λ request found.
            let q = AccessRequest.reject caller.user_id cmd.reason now request in
            read_step_to W s (map_err domain q.0) _ λ _ done.
              let saved = requests.save q.1 s in
              inr (
                check_permission-ok caller _ none _ permitted,
                (
                  request,
                  found,
                  outcome_ok q.0 done,
                  last_save (map_err domain saved.0) q.1 saved.1,
                ),
              )

  -- A request that `get_by_id` returns is the stored one, and the caller is its requester or may
  -- manage users.
  pub get_by_id-allowed :
      (caller : CallerContext) (id : AccessRequestId) (s : S) (request : AccessRequest)
      → (get_by_id requests assignments roles caller id s).0 ≡ ok request
      → (find_request requests assignments roles id s ≡ ok request)
        × ((request.user_id ≡ caller.user_id) ⊎ (caller_can caller manage_users none ≡ true))
  unfolding get_by_id
  get_by_id-allowed caller id s request h =
      let (stored, found, rest) = then_at-ok (find_request requests assignments roles id s) _ s h in
      let (_, permitted, same) =
        then_at-ok
          (if stored.user_id == caller.user_id
            then ok tt
            else check_permission caller manage_users none)
          _ s rest in
      let e : stored ≡ request = ground arith in
      (
        found ∙ ap ok e,
        elim (string_eq.dec stored.user_id caller.user_id) [
          | yes own ↦ inl (rw (← e) own)
          | no other ↦ inr (check_permission-ok caller manage_users none tt (ground arith))
        ],
      )

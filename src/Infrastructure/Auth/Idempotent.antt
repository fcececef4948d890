-- ===== src/Infrastructure/Auth/Idempotent.antt =====
-- A second bootstrap (infrastructure/src/auth/bootstrap.rs).
use luminair_service_aws_dsq.Base.{
  String, Bool, true, false, Option, none, some, List, ◌≡◌, ◌∙◌, refl, ap, subst, arith, Result, ok,
  err, map_err, Stateful, if-holds, if◌then◌else◌,
}
use luminair_service_aws_dsq.Base.Store.{◌>>=◌, ◌>>◌, pure, lift}
use luminair_service_aws_dsq.Domain.Ids.{UserId, RoleId, DisplayName}
use luminair_service_aws_dsq.Domain.Auth.{UserRoleAssignment}
use luminair_service_aws_dsq.Domain.AccessRequest.{AccessRequest}
use luminair_service_aws_dsq.Domain.Errors.{DomainError}
use luminair_service_aws_dsq.Application.Ports.{
  UserRoleAssignmentRepository, AccessRequestRepository,
}
use luminair_service_aws_dsq.Infrastructure.Http.Errors.{AuthError, bootstrap, invalid_subject}
use luminair_service_aws_dsq.Infrastructure.Auth.Resolver.{Upsert, stored}
use luminair_service_aws_dsq.Infrastructure.Auth.Bootstrap.{
  AuthConfig, Fresh, admin_subject, admin_assignment, has_role, ask, tell, save_request, seed,
  seed_unless_assigned, bootstrap_as, run_bootstrap,
}

module _ {S : Type 0} where
  -- A sequence that succeeds has a first step that succeeds.
  first_step :
      {A B : Type 0} (m : Stateful S AuthError A) (next : A → Stateful S AuthError B) (s t : S)
      (b : B)
      → (m >>= next) s ≡ (ok b, t)
      → (a : A) × (middle : S) × (m s ≡ (ok a, middle)) × (next a middle ≡ (ok b, t))
  first_step {A} {B} m next s t b = split (m s)
    where
      split :
          (p : Result AuthError A × S)
          → ◌≡◌ {A = Result AuthError B × S}
              (elim p.0 [ ok a ↦ next a p.1 | err e ↦ (err e, p.1) ])
              (ok b, t)
          → (a : A) × (middle : S) × (p ≡ (ok a, middle)) × (next a middle ≡ (ok b, t))
      split (ok a, middle) h = (a, middle, refl, h)
      split (err e, middle) h = cc h

  -- After a query that answers, the sequence goes on in the same store.
  after_ask :
      {A B : Type 0} (q : S → Result DomainError A) (next : A → Stateful S AuthError B) (s : S)
      (a : A)
      → q s ≡ ok a
      → (ask q >>= next) s ≡ next a s
  after_ask {A} {B} q next s a h = ap (λ (r : Result DomainError A). continue_with (stored r)) h
    where
      continue_with : Result AuthError A → Result AuthError B × S
      continue_with r = elim r [ ok x ↦ next x s | err e ↦ (err e, s) ]

  ask-answers :
      {A : Type 0} (q : S → Result DomainError A) (s t : S) (a : A)
      → ◌≡◌ {A = Result AuthError A × S} (ask q s) (ok a, t)
      → (q s ≡ ok a) × (s ≡ t)
  ask-answers {A} q s t a = at (q s)
    where
      at :
          (r : Result DomainError A)
          → ◌≡◌ {A = Result AuthError A × S} (stored r, s) (ok a, t)
          → (r ≡ ok a) × (s ≡ t)
      at (ok x) h = (cc h, ap (λ (p : Result AuthError A × S). p.1) h)
      at (err e) h = cc h

-- `save` stores the assignment, so that the user has the role afterwards.
abbrev pub Saves : {S : Type 0} → UserRoleAssignmentRepository S → Type 0
Saves {S} repo =
    (a : UserRoleAssignment) (s t : S)
    → repo.save a s ≡ (ok tt, t)
    → (found : List UserRoleAssignment) × (repo.find_by_user a.user_id t ≡ ok found)
      × (has_role a.role_id found ≡ true)

module _ {S : Type 0} (assignment_repo : UserRoleAssignmentRepository S)
    (access_request_repo : AccessRequestRepository S) (upsert : Upsert S)
    (try_user_id : String → Result String UserId) (admin_role : RoleId)
    (admin_name : Option DisplayName) (saves : Saves assignment_repo) where
  -- The user has the administrator's role.
  abbrev IsAdmin : UserId → S → Type 0
  IsAdmin user s =
      (found : List UserRoleAssignment) × (assignment_repo.find_by_user user s ≡ ok found)
      × (has_role admin_role found ≡ true)

  abbrev seeding : AuthConfig → Fresh → String → UserId → Stateful S AuthError Bool
  seeding = seed assignment_repo access_request_repo upsert try_user_id admin_role admin_name

  abbrev checking : AuthConfig → Fresh → String → UserId → Stateful S AuthError Bool
  checking =
      seed_unless_assigned assignment_repo access_request_repo upsert try_user_id admin_role
        admin_name

  tell-saved :
      (a : UserRoleAssignment) (s t : S)
      → ◌≡◌ {A = Result AuthError (Unit {0}) × S} (tell (assignment_repo.save a) s) (ok tt, t)
      → assignment_repo.save a s ≡ (ok tt, t)
  tell-saved a s t = at (assignment_repo.save a s)
    where
      at :
          (p : Result DomainError (Unit {0}) × S)
          → ◌≡◌ {A = Result AuthError (Unit {0}) × S} (stored p.0, p.1) (ok tt, t)
          → p ≡ (ok tt, t)
      at (ok tt, u) h = cc h
      at (err e, u) h = cc h

  -- The steps of `seed`, from the last one.
  abbrev grant : Fresh → UserId → Stateful S AuthError Bool
  grant fresh user =
      tell (assignment_repo.save (admin_assignment admin_role fresh user)) >> pure true

  abbrev request_step : Fresh → UserId → Option AccessRequest → Stateful S AuthError (Unit {0})
  request_step =
      save_request assignment_repo access_request_repo upsert try_user_id admin_role admin_name

  abbrev after_request : Fresh → UserId → Option AccessRequest → Stateful S AuthError Bool
  after_request fresh user request = request_step fresh user request >> grant fresh user

  abbrev after_upsert : Fresh → UserId → Stateful S AuthError Bool
  after_upsert fresh user = ask (access_request_repo.find_by_user user) >>= after_request fresh user

  seed-IsAdmin :
      (config : AuthConfig) (fresh : Fresh) (subject : String) (user : UserId) (s t : S) (b : Bool)
      → seeding config fresh subject user s ≡ (ok b, t)
      → IsAdmin user t
  unfolding seed
  seed-IsAdmin config fresh subject user s t b h =
      let a = admin_assignment admin_role fresh user in
      let (_, s₁, _, h₁) =
        first_step (upsert subject none (some "Bootstrap Admin") (some config.bootstrap_auth_type))
          (λ _. after_upsert fresh user) s t b h in
      let (request, s₂, _, h₂) =
        first_step (ask (access_request_repo.find_by_user user)) (after_request fresh user) s₁ t b
          h₁ in
      let (_, s₃, _, h₃) =
        first_step (request_step fresh user request) (λ _. grant fresh user) s₂ t b h₂ in
      let (_, s₄, saved, h₄) =
        first_step (tell (assignment_repo.save a)) (λ _. pure true) s₃ t b h₃ in
      subst (IsAdmin user) (same_store s₄ t b h₄) (saves a s₃ s₄ (tell-saved a s₃ s₄ saved))
    where
      same_store :
          (s t : S) (b : Bool) → ◌≡◌ {A = Result AuthError Bool × S} (ok true, s) (ok b, t) → s ≡ t
      same_store s t b h = ap (λ (p : Result AuthError Bool × S). p.1) h

  -- The step after the query for assignments.
  abbrev decide_on :
      AuthConfig → Fresh → String → UserId → List UserRoleAssignment → Stateful S AuthError Bool
  decide_on config fresh subject user existing =
      if has_role admin_role existing then pure false else seeding config fresh subject user

  -- An administrator is left alone.
  IsAdmin-checking :
      (config : AuthConfig) (fresh : Fresh) (subject : String) (user : UserId) (t : S)
      → IsAdmin user t
      → checking config fresh subject user t ≡ (ok false, t)
  unfolding seed_unless_assigned
  IsAdmin-checking config fresh subject user t (found, same, admin) =
      after_ask (assignment_repo.find_by_user user) (decide_on config fresh subject user) t found
        same
      ∙ if-holds (λ (m : Stateful S AuthError Bool). m t ≡ (ok false, t))
          (has_role admin_role found) (pure false) (seeding config fresh subject user) (λ _. refl)
          (λ other. absurd (ground (arith, other, admin)))

  -- A check that succeeds leaves an administrator.
  checking-IsAdmin :
      (config : AuthConfig) (fresh : Fresh) (subject : String) (user : UserId) (s t : S) (b : Bool)
      → checking config fresh subject user s ≡ (ok b, t)
      → IsAdmin user t
  unfolding seed_unless_assigned
  checking-IsAdmin config fresh subject user s t b h =
      let (found, middle, asked, rest) =
        first_step (ask (assignment_repo.find_by_user user)) (decide_on config fresh subject user) s
          t b h in
      let (answer, same) = ask-answers (assignment_repo.find_by_user user) s middle found asked in
      if-holds (λ (m : Stateful S AuthError Bool). m middle ≡ (ok b, t) → IsAdmin user t)
        (has_role admin_role found) (pure false) (seeding config fresh subject user)
        (λ admin kept.
          subst (IsAdmin user) (same ∙ ap (λ (p : Result AuthError Bool × S). p.1) kept)
            (found, answer, admin))
        (λ _. seed-IsAdmin config fresh subject user middle t b) rest

  abbrev outcome_for : AuthConfig → Fresh → S → Option String → Result AuthError Bool × S
  outcome_for config fresh s subject =
      bootstrap_as assignment_repo access_request_repo upsert try_user_id admin_role admin_name
        config fresh subject s

  again :
      (config : AuthConfig) (first second : Fresh) (subject : Option String) (s t : S) (b : Bool)
      → outcome_for config first s subject ≡ (ok b, t)
      → outcome_for config second t subject ≡ (ok false, t)
  again config first second none s t b = λ _. refl
  again config first second (some subject) s t b = at (try_user_id subject)
    where
      at :
          (r : Result String UserId)
          → (lift (map_err (λ e. bootstrap (invalid_subject subject e)) r)
                >>= checking config first subject)
              s
            ≡ (ok b, t)
          → (lift (map_err (λ e. bootstrap (invalid_subject subject e)) r)
                >>= checking config second subject)
              t
            ≡ (ok false, t)
      at (ok user) h =
          IsAdmin-checking config second subject user t
            (checking-IsAdmin config first subject user s t b h)
      at (err e) h = cc h

  -- Where `save` stores an assignment, a bootstrap that succeeds leaves nothing for a further one to do:
  -- it answers that nothing was seeded, and leaves the store as it is.
  pub run_bootstrap_again :
      (config : AuthConfig) (first second : Fresh) (s t : S) (b : Bool)
      → run_bootstrap assignment_repo access_request_repo upsert try_user_id admin_role admin_name
          config first s
        ≡ (ok b, t)
      → run_bootstrap assignment_repo access_request_repo upsert try_user_id admin_role admin_name
          config second t
        ≡ (ok false, t)
  unfolding run_bootstrap
  run_bootstrap_again config first second s t b h =
      again config first second (admin_subject config) s t b h

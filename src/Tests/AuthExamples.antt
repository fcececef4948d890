-- ===== src/Tests/AuthExamples.antt =====
-- The authentication's theorems at concrete inputs: a store of assignments and access requests.
use luminair_service_aws_dsq.Base.{
  String, true, false, none, some, List, [], ◌∷◌, ◌≡◌, refl, ok, find_first, retain, ◌==◌,
  string_eq, nat_eq, arith, Result, ap, subst,
}
use luminair_service_aws_dsq.Base.Text.{trim}
use luminair_service_aws_dsq.Domain.Auth.{UserRoleAssignment}
use luminair_service_aws_dsq.Domain.AccessRequest.{AccessRequest}
use luminair_service_aws_dsq.Domain.Errors.{DomainError}
use luminair_service_aws_dsq.Application.Ports.{
  RoleRepository, UserRoleAssignmentRepository, AccessRequestRepository,
}
use luminair_service_aws_dsq.Infrastructure.Auth.Claims.{Claims, user_id}
use luminair_service_aws_dsq.Infrastructure.Auth.Resolver.{
  Upsert, collect_roles, resolve_roles, resolve_context,
}
use luminair_service_aws_dsq.Infrastructure.Auth.Bootstrap.{
  AuthConfig, Fresh, admin_assignment, approved_request, has_role, seed, seed_unless_assigned,
  run_bootstrap,
}
use luminair_service_aws_dsq.Infrastructure.Auth.Granted.{IsGranted, resolve_context-IsGranted}
use luminair_service_aws_dsq.Infrastructure.Auth.Idempotent.{Saves, run_bootstrap_again}
use luminair_service_aws_dsq.Tests.Fixtures.{editor}

abbrev Store : Type 0
Store = List UserRoleAssignment × List AccessRequest

abbrev assignments : UserRoleAssignmentRepository Store
assignments = record {
  find_by_user = λ user s. ok (retain (λ a. a.user_id == user) s.0);
  save = λ a s. (ok tt, (a ∷ s.0, s.1));
  save_all = λ _ s. (ok tt, s);
}

abbrev requests : AccessRequestRepository Store
requests = record {
  find_by_id = λ id s. ok (find_first (λ r. r.id == id) s.1);
  find_by_user = λ user s. ok (find_first (λ r. r.user_id == user) s.1);
  find_active_by_user = λ _ _. ok none;
  find_pending = λ s. ok s.1;
  save = λ r s. (ok tt, (s.0, r ∷ s.1));
}

abbrev roles : RoleRepository Store
roles = record {
  find_by_id = λ id _. ok (find_first (λ r. r.id == id) editor.roles);
  find_by_ids = λ _ _. ok editor.roles;
}

abbrev upsert : Upsert Store
upsert _ _ _ _ s = (ok tt, s)

abbrev accept : String → Result String String
accept s = ok s

granted_first :
    (a : UserRoleAssignment) (rest : List UserRoleAssignment)
    → has_role a.role_id (retain (λ a'. a'.user_id == a.user_id) (a ∷ rest)) ≡ true
unfolding retain
granted_first a rest = ground arith

saves : Saves assignments
saves a s t h =
    subst
      (λ (t' : Store).
        (found : List UserRoleAssignment) × ◌≡◌ {A = Result DomainError (List UserRoleAssignment)}
          (ok (retain (λ a'. a'.user_id == a.user_id) t'.0)) (ok found)
        × (has_role a.role_id found ≡ true))
      (ap (λ (p : Result DomainError (Unit {0}) × Store). p.1) h)
      (retain (λ a'. a'.user_id == a.user_id) (a ∷ s.0), refl, granted_first a s.0)

abbrev config : AuthConfig
config = record { bootstrap_admin_sub = some " ada "; bootstrap_auth_type = "oidc" }

abbrev first : Fresh
first = record {
  request_id = 1;
  assignment_id = 2;
  requested_at = 7;
  reviewed_at = 7;
  granted_at = 7;
}

abbrev second : Fresh
second = record {
  request_id = 3;
  assignment_id = 4;
  requested_at = 8;
  reviewed_at = 8;
  granted_at = 8;
}

abbrev seeded : Store
seeded = (admin_assignment 5 first "ada" ∷ [], approved_request 5 none first "ada" ∷ [])

seeds :
    run_bootstrap assignments requests upsert accept 5 none config first ([], [])
    ≡ (ok true, seeded)
unfolding run_bootstrap seed_unless_assigned seed trim find_first retain string_eq nat_eq
seeds = refl

run_bootstrap_again_example :
    run_bootstrap assignments requests upsert accept 5 none config second seeded
    ≡ (ok false, seeded)
run_bootstrap_again_example =
    run_bootstrap_again assignments requests upsert accept 5 none saves config first second ([], [])
      seeded true seeds

abbrev claims : Claims
claims = record {
  sub = "ada";
  email = none;
  name = none;
  iss = none;
  aud = none;
  exp = none;
  iat = none;
}

abbrev granted : Store
granted =
    (record { id = 2; user_id = "ada"; role_id = 1; granted_at = 7; granted_by = none } ∷ [], [])

resolves : (resolve_context assignments roles requests upsert accept claims granted).0 ≡ ok editor
unfolding resolve_context resolve_roles collect_roles find_first retain string_eq nat_eq
resolves = refl

resolve_context-IsGranted_example :
    (user : String) × (user_id accept claims ≡ ok user)
    × IsGranted assignments roles requests upsert accept user
        (resolve_context assignments roles requests upsert accept claims granted).1
        editor
resolve_context-IsGranted_example =
    resolve_context-IsGranted assignments roles requests upsert accept claims granted editor
      resolves

-- ===== src/Application/Context.antt =====
-- The caller's identity and roles (application/src/context.rs).
use luminair_service_aws_dsq.Base.{
  Bool, true, Option, none, some, List, [], ◌∷◌, ◌≡◌, refl, Result, ok, err, if◌then◌else◌, arith,
}
use luminair_service_aws_dsq.Domain.Ids.{UserId}
use luminair_service_aws_dsq.Domain.Instance.{DocumentInstance}
use luminair_service_aws_dsq.Domain.Auth.{
  Permission, manage_schema, manage_roles, manage_users, create_document, read_document,
  update_document, delete_document, publish_document, Role, can, has_permission,
}
use luminair_service_aws_dsq.Application.Errors.{ApplicationError, unauthorized}

pub record CallerContext : Type 0 where
  pub user_id : UserId
  pub roles : List Role

-- `CallerContext::system`; the role's `Uuid::nil` is the number 0.
abbrev pub system : CallerContext
system = record {
  user_id = "system-internal";
  roles =
      record {
        id = 0;
        name = "system_admin";
        description = some "System internal role with full privileges";
        permissions =
            manage_schema
            ∷ manage_roles
            ∷ manage_users
            ∷ create_document none
            ∷ read_document none
            ∷ update_document none
            ∷ delete_document none
            ∷ publish_document none
            ∷ [];
      }
      ∷ [];
}

-- `CallerContext::can`
abbrev pub caller_can : CallerContext → Permission → Option DocumentInstance → Bool
caller_can caller action inst = can caller.user_id action inst caller.roles

unfoldable pub check_permission :
    CallerContext → Permission → Option DocumentInstance → Result ApplicationError (Unit {0})
check_permission caller action inst =
    if caller_can caller action inst then ok tt else err (unauthorized caller.user_id action)

pub check_permission-ok :
    (caller : CallerContext) (action : Permission) (inst : Option DocumentInstance) (u : Unit {0})
    → check_permission caller action inst ≡ ok u
    → caller_can caller action inst ≡ true
unfolding check_permission
check_permission-ok caller action inst u h = ground arith

pub check_permission-of_can :
    (caller : CallerContext) (action : Permission) (inst : Option DocumentInstance)
    → caller_can caller action inst ≡ true
    → check_permission caller action inst ≡ ok tt
unfolding check_permission
check_permission-of_can caller action inst h = rw h refl

-- The internal system caller may do everything, on any instance.
pub system_can :
    (action : Permission) (inst : Option DocumentInstance) → caller_can system action inst ≡ true
unfolding can has_permission
system_can manage_schema inst = ground arith
system_can (create_document t) inst = ground arith
system_can (read_document t) inst = ground arith
system_can (update_document t) inst = ground arith
system_can (delete_document t) inst = ground arith
system_can (publish_document t) inst = ground arith
system_can manage_roles inst = ground arith
system_can manage_users inst = ground arith

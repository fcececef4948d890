-- ===== src/Domain/Auth.antt =====
-- Roles, permissions and the authorisation rule (domain/src/auth/{role,service}.rs).
pub mod Rules
use luminair_service_aws_dsq.Base.{
  String, Bool, true, false, ◌||◌, Option, none, some, List, ◌==◌, string_eq, any, if◌then◌else◌,
}
use luminair_service_aws_dsq.Domain.Ids.{
  RoleId, UserId, UserRoleAssignmentId, DocumentTypeId, DateTime,
}
use luminair_service_aws_dsq.Domain.Instance.{DocumentInstance, is_owned_by}

pub data Permission : Type 0 where
  manage_schema : Permission
  create_document read_document update_document delete_document publish_document :
      Option DocumentTypeId → Permission
  manage_roles manage_users : Permission

-- The two arms of each document permission: `None` grants every type.
abbrev grants_type : Option DocumentTypeId → Option DocumentTypeId → Bool
grants_type none _ = true
grants_type (some a) none = false
grants_type (some a) (some b) = a == b

unfoldable pub matches : Permission → Permission → Bool
matches manage_schema manage_schema = true
matches manage_roles manage_roles = true
matches manage_users manage_users = true
matches (create_document a) (create_document b) = grants_type a b
matches (read_document a) (read_document b) = grants_type a b
matches (update_document a) (update_document b) = grants_type a b
matches (delete_document a) (delete_document b) = grants_type a b
matches (publish_document a) (publish_document b) = grants_type a b
matches _ _ = false

pub record Role : Type 0 where
  pub id : RoleId
  pub name : String
  pub description : Option String
  pub permissions : List Permission

unfoldable pub has_permission : Role → Permission → Bool
unfolding matches
has_permission role action = any (λ p. matches p action) role.permissions

pub record UserRoleAssignment : Type 0 where
  pub id : UserRoleAssignmentId
  pub user_id : UserId
  pub role_id : RoleId
  pub granted_at : DateTime
  pub granted_by : Option UserId

abbrev is_owner_action : Permission → Bool
is_owner_action (update_document _) = true
is_owner_action (read_document _) = true
is_owner_action _ = false

abbrev owner_rule : UserId → Permission → Option DocumentInstance → Bool
owner_rule user_id action none = false
owner_rule user_id action (some inst) =
    if is_owned_by inst user_id then is_owner_action action else false

-- `AuthorizationService::can`
unfoldable pub can : UserId → Permission → Option DocumentInstance → List Role → Bool
unfolding has_permission is_owned_by
can user_id action inst roles =
    if owner_rule user_id action inst then true else any (λ role. has_permission role action) roles

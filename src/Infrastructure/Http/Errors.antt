-- ===== src/Infrastructure/Http/Errors.antt =====
-- Errors and their responses (infrastructure/src/api/errors.rs). The texts of a response are
-- constructors for their templates with the values that they show.
use luminair_service_aws_dsq.Base.{ℕ, String, Option, none, some, List}
use luminair_service_aws_dsq.Domain.Ids.{
  UserId, Uuid, DocumentTypeId, DocumentInstanceId, AttributeId, LocaleId, AccessRequestId,
}
use luminair_service_aws_dsq.Domain.Auth.{Permission}
use luminair_service_aws_dsq.Domain.Errors.{DomainError, Reason}
use luminair_service_aws_dsq.Domain.Errors as Dom
use luminair_service_aws_dsq.Application.Errors.{ApplicationError, Message}
use luminair_service_aws_dsq.Application.Errors as App

pub data Detail : Type 0 where
  -- a fixed text
  plain : String → Detail
  -- a template with the value that is refused and the parser's error
  invalid : (template value error : String) → Detail
  -- a template with one value
  about : (template value : String) → Detail
  -- the keys of several actions at once
  several_actions : List String → Detail
  lacks_permission : UserId → Permission → Detail
  entity_not_found : (entity : String) (id : Uuid) → Detail
  type_not_found : DocumentTypeId → Detail
  instance_not_found : DocumentInstanceId → Detail
  already_has_instance : DocumentTypeId → Detail
  request_not_found : AccessRequestId → Detail
  request_already_active : UserId → Detail
  invalid_field : AttributeId → Reason → Detail
  unsupported_locale : LocaleId → Detail
  undeclared_attribute : AttributeId → Detail
  reason : Reason → Detail
  message : Message → Detail
  joined : List Message → Detail

-- A text, the `to_string` of a domain error, or a template for a refused subject.
pub data AuthText : Type 0 where
  plain_text : String → AuthText
  of_domain : DomainError → AuthText
  invalid_subject : (subject error : String) → AuthText

pub data AuthError : Type 0 where
  missing_authorization_header invalid_authorization_header : AuthError
  invalid_token : String → AuthError
  expired_token : AuthError
  invalid_claim : (claim reason : String) → AuthError
  access_pending : AuthError
  access_rejected : (reason : Option String) → AuthError
  access_not_requested : AuthError
  storage bootstrap : AuthText → AuthError

pub data ApiError : Type 0 where
  application : ApplicationError → ApiError
  auth : AuthError → ApiError
  bad_request not_found conflict forbidden internal : Detail → ApiError

-- `StatusCode`, by its number.
abbrev pub StatusCode : Type 0
StatusCode = ℕ

pub record ProblemDetails : Type 0 where
  pub problem_type : String
  pub title : String
  pub status : ℕ
  pub detail : Detail
  pub problem_instance : Option String
  pub errors : Option (List Message)

-- The body of an authentication error.
pub record AuthProblem : Type 0 where
  pub status : ℕ
  pub title : String
  pub error : AuthError
  pub code : Option String
  pub hint : Option String
  pub reason : Option AuthText

pub data Response : Type 0 where
  problem : StatusCode → ProblemDetails → Response
  auth_problem : StatusCode → AuthProblem → Response

abbrev problem_response : StatusCode → String → String → Detail → Option (List Message) → Response
problem_response status problem_type title detail errors = problem status (record {
  problem_type = problem_type;
  title = title;
  status = status;
  detail = detail;
  problem_instance = none;
  errors = errors;
})

unfoldable map_domain_error : DomainError → Response
map_domain_error (Dom.document_type_not_found type_id) =
    problem_response 404 "https://luminair.io/errors/not-found" "Resource Not Found"
      (type_not_found type_id) none
map_domain_error (Dom.document_instance_not_found id) =
    problem_response 404 "https://luminair.io/errors/not-found" "Resource Not Found"
      (instance_not_found id) none
map_domain_error (Dom.single_type_already_exists type_id) =
    problem_response 409 "https://luminair.io/errors/conflict" "Conflict"
      (already_has_instance type_id) none
map_domain_error (Dom.access_request_not_found id) =
    problem_response 404 "https://luminair.io/errors/not-found" "Resource Not Found"
      (request_not_found id) none
map_domain_error (Dom.access_request_already_active user_id) =
    problem_response 409 "https://luminair.io/errors/conflict" "Conflict"
      (request_already_active user_id) none
map_domain_error (Dom.unauthorized msg) =
    problem_response 403 "https://luminair.io/errors/forbidden" "Forbidden" (reason msg) none
map_domain_error (Dom.invalid_field_value attribute_id why) =
    problem_response 400 "https://luminair.io/errors/invalid-field" "Invalid Field Value"
      (invalid_field attribute_id why) none
map_domain_error (Dom.unknown_locale loc) =
    problem_response 400 "https://luminair.io/errors/unknown-locale" "Unknown Locale"
      (unsupported_locale loc) none
map_domain_error (Dom.unknown_attribute attr) =
    problem_response 400 "https://luminair.io/errors/unknown-attribute" "Unknown Attribute"
      (undeclared_attribute attr) none
map_domain_error (Dom.invalid_state_transition why) =
    problem_response 409 "https://luminair.io/errors/conflict" "Invalid State Transition"
      (reason why) none
map_domain_error (Dom.validation msg) =
    problem_response 400 "https://luminair.io/errors/validation-error" "Validation Failed"
      (reason msg) none
map_domain_error (Dom.storage msg) =
    problem_response 500 "https://luminair.io/errors/internal-error" "Internal Server Error"
      (reason msg) none

unfoldable map_application_error : ApplicationError → Response
unfolding map_domain_error
map_application_error (App.unauthorized user_id action) =
    problem_response 403 "https://luminair.io/errors/forbidden" "Forbidden"
      (lacks_permission user_id action) none
map_application_error (App.not_found entity id) =
    problem_response 404 "https://luminair.io/errors/not-found" "Resource Not Found"
      (entity_not_found entity id) none
map_application_error (App.validation errors) =
    problem_response 400 "https://luminair.io/errors/validation-error" "Validation Failed"
      (joined errors) (some errors)
map_application_error (App.conflict msg) =
    problem_response 409 "https://luminair.io/errors/conflict" "Conflict" (message msg) none
map_application_error (App.internal msg) =
    problem_response 500 "https://luminair.io/errors/internal-error" "Internal Server Error"
      (message msg) none
map_application_error (App.domain domain_err) = map_domain_error domain_err

abbrev auth_answer :
    StatusCode → String → AuthError → Option String → Option String → Option AuthText → Response
auth_answer status title error code hint why = auth_problem status (record {
  status = status;
  title = title;
  error = error;
  code = code;
  hint = hint;
  reason = why;
})

abbrev as_text : Option String → Option AuthText
as_text none = none
as_text (some s) = some (plain_text s)

unfoldable auth_response : AuthError → Response
auth_response missing_authorization_header =
    auth_answer 401 "Unauthorized" missing_authorization_header (some "MISSING_TOKEN")
      (some "Include 'Authorization: Bearer <token>' in request headers") none
auth_response invalid_authorization_header =
    auth_answer 401 "Unauthorized" invalid_authorization_header (some "INVALID_AUTH_HEADER")
      (some "Authorization header must follow 'Bearer <token>' scheme") none
auth_response (invalid_token error) =
    auth_answer 401 "Unauthorized" (invalid_token error) (some "INVALID_TOKEN") none none
auth_response expired_token =
    auth_answer 401 "Unauthorized" expired_token (some "TOKEN_EXPIRED") none none
auth_response (invalid_claim claim why) =
    auth_answer 401 "Unauthorized" (invalid_claim claim why) (some "INVALID_CLAIMS") none none
auth_response access_pending =
    auth_answer 403 "Forbidden" access_pending (some "ACCESS_PENDING")
      (some "Awaiting administrator approval") none
auth_response (access_rejected why) =
    auth_answer 403 "Forbidden" (access_rejected why) (some "ACCESS_REJECTED")
      (some "Your access request was rejected; you may submit a new request") (as_text why)
auth_response access_not_requested =
    auth_answer 403 "Forbidden" access_not_requested (some "ACCESS_NOT_REQUESTED")
      (some "POST /api/access-requests to request access") none
auth_response (storage error) =
    auth_answer 500 "Internal Server Error" (storage error) (some "INTERNAL_ERROR") none
      (some error)
auth_response (bootstrap error) =
    auth_answer 500 "Internal Server Error" (bootstrap error) (some "INTERNAL_ERROR") none
      (some error)

unfoldable pub into_response : ApiError → Response
unfolding map_application_error auth_response
into_response (auth error) = auth_response error
into_response (application error) = map_application_error error
into_response (bad_request msg) =
    problem_response 400 "https://luminair.io/errors/bad-request" "Bad Request" msg none
into_response (not_found msg) =
    problem_response 404 "https://luminair.io/errors/not-found" "Resource Not Found" msg none
into_response (conflict msg) =
    problem_response 409 "https://luminair.io/errors/conflict" "Conflict" msg none
into_response (forbidden msg) =
    problem_response 403 "https://luminair.io/errors/forbidden" "Forbidden" msg none
into_response (internal msg) =
    problem_response 500 "https://luminair.io/errors/internal-error" "Internal Server Error" msg
      none

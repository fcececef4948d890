-- ===== src/Infrastructure/Http/Faults.antt =====
-- Which errors are faults of the server (infrastructure/src/api/errors.rs, infrastructure/src/auth/errors.rs).
use luminair_service_aws_dsq.Base.{ℕ, Bool, true, false, ◌≡◌, ◌≤◌, ◌<◌, refl, arith}
use luminair_service_aws_dsq.Domain.Errors as Dom
use luminair_service_aws_dsq.Application.Errors as App
use luminair_service_aws_dsq.Infrastructure.Http.Errors.{
  ApiError, application, auth, bad_request, not_found, conflict, forbidden, internal, Response,
  problem, auth_problem, into_response, storage, bootstrap, missing_authorization_header,
  invalid_authorization_header, invalid_token, expired_token, invalid_claim, access_pending,
  access_rejected, access_not_requested,
}

-- The status line of a response.
abbrev pub status_of : Response → ℕ
status_of (problem status _) = status
status_of (auth_problem status _) = status

-- The status that the body repeats.
abbrev pub body_status : Response → ℕ
body_status (problem _ body) = body.status
body_status (auth_problem _ body) = body.status

-- The failures of the server, as opposed to those of the request.
abbrev pub is_server_fault : ApiError → Bool
is_server_fault (application (App.internal _)) = true
is_server_fault (application (App.domain (Dom.storage _))) = true
is_server_fault (auth (storage _)) = true
is_server_fault (auth (bootstrap _)) = true
is_server_fault (internal _) = true
is_server_fault _ = false

-- The statuses that answer a fault of the server, and those that answer another error.
abbrev pub IsStatusFor : (fault : Bool) → ℕ → Type 0
IsStatusFor true status = status ≡ 500
IsStatusFor false status = (400 ≤ status) × (status < 500)

-- What a client may rely on.
abbrev pub IsHonest : ApiError → Response → Type 0
IsHonest error response =
    (body_status response ≡ status_of response)
    × IsStatusFor (is_server_fault error) (status_of response)

-- The body of every error's response repeats its status line; a fault of the server, and nothing else,
-- is answered with 500, every other error with a status from 400 to 499.
pub into_response-IsHonest : (error : ApiError) → IsHonest error (into_response error)
unfolding into_response
into_response-IsHonest (application (App.domain (Dom.document_type_not_found _))) =
    (refl, ground arith)
into_response-IsHonest (application (App.domain (Dom.document_instance_not_found _))) =
    (refl, ground arith)
into_response-IsHonest (application (App.domain (Dom.single_type_already_exists _))) =
    (refl, ground arith)
into_response-IsHonest (application (App.domain (Dom.access_request_not_found _))) =
    (refl, ground arith)
into_response-IsHonest (application (App.domain (Dom.access_request_already_active _))) =
    (refl, ground arith)
into_response-IsHonest (application (App.domain (Dom.unauthorized _))) = (refl, ground arith)
into_response-IsHonest (application (App.domain (Dom.unknown_locale _))) = (refl, ground arith)
into_response-IsHonest (application (App.domain (Dom.unknown_attribute _))) = (refl, ground arith)
into_response-IsHonest (application (App.domain (Dom.invalid_state_transition _))) =
    (refl, ground arith)
into_response-IsHonest (application (App.domain (Dom.validation _))) = (refl, ground arith)
into_response-IsHonest (application (App.domain (Dom.invalid_field_value _ _))) =
    (refl, ground arith)
into_response-IsHonest (application (App.domain (Dom.storage _))) = (refl, refl)
into_response-IsHonest (application (App.unauthorized _ _)) = (refl, ground arith)
into_response-IsHonest (application (App.not_found _ _)) = (refl, ground arith)
into_response-IsHonest (application (App.validation _)) = (refl, ground arith)
into_response-IsHonest (application (App.conflict _)) = (refl, ground arith)
into_response-IsHonest (application (App.internal _)) = (refl, refl)
into_response-IsHonest (auth missing_authorization_header) = (refl, ground arith)
into_response-IsHonest (auth invalid_authorization_header) = (refl, ground arith)
into_response-IsHonest (auth (invalid_token _)) = (refl, ground arith)
into_response-IsHonest (auth expired_token) = (refl, ground arith)
into_response-IsHonest (auth (invalid_claim _ _)) = (refl, ground arith)
into_response-IsHonest (auth access_pending) = (refl, ground arith)
into_response-IsHonest (auth (access_rejected _)) = (refl, ground arith)
into_response-IsHonest (auth access_not_requested) = (refl, ground arith)
into_response-IsHonest (auth (storage _)) = (refl, refl)
into_response-IsHonest (auth (bootstrap _)) = (refl, refl)
into_response-IsHonest (bad_request _) = (refl, ground arith)
into_response-IsHonest (not_found _) = (refl, ground arith)
into_response-IsHonest (conflict _) = (refl, ground arith)
into_response-IsHonest (forbidden _) = (refl, ground arith)
into_response-IsHonest (internal _) = (refl, refl)

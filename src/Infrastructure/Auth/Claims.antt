-- ===== src/Infrastructure/Auth/Claims.antt =====
-- The claims of a token (infrastructure/src/auth/claims.rs).
use luminair_service_aws_dsq.Base.{
  ℕ, String, Bool, false, ◌||◌, Option, some, ◌==◌, string_eq, option_eq, Result, map_err,
}
use luminair_service_aws_dsq.Domain.Ids.{UserId}
use luminair_service_aws_dsq.Infrastructure.Json.{Json, Items, no_items, item}
use luminair_service_aws_dsq.Infrastructure.Http.Errors.{AuthError, invalid_claim}

pub record Claims : Type 0 where
  pub sub : String
  pub email : Option String
  pub name : Option String
  pub iss : Option String
  pub aud : Option Json
  pub exp : Option ℕ
  pub iat : Option ℕ

-- `try_user_id` is `UserId::try_new`, a failure with its message.
abbrev pub user_id : (String → Result String UserId) → Claims → Result AuthError UserId
user_id try_user_id claims = map_err (invalid_claim "sub") (try_user_id claims.sub)

unfoldable any_item : String → Items → Bool
any_item expected no_items = false
any_item expected (item (Json.text s) rest) = s == expected || any_item expected rest
any_item expected (item _ rest) = any_item expected rest

unfoldable matches_audience : Claims → String → Bool
matches_audience claims expected_aud = elim claims.aud [
  | some (Json.text s) ↦ s == expected_aud
  | some (Json.array arr) ↦ any_item expected_aud arr
  | _ ↦ false
]

abbrev matches_issuer : Claims → String → Bool
matches_issuer claims expected_iss = claims.iss == some expected_iss

-- ===== src/Domain/Status.antt =====
-- `AccessRequestStatus` (domain/src/auth/access_request.rs), which error messages mention.
use luminair_service_aws_dsq.Base.{String, Bool, true, false, Option}

pub data AccessRequestStatus : Type 0 where
  pending approved : AccessRequestStatus
  rejected : (reason : Option String) → AccessRequestStatus

-- `status == AccessRequestStatus::Pending`
abbrev pub is_pending : AccessRequestStatus → Bool
is_pending pending = true
is_pending approved = false
is_pending (rejected _) = false

-- ===== src/Tests/ReviewExamples.antt =====
-- The theorems on access requests at concrete inputs.
use luminair_service_aws_dsq.Base.{
  true, none, some, [], ◌∷◌, ◌≡◌, refl, ok, ◌⊎◌, nat_eq, string_eq, find_first,
}
use luminair_service_aws_dsq.Domain.AccessRequest
use luminair_service_aws_dsq.Domain.AccessRequest.{AccessRequest}
use luminair_service_aws_dsq.Domain.Auth.{manage_users, can, has_permission, matches}
use luminair_service_aws_dsq.Application.Context.{caller_can, check_permission}
use luminair_service_aws_dsq.Application.Commands.{
  SubmitAccessRequestCommand, ApproveAccessRequestCommand, RejectAccessRequestCommand,
}
use luminair_service_aws_dsq.Application.AccessRequests.{
  find_request, submit, approve, reject, get_by_id,
}
use luminair_service_aws_dsq.Application.AccessRequests.Reviews.{
  submit-changes, SavedAfter, IsApproval, approve-changes, reject-changes, get_by_id-allowed,
}
use luminair_service_aws_dsq.Tests.Fixtures.{editor, requests, assignments, roles}

abbrev bob : AccessRequest
bob = AccessRequest.new 20 "bob" none none 7

abbrev enrol : SubmitAccessRequestCommand
enrol = record { user_id = "bob"; email = none; name = none }

abbrev approval : ApproveAccessRequestCommand
approval = record { request_id = 20; role_ids = 1 ∷ [] }

abbrev rejection : RejectAccessRequestCommand
rejection = record { request_id = 20; reason = some "unknown" }

submit-changes_example :
    ((submit requests assignments roles enrol 20 7 []).1 ≡ [])
    ⊎ ((requests.find_active_by_user "bob" [] ≡ ok none)
        × ((submit requests assignments roles enrol 20 7 []).1 ≡ (requests.save bob []).1))
submit-changes_example = submit-changes requests assignments roles enrol 20 7 []

approve-changes_example :
    ((approve requests assignments roles editor approval (λ i. i) 8 (bob ∷ [])).1 ≡ bob ∷ [])
    ⊎ ((a : IsApproval requests assignments roles editor approval (λ i. i) 8 (bob ∷ []))
        × SavedAfter requests a.reviewed
            (assignments.save_all a.grants (bob ∷ []))
            (approve requests assignments roles editor approval (λ i. i) 8 (bob ∷ [])).1)
approve-changes_example =
    approve-changes requests assignments roles editor approval (λ i. i) 8 (bob ∷ [])

reject-changes_example :
    ((reject requests assignments roles editor rejection 8 (bob ∷ [])).1 ≡ bob ∷ [])
    ⊎ ((caller_can editor manage_users none ≡ true)
        × ((request : AccessRequest) × (find_request requests assignments roles 20 (bob ∷ [])
              ≡ ok request)
            × ((AccessRequest.reject "ada" (some "unknown") 8 request).0 ≡ ok tt)
            × ((reject requests assignments roles editor rejection 8 (bob ∷ [])).1
                ≡ (requests.save
                    (AccessRequest.reject "ada" (some "unknown") 8 request).1
                    (bob ∷ [])).1)))
reject-changes_example = reject-changes requests assignments roles editor rejection 8 (bob ∷ [])

shown : (get_by_id requests assignments roles editor 20 (bob ∷ [])).0 ≡ ok bob
unfolding get_by_id check_permission can has_permission matches find_first AccessRequest.new
    string_eq nat_eq
shown = refl

get_by_id-allowed_example :
    (find_request requests assignments roles 20 (bob ∷ []) ≡ ok bob)
    × ((bob.user_id ≡ "ada") ⊎ (caller_can editor manage_users none ≡ true))
get_by_id-allowed_example =
    get_by_id-allowed requests assignments roles editor 20 (bob ∷ []) bob shown

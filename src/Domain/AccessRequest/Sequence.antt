-- ===== src/Domain/AccessRequest/Sequence.antt =====
-- Sequences of reviews of one access request (domain/src/auth/access_request.rs).
use luminair_service_aws_dsq.Base.{
  ℕ, suc, ◌≡◌, ◌≢◌, refl, sym, ap, ◌∙◌, Bool, true, false, Option, String, List, [], ◌∷◌, ◌++◌, ◌⊎◌,
  inl, inr, Result, ok, err, if◌then◌else◌, Bool-cases, arith,
}
use luminair_service_aws_dsq.Domain.Ids.{UserId, DateTime, RoleId, Uuid}
use luminair_service_aws_dsq.Domain.Status.{
  AccessRequestStatus, pending, approved, rejected, is_pending,
}
use luminair_service_aws_dsq.Domain.AccessRequest.{AccessRequest, approve, reject}

-- One call of `approve` or of `reject`.
pub data Review : Type 0 where
  approving : (fresh : ℕ → Uuid) (by : UserId) (roles : List RoleId) (now : DateTime) → Review
  rejecting : (by : UserId) (reason : Option String) (now : DateTime) → Review

abbrev is_ok : {E A : Type 0} → Result E A → Bool
is_ok (ok _) = true
is_ok (err _) = false

-- Whether the call succeeds, and the request after it.
unfoldable pub accepted : Review → AccessRequest → Bool
accepted (approving fresh by roles now) request = is_ok (approve fresh by roles now request).0
accepted (rejecting by reason now) request = is_ok (reject by reason now request).0

unfoldable pub reviewed : Review → AccessRequest → AccessRequest
reviewed (approving fresh by roles now) request = (approve fresh by roles now request).1
reviewed (rejecting by reason now) request = (reject by reason now request).1

-- The number of calls that succeed, and the request after all of them.
unfoldable pub successes : List Review → AccessRequest → ℕ
successes [] request = 0
successes (review ∷ reviews) request =
    let later = successes reviews (reviewed review request) in
    if accepted review request then suc later else later

unfoldable pub after : List Review → AccessRequest → AccessRequest
after [] request = request
after (review ∷ reviews) request = after reviews (reviewed review request)

refused-reviewed :
    (review : Review) (request : AccessRequest)
    → accepted review request ≡ false
    → reviewed review request ≡ request
unfolding accepted reviewed approve reject
refused-reviewed (approving fresh by roles now) request h = ground arith
refused-reviewed (rejecting by reason now) request h = ground arith

accepted-closes :
    (review : Review) (request : AccessRequest)
    → accepted review request ≡ true
    → is_pending (reviewed review request).status ≡ false
unfolding accepted reviewed approve reject
accepted-closes (approving fresh by roles now) request h = ground arith
accepted-closes (rejecting by reason now) request h = ground arith

closed-accepted :
    (review : Review) (request : AccessRequest)
    → is_pending request.status ≡ false
    → accepted review request ≡ false
unfolding accepted approve reject
closed-accepted (approving fresh by roles now) request h = ground arith
closed-accepted (rejecting by reason now) request h = ground arith

-- Nothing happens to a closed request.
closed_stays :
    (reviews : List Review) (request : AccessRequest)
    → is_pending request.status ≡ false
    → (successes reviews request ≡ 0) × (after reviews request ≡ request)
unfolding successes after
closed_stays [] request h = (refl, refl)
closed_stays (review ∷ reviews) request h =
    let no = closed-accepted review request h in
    let same = refused-reviewed review request no in rw (no, same) (closed_stays reviews request h)

-- One of the calls decides: those before it fail, it succeeds, and the request stays as it leaves it,
-- whatever is called later.
pub record IsDecided (reviews : List Review) (request : AccessRequest) : Type 0 where
  pub before : List Review
  pub decisive : Review
  pub rest : List Review
  pub parts : reviews ≡ before ++ decisive ∷ rest
  pub refused : successes before request ≡ 0
  pub accepts : accepted decisive request ≡ true
  pub outcome : after reviews request ≡ reviewed decisive request
  pub closed : (after reviews request).status ≢ pending
  pub final :
      (later : List Review)
      → (successes later (after reviews request) ≡ 0)
        × (after later (after reviews request) ≡ after reviews request)

abbrev pub SettlesOnce : List Review → AccessRequest → Type 0
SettlesOnce reviews request =
    ((successes reviews request ≡ 0) × (after reviews request ≡ request))
    ⊎ ((successes reviews request ≡ 1) × IsDecided reviews request)

not_pending : (s : AccessRequestStatus) → is_pending s ≡ false → s ≢ pending
not_pending pending h e = cc h
not_pending approved h e = cc e
not_pending (rejected reason) h e = cc e

first_decides :
    (review : Review) (reviews : List Review) (request : AccessRequest)
    → accepted review request ≡ true
    → SettlesOnce (review ∷ reviews) request
unfolding successes after
first_decides review reviews request succeeds =
    let closed = accepted-closes review request succeeds in
    let (none_later, same) = closed_stays reviews (reviewed review request) closed in
    inr (
      rw (succeeds, none_later) refl,
      record {
        before = [];
        decisive = review;
        rest = reviews;
        parts = refl;
        refused = refl;
        accepts = succeeds;
        outcome = same;
        closed = rw same (not_pending _ closed);
        final = λ later. rw same (closed_stays later (reviewed review request) closed);
      },
    )

-- Of any sequence of reviews of a request, either all fail and the request stays as it was, or just
-- one succeeds: those before it fail, it leaves the request closed, and the request stays as that call
-- leaves it, whatever is called later.
pub reviews-SettlesOnce :
    (reviews : List Review) (request : AccessRequest) → SettlesOnce reviews request
unfolding successes after
reviews-SettlesOnce [] request = inl (refl, refl)
reviews-SettlesOnce (review ∷ reviews) request = elim (Bool-cases (accepted review request)) [
  | inl succeeds ↦ first_decides review reviews request succeeds
  | inr fails ↦
      let same = refused-reviewed review request fails in
      elim (reviews-SettlesOnce reviews (reviewed review request)) [
        | inl (nothing, kept) ↦ inl (rw fails nothing, kept ∙ same)
        | inr (one, d) ↦ inr (
          rw fails one,
          record {
            before = review ∷ d.before;
            decisive = d.decisive;
            rest = d.rest;
            parts = ap (λ l. review ∷ l) d.parts;
            refused = rw fails d.refused;
            accepts = ap (accepted d.decisive) (sym same) ∙ d.accepts;
            outcome = d.outcome ∙ ap (reviewed d.decisive) same;
            closed = d.closed;
            final = d.final;
          },
        )
      ]
]

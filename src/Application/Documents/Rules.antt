-- ===== src/Application/Documents/Rules.antt =====
-- Rules that follow a method of the document service to the store that it leaves.
use luminair_service_aws_dsq.Base.{
  ◌||◌, Option, List, [], ◌∷◌, ◌≡◌, refl, ◌∙◌, Result, ok, err, map_err, Stateful, Bool-cases, ◌⊎◌,
  inl, inr, is_empty,
}
use luminair_service_aws_dsq.Base.Store.{◌>>=◌, ◌>>◌, pure}
use luminair_service_aws_dsq.Domain.Ids.{DocumentTypeId, AttributeId}
use luminair_service_aws_dsq.Domain.Errors.{DomainError}
use luminair_service_aws_dsq.Domain.Instance.{DocumentInstance}
use luminair_service_aws_dsq.Domain.Validator.{Crates}
use luminair_service_aws_dsq.Application.Errors.{ApplicationError, domain}
use luminair_service_aws_dsq.Application.Ports.{DocumentInstanceRepository}
use luminair_service_aws_dsq.Application.Effects.{command, read_rule, then_at}
use luminair_service_aws_dsq.Application.Enrich.{enrich, stitch, ids}
use luminair_service_aws_dsq.Application.Documents.{SystemContext, or_default, popped, answer}

module _ {S : Type 0} (repo : DocumentInstanceRepository S) where
  -- The store is unchanged, or it is what the one save of an instance with the property leaves.
  abbrev pub SavesOnly : (DocumentInstance → Type 0) → S → S → Type 0
  SavesOnly P s s' = (s' ≡ s) ⊎ ((inst : DocumentInstance) × P inst × (s' ≡ (repo.save inst s).1))

  pub read_step :
      {A B : Type 0} {P : DocumentInstance → Type 0} {s : S} (r : Result ApplicationError A)
      (k : A → Result ApplicationError B × S)
      → ((a : A) → r ≡ ok a → SavesOnly P s (k a).1)
      → SavesOnly P s (then_at r k s).1
  read_step (ok a) k next = next a refl
  read_step (err e) k next = inl refl

  pub pass :
      {A B : Type 0} (s : S) {r : Result ApplicationError A} {a : A}
      {z : Result ApplicationError B × S} (k : A → Result ApplicationError B × S)
      → r ≡ ok a
      → k a ≡ z
      → then_at r k s ≡ z
  pass s k e h = rw e h

  -- A save followed by reads.
  abbrev pub followed :
      {A : Type 0}
      → Result DomainError (Unit {0})
      → Stateful S ApplicationError A
      → S
      → Result ApplicationError A × S
  followed r k t = elim (map_err domain r) [ ok _ ↦ k t | err e ↦ (err e, t) ]

  pub followed_quiet :
      {A : Type 0} (r : Result DomainError (Unit {0})) (k : Stateful S ApplicationError A) (t : S)
      → ((t : S) → (k t).1 ≡ t)
      → (followed r k t).1 ≡ t
  followed_quiet (ok u) k t quiet = quiet t
  followed_quiet (err e) k t quiet = refl

  pub save_rule :
      {A : Type 0} (P : DocumentInstance → Type 0) (inst : DocumentInstance)
      (k : Stateful S ApplicationError A) (s : S)
      → P inst
      → ((t : S) → (k t).1 ≡ t)
      → SavesOnly P s ((command (repo.save inst) >> k) s).1
  save_rule P inst k s p quiet =
      inr (inst, p, followed_quiet (repo.save inst s).0 k (repo.save inst s).1 quiet)

  pub enrich_quiet :
      (type_id : DocumentTypeId) (attrs : List AttributeId) (insts : List DocumentInstance) (s : S)
      → (enrich repo type_id attrs insts s).1 ≡ s
  unfolding enrich
  enrich_quiet type_id attrs insts s = elim (Bool-cases (is_empty attrs || is_empty insts)) [
    | inl none_left ↦ rw none_left refl
    | inr some_left ↦ rw some_left (
        read_rule (λ q. q.1 ≡ s) (map_err domain (repo.fetch_relations type_id attrs (ids insts) s))
          (λ rm. pure (stitch attrs rm insts)) s (λ e _. refl) (λ rm _. refl))
  ]

  pub mapped_quiet :
      {A B : Type 0} (r : Result ApplicationError A) (f : A → B) (t : S)
      → (((λ s. (r, t)) >>= λ a. pure (f a)) t).1 ≡ t
  mapped_quiet (ok a) f t = refl
  mapped_quiet (err e) f t = refl

  pub answer_quiet :
      (crates : Crates) (context : SystemContext) (type_id : DocumentTypeId)
      (populate : Option (List AttributeId)) (inst : DocumentInstance) (s : S)
      → (answer crates repo context type_id populate inst s).1 ≡ s
  unfolding answer
  answer_quiet crates context type_id populate inst s =
      let attrs = or_default populate in
      let e = enrich repo type_id attrs (inst ∷ []) s in
      elim (Bool-cases (is_empty attrs)) [
        | inl none_asked ↦ rw none_asked refl
        | inr some_asked ↦
            rw some_asked (mapped_quiet e.0 popped e.1 ∙ enrich_quiet type_id attrs (inst ∷ []) s)
      ]

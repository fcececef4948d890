-- ===== src/Application/Documents/Reads.antt =====
-- What the document service shows, and to whom.
use luminair_service_aws_dsq.Base.{
  true, ◌||◌, Option, none, some, List, [], ◌∷◌, map, is_empty, ◌≡◌, refl, sym, ap, ◌∙◌, Result, ok,
  err, Stateful, map_err, Bool-cases, inl, inr, arith,
}
use luminair_service_aws_dsq.Base.Store.{pure}
use luminair_service_aws_dsq.Domain.Ids.{DocumentTypeId, AttributeId}
use luminair_service_aws_dsq.Domain.Errors.{DomainError}
use luminair_service_aws_dsq.Domain.Instance.{DocumentInstance, PopulatedInstance}
use luminair_service_aws_dsq.Domain.Auth.{read_document}
use luminair_service_aws_dsq.Domain.Validator.{Crates}
use luminair_service_aws_dsq.Application.Errors.{ApplicationError, domain}
use luminair_service_aws_dsq.Application.Context.{
  CallerContext, caller_can, check_permission, check_permission-ok,
}
use luminair_service_aws_dsq.Application.Commands.{FindByIdCommand}
use luminair_service_aws_dsq.Application.Ports.{DocumentInstanceRepository}
use luminair_service_aws_dsq.Application.Effects.{then_at, then_at-ok}
use luminair_service_aws_dsq.Application.Enrich.{enrich, bare, stitch, ids}
use luminair_service_aws_dsq.Application.Enrich.Stitching.{stitch-instances}
use luminair_service_aws_dsq.Application.Documents.{
  SystemContext, or_default, popped, answer, find_by_id,
}

abbrev instances : List PopulatedInstance → List DocumentInstance
instances ps = map (λ p. p.instance_of) ps

bare-instances : (insts : List DocumentInstance) → instances (map bare insts) ≡ insts
bare-instances [] = refl
bare-instances (inst ∷ rest) = ap (λ l. inst ∷ l) (bare-instances rest)

popped-instance :
    (ps : List PopulatedInstance) (inst : DocumentInstance)
    → instances ps ≡ inst ∷ []
    → (p : PopulatedInstance) × (popped ps ≡ some p) × (p.instance_of ≡ inst)
popped-instance [] inst h = absurd (ground arith)
popped-instance (p ∷ []) inst h = (p, refl, ground arith)
popped-instance (p ∷ q ∷ ps) inst h = absurd (ground arith)

map_err-eq-ok : {A : Type 0} {a : A} (r : Result DomainError A) → map_err domain r ≡ ok a → r ≡ ok a
map_err-eq-ok (ok b) h = ground arith
map_err-eq-ok (err e) h = absurd (ground arith)

module _ {S : Type 0} (repo : DocumentInstanceRepository S) where
  enrich-instances :
      (type_id : DocumentTypeId) (attrs : List AttributeId) (insts : List DocumentInstance) (s : S)
      (ps : List PopulatedInstance)
      → (enrich repo type_id attrs insts s).0 ≡ ok ps
      → instances ps ≡ insts
  unfolding enrich
  enrich-instances type_id attrs insts s ps h =
      elim (Bool-cases (is_empty attrs || is_empty insts)) [
        | inl bare_only ↦
            let e : map bare insts ≡ ps = ground arith in rw (← e) (bare-instances insts)
        | inr some_left ↦
            let asked : (then_at (map_err domain (repo.fetch_relations type_id attrs (ids insts) s))
                  (λ rm. (ok (stitch attrs rm insts), s)) s).0
                ≡ ok ps =
              rw (some_left, enrich) at h in
            let (rm, _, same) =
              then_at-ok (map_err domain (repo.fetch_relations type_id attrs (ids insts) s)) _ s
                asked in
            let e : stitch attrs rm insts ≡ ps = ground arith in
            rw (← e) (stitch-instances attrs rm insts)
      ]

  -- `answer` has a document whenever it has a result: the `expect` on the popped item cannot panic,
  -- and the item is the document that was saved.
  pub answer-some :
      (crates : Crates) (context : SystemContext) (type_id : DocumentTypeId)
      (populate : Option (List AttributeId)) (inst : DocumentInstance) (s : S)
      (o : Option PopulatedInstance)
      → (answer crates repo context type_id populate inst s).0 ≡ ok o
      → (p : PopulatedInstance) × (o ≡ some p) × (p.instance_of ≡ inst)
  unfolding answer
  answer-some crates context type_id populate inst s o h =
      let attrs = or_default populate in
      let q = enrich repo type_id attrs (inst ∷ []) s in
      elim (Bool-cases (is_empty attrs)) [
        | inl none_asked ↦ (bare inst, ground arith, refl)
        | inr some_asked ↦
            let asked : (then_at q.0 (λ ps. (ok (popped ps), q.1)) q.1).0 ≡ ok o =
              rw (some_asked, answer) at h in
            let (ps, found, same) = then_at-ok q.0 _ q.1 asked in
            let (p, e, kept) =
              popped-instance ps inst (enrich-instances type_id attrs (inst ∷ []) s ps found) in
            (p, ground arith, kept)
      ]

  -- What follows the query of `find_by_id`.
  shown :
      (caller : CallerContext) (cmd : FindByIdCommand) (found : Option DocumentInstance) (s : S)
      (p : PopulatedInstance)
      → ((elim found as (λ _. Stateful S ApplicationError (Option PopulatedInstance)) [
        | none ↦ pure none
        | some inst ↦ λ t.
            then_at
              (check_permission caller (read_document (some inst.document_type_id)) (some inst))
              (λ _.
                let q = enrich repo cmd.document_type (or_default cmd.populate) (inst ∷ []) t in
                then_at q.0 (λ ps. (ok (popped ps), q.1)) q.1)
              t
      ])
          s).0
        ≡ ok (some p)
      → (found ≡ some p.instance_of)
        × (caller_can caller
              (read_document (some p.instance_of.document_type_id))
              (some p.instance_of)
            ≡ true)
  shown caller cmd none s p h = absurd (ground arith)
  shown caller cmd (some inst) s p h =
      let q = enrich repo cmd.document_type (or_default cmd.populate) (inst ∷ []) s in
      let (_, permitted, rest) =
        then_at-ok
          (check_permission caller (read_document (some inst.document_type_id)) (some inst)) _ s
          h in
      let (ps, read, same) = then_at-ok q.0 _ q.1 rest in
      let (p', e, kept) =
        popped-instance ps inst
          (enrich-instances cmd.document_type (or_default cmd.populate) (inst ∷ []) s ps read) in
      let e' : p'.instance_of ≡ p.instance_of = ground arith in
      let e'' : inst ≡ p.instance_of = sym kept ∙ e' in
      (ap some e'', rw (← e'') (check_permission-ok caller _ (some inst) _ permitted))

  -- A document that `find_by_id` returns is the one that the repository finds, and the caller may
  -- read it.
  pub find_by_id-allowed :
      (crates : Crates) (context : SystemContext) (caller : CallerContext) (cmd : FindByIdCommand)
      (s : S) (p : PopulatedInstance)
      → (find_by_id crates repo context caller cmd s).0 ≡ ok (some p)
      → (repo.find_by_id cmd.document_type cmd.document_instance_id s ≡ ok (some p.instance_of))
        × (caller_can caller
              (read_document (some p.instance_of.document_type_id))
              (some p.instance_of)
            ≡ true)
  unfolding find_by_id
  find_by_id-allowed crates context caller cmd s p h =
      let (found, stored, rest) =
        then_at-ok (map_err domain (repo.find_by_id cmd.document_type cmd.document_instance_id s)) _
          s h in
      let (same, allowed) = shown caller cmd found s p rest in
      (map_err-eq-ok _ stored ∙ ap ok same, allowed)

-- ===== src/Application/Documents/Creation.antt =====
-- When `create` succeeds (application/src/services/documents.rs).
use luminair_service_aws_dsq.Base.{some, List, [], ◌∷◌, Option, Result, ok, map_err}
use luminair_service_aws_dsq.Domain.Ids.{DocumentInstanceId, AttributeId, DateTime}
use luminair_service_aws_dsq.Domain.Errors.{DomainError}
use luminair_service_aws_dsq.Domain.Instance
use luminair_service_aws_dsq.Domain.Instance.{DocumentInstance, PopulatedInstance}
use luminair_service_aws_dsq.Domain.Validator.{Crates}
use luminair_service_aws_dsq.Application.Errors.{ApplicationError, domain}
use luminair_service_aws_dsq.Application.Context.{CallerContext}
use luminair_service_aws_dsq.Application.Commands.{CreateDocumentCommand}
use luminair_service_aws_dsq.Application.Ports.{DocumentInstanceRepository, RelationMap}
use luminair_service_aws_dsq.Application.Effects.{then_at}
use luminair_service_aws_dsq.Application.Relations.{apply_relations}
use luminair_service_aws_dsq.Application.Enrich.{stitch}
use luminair_service_aws_dsq.Application.Documents.{SystemContext, with_fields, popped}

module _ {S : Type 0} (crates : Crates) (repo : DocumentInstanceRepository S)
    (context : SystemContext) where
  -- The new document of a command: its fields, and what its relation actions make of no relations.
  abbrev pub draft_of :
      CallerContext → CreateDocumentCommand → DocumentInstanceId → DateTime → DocumentInstance
  draft_of caller cmd id now =
      (apply_relations context.schema cmd.document_type cmd.relations
        (with_fields (Instance.new id cmd.document_type (some caller.user_id) now) cmd.fields)).1

  -- `answer`, from the outcome of the query on.
  abbrev populated_by :
      List AttributeId
      → DocumentInstance
      → S
      → Result DomainError RelationMap
      → Result ApplicationError (Option PopulatedInstance) × S
  populated_by attrs inst t r =
      let q = then_at (map_err domain r) (λ rm. (ok (stitch attrs rm (inst ∷ [])), t)) t in
      then_at q.0 (λ ps. (ok (popped ps), q.1)) q.1

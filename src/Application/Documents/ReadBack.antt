-- ===== src/Application/Documents/ReadBack.antt =====
-- Reading a document that was created (application/src/services/documents.rs).
use luminair_service_aws_dsq.Base.{some, Option, ◌≡◌, ok}
use luminair_service_aws_dsq.Domain.Ids.{DocumentInstanceId, DateTime}
use luminair_service_aws_dsq.Domain.Instance
use luminair_service_aws_dsq.Domain.Instance.{DocumentInstance}
use luminair_service_aws_dsq.Domain.Validator.{Crates}
use luminair_service_aws_dsq.Application.Context.{CallerContext}
use luminair_service_aws_dsq.Application.Commands.{CreateDocumentCommand}
use luminair_service_aws_dsq.Application.Ports.{DocumentInstanceRepository}
use luminair_service_aws_dsq.Application.Documents.{SystemContext, with_fields, find_by_id}

module _ {S : Type 0} where
  -- A read finds the document that was saved last, with its identity, type and creator.
  abbrev pub Finds : DocumentInstanceRepository S → Type 0
  Finds repo =
      (inst : DocumentInstance) (s t : S)
      → repo.save inst s ≡ (ok tt, t)
      → (found : DocumentInstance) × (repo.find_by_id inst.document_type_id inst.id t
          ≡ ok (some found))
        × (found.id ≡ inst.id)
        × (found.document_type_id ≡ inst.document_type_id)
        × (found.audit.created_by ≡ inst.audit.created_by)

module _ {S : Type 0} (crates : Crates) (repo : DocumentInstanceRepository S)
    (context : SystemContext) where
  abbrev blank :
      CallerContext → CreateDocumentCommand → DocumentInstanceId → DateTime → DocumentInstance
  blank caller cmd id now =
      with_fields (Instance.new id cmd.document_type (some caller.user_id) now) cmd.fields

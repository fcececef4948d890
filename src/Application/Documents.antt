-- ===== src/Application/Documents.antt =====
-- `DocumentsServiceImpl` (application/src/services/documents.rs) over any repository. The clock and
-- the generator of identifiers are arguments. One method runs from start to end with no other
-- method in between.
pub mod Rules
pub mod Writes
pub mod Publishing
pub mod Creation
pub mod Reads
pub mod ReadBack
use luminair_service_aws_dsq.Base.{
  ℕ, String, Bool, true, false, not, Option, none, some, List, [], ◌∷◌, map, is_empty, Result, ok,
  err, map_err, ok_or, Stateful, if◌then◌else◌, string_eq,
}
use luminair_service_aws_dsq.Base.Map
use luminair_service_aws_dsq.Base.Map.{HashMap}
use luminair_service_aws_dsq.Base.Store.{◌>>=◌, ◌>>◌, pure, lift}
use luminair_service_aws_dsq.Domain.Ids.{DocumentTypeId, DocumentInstanceId, AttributeId, DateTime}
use luminair_service_aws_dsq.Domain.Schema.{DocumentType, DocumentKind, collection, single_type}
use luminair_service_aws_dsq.Domain.Errors.{
  DomainError, document_type_not_found, document_instance_not_found, single_type_already_exists,
}
use luminair_service_aws_dsq.Domain.Values.{ContentValue}
use luminair_service_aws_dsq.Domain.Instance
use luminair_service_aws_dsq.Domain.Instance.{DocumentInstance, PopulatedInstance}
use luminair_service_aws_dsq.Domain.Auth.{
  create_document, read_document, update_document, delete_document, publish_document,
}
use luminair_service_aws_dsq.Domain.Config.{SystemConfig}
use luminair_service_aws_dsq.Domain.Registry.{SchemaRegistry, find_type}
use luminair_service_aws_dsq.Domain.Validator.{Crates, validate_in}
use luminair_service_aws_dsq.Application.Errors.{
  ApplicationError, Message, domain, validation, conflict, of_domain, no_draft_and_publish,
}
use luminair_service_aws_dsq.Application.Context.{CallerContext, check_permission}
use luminair_service_aws_dsq.Application.Commands.{
  FindDocumentsCommand, FindByIdCommand, CreateDocumentCommand, UpdateDocumentCommand,
  DeleteDocumentCommand, PublishDocumentCommand, UnpublishDocumentCommand,
}
use luminair_service_aws_dsq.Application.Ports.{DocumentInstanceRepository}
use luminair_service_aws_dsq.Application.Effects.{query, command, read, reject_if, settled}
use luminair_service_aws_dsq.Application.Relations.{apply_relations}
use luminair_service_aws_dsq.Application.Enrich.{enrich, bare}

-- `SystemContext`
pub record SystemContext : Type 0 where
  pub schema : SchemaRegistry
  pub config : SystemConfig

abbrev pub is_single_type : DocumentKind → Bool
is_single_type collection = false
is_single_type single_type = true

-- `as_deref().unwrap_or_default()`
abbrev pub or_default : Option (List AttributeId) → List AttributeId
or_default none = []
or_default (some attrs) = attrs

-- `pop` on a list that has one item at most.
abbrev pub popped : List PopulatedInstance → Option PopulatedInstance
popped [] = none
popped (p ∷ []) = some p
popped (p ∷ q ∷ ps) = popped (q ∷ ps)

-- `for (attr, val) in cmd.fields { fields.insert(attr, val) }`
unfoldable pub insert_all :
    HashMap AttributeId ContentValue
    → HashMap AttributeId ContentValue
    → HashMap AttributeId ContentValue
insert_all fields [] = fields
insert_all fields ((attr, val) ∷ rest) = insert_all (Map.insert fields attr val) rest

abbrev pub with_fields : DocumentInstance → HashMap AttributeId ContentValue → DocumentInstance
with_fields inst fields = record inst { content = record (inst.content) { fields = fields } }

module _ {S : Type 0} (crates : Crates) (repo : DocumentInstanceRepository S)
    (context : SystemContext) where
  -- `find_type(…).ok_or_else(…)?`
  abbrev pub find_type_or : DocumentTypeId → Result ApplicationError DocumentType
  find_type_or type_id =
      ok_or (domain (document_type_not_found type_id)) (find_type context.schema type_id)

  -- `find_by_id(…).await?.ok_or(…)?`
  abbrev pub find_or_fail :
      DocumentTypeId → DocumentInstanceId → S → Result ApplicationError DocumentInstance
  find_or_fail type_id id s = elim (repo.find_by_id type_id id s) [
    | ok found ↦ ok_or (domain (document_instance_not_found id)) found
    | err e ↦ err (domain e)
  ]

  -- The revalidation against the schema, with every message.
  abbrev pub validated : DocumentInstance → Result ApplicationError (Unit {0})
  validated inst =
      map_err (λ errors. validation (map of_domain errors))
        (validate_in crates context.config context.schema inst.document_type_id inst.content)

  -- The end of `create` and `update`. `none` is the panic of `expect`.
  unfoldable pub answer :
      DocumentTypeId
      → Option (List AttributeId)
      → DocumentInstance
      → Stateful S ApplicationError (Option PopulatedInstance)
  answer type_id populate inst =
      let attrs = or_default populate in
      if is_empty attrs
      then pure (some (bare inst))
      else (do enriched ← enrich repo type_id attrs (inst ∷ []); pure (popped enriched))

  unfoldable pub find :
      CallerContext
      → FindDocumentsCommand
      → Stateful S ApplicationError (List PopulatedInstance × ℕ)
  find caller cmd = do
    lift (check_permission caller (read_document (some cmd.document_type)) none)
    _ ← lift (find_type_or cmd.document_type)
    page ← query (repo.find_by_type cmd.document_type cmd.pagination cmd.filters)
    total ← query (repo.count cmd.document_type cmd.filters)
    enriched ← enrich repo cmd.document_type (or_default cmd.populate) page.items
    pure (enriched, total)

  unfoldable pub find_by_id :
      CallerContext → FindByIdCommand → Stateful S ApplicationError (Option PopulatedInstance)
  find_by_id caller cmd = do
    found ← query (repo.find_by_id cmd.document_type cmd.document_instance_id)
    elim found [
      | none ↦ pure none
      | some inst ↦ (do
        lift (check_permission caller (read_document (some inst.document_type_id)) (some inst))
        enriched ← enrich repo cmd.document_type (or_default cmd.populate) (inst ∷ [])
        pure (popped enriched))
    ]

  -- `doc_type.kind == SingleType && repo.exists_for_type(…).await?`
  abbrev pub is_taken : DocumentType → DocumentTypeId → S → Result ApplicationError Bool
  is_taken dt type_id s =
      if is_single_type dt.kind then map_err domain (repo.exists_for_type type_id s) else ok false

  -- The instance that `create` is about to save, and that which `update` is.
  abbrev pub drafted :
      CallerContext
      → CreateDocumentCommand
      → DocumentInstanceId
      → DateTime
      → Result ApplicationError DocumentInstance
  drafted caller cmd id now =
      settled (apply_relations context.schema cmd.document_type cmd.relations)
        (with_fields (Instance.new id cmd.document_type (some caller.user_id) now) cmd.fields)

  abbrev pub edited :
      UpdateDocumentCommand → DocumentInstance → Result ApplicationError DocumentInstance
  edited cmd inst =
      settled (apply_relations context.schema cmd.document_type cmd.relations)
        (with_fields inst (insert_all inst.content.fields cmd.fields))

  unfoldable pub create :
      CallerContext
      → CreateDocumentCommand
      → DocumentInstanceId
      → DateTime
      → Stateful S ApplicationError (Option PopulatedInstance)
  create caller cmd id now = do
    lift (check_permission caller (create_document (some cmd.document_type)) none)
    dt ← lift (find_type_or cmd.document_type)
    taken ← read (is_taken dt cmd.document_type)
    reject_if taken (domain (single_type_already_exists cmd.document_type))
    inst ← lift (drafted caller cmd id now)
    lift (validated inst)
    command (repo.save inst)
    answer cmd.document_type cmd.populate inst

  unfoldable pub update :
      CallerContext
      → UpdateDocumentCommand
      → DateTime
      → Stateful S ApplicationError (Option PopulatedInstance)
  update caller cmd now = do
    inst ← read (find_or_fail cmd.document_type cmd.document_instance_id)
    lift (check_permission caller (update_document (some inst.document_type_id)) (some inst))
    changed ← lift (edited cmd inst)
    let touched = Instance.touch (some caller.user_id) now changed
    lift (validated touched)
    command (repo.save touched)
    answer cmd.document_type cmd.populate touched

  unfoldable pub delete :
      CallerContext → DeleteDocumentCommand → Stateful S ApplicationError (Unit {0})
  delete caller cmd = do
    inst ← read (find_or_fail cmd.document_type cmd.document_instance_id)
    lift (check_permission caller (delete_document (some inst.document_type_id)) (some inst))
    command (repo.delete cmd.document_type cmd.document_instance_id)

  unfoldable pub publish :
      CallerContext
      → PublishDocumentCommand
      → DateTime
      → Stateful S ApplicationError DocumentInstance
  publish caller cmd now = do
    inst ← read (find_or_fail cmd.document_type cmd.document_instance_id)
    lift (check_permission caller (publish_document (some inst.document_type_id)) (some inst))
    dt ← lift (find_type_or cmd.document_type)
    reject_if (not dt.options.draft_and_publish) (conflict (no_draft_and_publish dt.info.title))
    let (outcome, published) = Instance.publish (some caller.user_id) now inst
    _ ← lift (map_err domain outcome)
    command (repo.save published)
    pure published

  unfoldable pub unpublish :
      CallerContext
      → UnpublishDocumentCommand
      → DateTime
      → Stateful S ApplicationError DocumentInstance
  unpublish caller cmd now = do
    inst ← read (find_or_fail cmd.document_type cmd.document_instance_id)
    lift (check_permission caller (publish_document (some inst.document_type_id)) (some inst))
    dt ← lift (find_type_or cmd.document_type)
    reject_if (not dt.options.draft_and_publish) (conflict (no_draft_and_publish dt.info.title))
    let (outcome, withdrawn) = Instance.unpublish now inst
    lift (map_err domain outcome)
    command (repo.save withdrawn)
    pure withdrawn

-- ===== src/Application/Documents/Publishing.antt =====
-- What `publish`, `unpublish` and `delete` do to the store.
use luminair_service_aws_dsq.Base.{
  true, not, some, ◌≡◌, refl, ap, Result, ok, err, map_err, ◌⊎◌, inr, if◌then◌else◌, arith,
}
use luminair_service_aws_dsq.Base.Store.{pure}
use luminair_service_aws_dsq.Domain.Ids.{DocumentTypeId, DocumentInstanceId, DateTime}
use luminair_service_aws_dsq.Domain.Schema.{DocumentType}
use luminair_service_aws_dsq.Domain.Errors.{DomainError}
use luminair_service_aws_dsq.Domain.Instance
use luminair_service_aws_dsq.Domain.Instance.{DocumentInstance, PopulatedInstance}
use luminair_service_aws_dsq.Domain.Auth.{delete_document, publish_document}
use luminair_service_aws_dsq.Domain.Registry.{find_type}
use luminair_service_aws_dsq.Domain.Validator.{Crates}
use luminair_service_aws_dsq.Application.Errors.{domain, conflict, no_draft_and_publish}
use luminair_service_aws_dsq.Application.Context.{
  CallerContext, caller_can, check_permission, check_permission-ok,
}
use luminair_service_aws_dsq.Application.Commands.{
  DeleteDocumentCommand, PublishDocumentCommand, UnpublishDocumentCommand,
}
use luminair_service_aws_dsq.Application.Ports.{DocumentInstanceRepository}
use luminair_service_aws_dsq.Application.Effects.{read_step_to}
use luminair_service_aws_dsq.Application.Documents.{
  SystemContext, find_type_or, find_or_fail, delete, publish, unpublish,
}
use luminair_service_aws_dsq.Application.Documents.Rules.{SavesOnly, read_step, save_rule}

map_err-eq-ok :
    {u : Unit {0}} (r : Result DomainError (Unit {0})) → map_err domain r ≡ ok u → r ≡ ok u
map_err-eq-ok (ok tt) h = cc
map_err-eq-ok (err e) h = absurd (ground arith)

module _ {S : Type 0} (crates : Crates) (repo : DocumentInstanceRepository S)
    (context : SystemContext) where
  -- What `publish` and `unpublish` may change, and what they make of it.
  pub record IsTransition (move : DocumentInstance → DocumentInstance → Type 0)
      (caller : CallerContext) (type_id : DocumentTypeId) (id : DocumentInstanceId) (s : S)
      (inst : DocumentInstance) : Type 0 where
    pub stored : DocumentInstance
    pub found : find_or_fail crates repo context type_id id s ≡ ok stored
    pub allowed :
        caller_can caller (publish_document (some stored.document_type_id)) (some stored) ≡ true
    pub doc_type : DocumentType
    pub known : find_type context.schema type_id ≡ some doc_type
    pub supported : doc_type.options.draft_and_publish ≡ true
    pub moved : move stored inst

  -- `publish` leaves the store alone or makes one save, of what publishing makes of a stored document
  -- that the caller may publish and whose type has drafts.
  pub publish-SavesOnly :
      (caller : CallerContext) (cmd : PublishDocumentCommand) (now : DateTime) (s : S)
      → SavesOnly repo
          (IsTransition
            (λ stored inst. inst ≡ (Instance.publish (some caller.user_id) now stored).1)
            caller
            cmd.document_type
            cmd.document_instance_id
            s)
          s
          (publish crates repo context caller cmd now s).1
  unfolding publish
  publish-SavesOnly caller cmd now s =
      read_step repo (find_or_fail crates repo context cmd.document_type cmd.document_instance_id s)
        _
        λ stored found.
          read_step repo
            (check_permission caller (publish_document (some stored.document_type_id))
              (some stored))
            _
            λ _ permitted.
              read_step repo (find_type_or crates repo context cmd.document_type) _ λ dt known.
                read_step repo
                  (if not dt.options.draft_and_publish
                    then err (conflict (no_draft_and_publish dt.info.title))
                    else ok tt)
                  _
                  λ _ supported.
                    read_step repo
                      (map_err domain (Instance.publish (some caller.user_id) now stored).0) _
                      λ _ _.
                        save_rule repo _ (Instance.publish (some caller.user_id) now stored).1
                          (pure (Instance.publish (some caller.user_id) now stored).1) s
                          (record {
                            stored = stored;
                            found = found;
                            allowed = check_permission-ok caller _ (some stored) _ permitted;
                            doc_type = dt;
                            known = ground arith;
                            supported = ground arith;
                            moved = refl;
                          })
                          (λ t. refl)

  -- `unpublish` leaves the store alone or makes one save, of what a successful withdrawal makes of a
  -- stored document that the caller may publish and whose type has drafts.
  pub unpublish-SavesOnly :
      (caller : CallerContext) (cmd : UnpublishDocumentCommand) (now : DateTime) (s : S)
      → SavesOnly repo
          (IsTransition
            (λ stored inst. Instance.unpublish now stored ≡ (ok tt, inst))
            caller
            cmd.document_type
            cmd.document_instance_id
            s)
          s
          (unpublish crates repo context caller cmd now s).1
  unfolding unpublish
  unpublish-SavesOnly caller cmd now s =
      read_step repo (find_or_fail crates repo context cmd.document_type cmd.document_instance_id s)
        _
        λ stored found.
          read_step repo
            (check_permission caller (publish_document (some stored.document_type_id))
              (some stored))
            _
            λ _ permitted.
              read_step repo (find_type_or crates repo context cmd.document_type) _ λ dt known.
                read_step repo
                  (if not dt.options.draft_and_publish
                    then err (conflict (no_draft_and_publish dt.info.title))
                    else ok tt)
                  _
                  λ _ supported.
                    read_step repo (map_err domain (Instance.unpublish now stored).0) _ λ _ done.
                      save_rule repo _ (Instance.unpublish now stored).1
                        (pure (Instance.unpublish now stored).1) s
                        (record {
                          stored = stored;
                          found = found;
                          allowed = check_permission-ok caller _ (some stored) _ permitted;
                          doc_type = dt;
                          known = ground arith;
                          supported = ground arith;
                          moved =
                              ap (λ r. (r, (Instance.unpublish now stored).1))
                                (map_err-eq-ok _ done);
                        })
                        (λ t. refl)

  -- What `delete` requires.
  pub record IsDeletable (caller : CallerContext) (cmd : DeleteDocumentCommand) (s : S)
      : Type 0 where
    pub stored : DocumentInstance
    pub found :
        find_or_fail crates repo context cmd.document_type cmd.document_instance_id s ≡ ok stored
    pub allowed :
        caller_can caller (delete_document (some stored.document_type_id)) (some stored) ≡ true

  -- `delete` leaves the store alone or makes the one deletion that it is asked for, of a stored
  -- document that the caller may delete.
  pub delete-changes :
      (caller : CallerContext) (cmd : DeleteDocumentCommand) (s : S)
      → ((delete crates repo context caller cmd s).1 ≡ s)
        ⊎ (IsDeletable caller cmd s
            × ((delete crates repo context caller cmd s).1
                ≡ (repo.delete cmd.document_type cmd.document_instance_id s).1))
  unfolding delete
  delete-changes caller cmd s =
      read_step_to
        (λ t.
          IsDeletable caller cmd s
          × (t ≡ (repo.delete cmd.document_type cmd.document_instance_id s).1))
        s (find_or_fail crates repo context cmd.document_type cmd.document_instance_id s) _
        λ stored found.
          read_step_to
            (λ t.
              IsDeletable caller cmd s
              × (t ≡ (repo.delete cmd.document_type cmd.document_instance_id s).1))
            s
            (check_permission caller (delete_document (some stored.document_type_id)) (some stored))
            _
            λ _ permitted. inr (
              record {
                stored = stored;
                found = found;
                allowed = check_permission-ok caller _ (some stored) _ permitted;
              },
              refl,
            )

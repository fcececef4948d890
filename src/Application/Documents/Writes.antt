-- ===== src/Application/Documents/Writes.antt =====
-- What `create` and `update` do to the store: which documents they save, and for whom.
use luminair_service_aws_dsq.Base.{
  true, false, none, some, ◌≡◌, ap, ◌∙◌, ok, err, if◌then◌else◌, arith,
}
use luminair_service_aws_dsq.Domain.Ids.{DocumentInstanceId, DateTime}
use luminair_service_aws_dsq.Domain.Schema.{DocumentType}
use luminair_service_aws_dsq.Domain.Errors.{single_type_already_exists}
use luminair_service_aws_dsq.Domain.Instance
use luminair_service_aws_dsq.Domain.Instance.{DocumentInstance, PopulatedInstance}
use luminair_service_aws_dsq.Domain.Auth.{create_document, update_document}
use luminair_service_aws_dsq.Domain.Registry.{find_type}
use luminair_service_aws_dsq.Domain.Validator.{Crates}
use luminair_service_aws_dsq.Application.Errors.{domain}
use luminair_service_aws_dsq.Application.Context.{
  CallerContext, caller_can, check_permission, check_permission-ok,
}
use luminair_service_aws_dsq.Application.Commands.{CreateDocumentCommand, UpdateDocumentCommand}
use luminair_service_aws_dsq.Application.Ports.{DocumentInstanceRepository}
use luminair_service_aws_dsq.Application.Documents.{
  SystemContext, find_type_or, find_or_fail, validated, answer, is_taken, drafted, edited, create,
  update, with_fields, insert_all,
}
use luminair_service_aws_dsq.Application.Relations.Frame.{SameButRelations, accepted_frame}
use luminair_service_aws_dsq.Application.Documents.Rules.{
  SavesOnly, read_step, save_rule, answer_quiet,
}

module _ {S : Type 0} (crates : Crates) (repo : DocumentInstanceRepository S)
    (context : SystemContext) where
  -- What `create` may save.
  pub record IsCreated (caller : CallerContext) (cmd : CreateDocumentCommand)
      (id : DocumentInstanceId) (now : DateTime) (s : S) (inst : DocumentInstance) : Type 0 where
    pub allowed : caller_can caller (create_document (some cmd.document_type)) none ≡ true
    pub doc_type : DocumentType
    pub known : find_type context.schema cmd.document_type ≡ some doc_type
    pub free : is_taken crates repo context doc_type cmd.document_type s ≡ ok false
    pub made : drafted crates repo context caller cmd id now ≡ ok inst
    pub conforms : validated crates repo context inst ≡ ok tt
    -- a first draft of the caller's, which differs in its relations at most
    pub frame :
        SameButRelations
          (with_fields (Instance.new id cmd.document_type (some caller.user_id) now) cmd.fields)
          inst

  -- `create` leaves the store alone or makes one save, of a document that the caller may create, of a
  -- known type, which is not a single type that is taken, made from the command as a first draft of
  -- the caller's, and valid against the schema. The reads after the save change nothing.
  pub create-SavesOnly :
      (caller : CallerContext) (cmd : CreateDocumentCommand) (id : DocumentInstanceId)
      (now : DateTime) (s : S)
      → SavesOnly repo
          (IsCreated caller cmd id now s)
          s
          (create crates repo context caller cmd id now s).1
  unfolding create
  create-SavesOnly caller cmd id now s =
      read_step repo (check_permission caller (create_document (some cmd.document_type)) none) _
        λ _ permitted.
          read_step repo (find_type_or crates repo context cmd.document_type) _ λ dt known.
            read_step repo (is_taken crates repo context dt cmd.document_type s) _ λ taken looked.
              read_step repo
                (if taken
                  then err (domain (single_type_already_exists cmd.document_type))
                  else ok tt)
                _
                λ _ free.
                  read_step repo (drafted crates repo context caller cmd id now) _ λ inst made.
                    read_step repo (validated crates repo context inst) _ λ _ conforms.
                      save_rule repo _ inst
                        (answer crates repo context cmd.document_type cmd.populate inst) s
                        (record {
                          allowed = check_permission-ok caller _ none _ permitted;
                          doc_type = dt;
                          known = ground arith;
                          free = looked ∙ ap ok (ground arith);
                          made = made;
                          conforms = conforms;
                          frame =
                              accepted_frame context.schema cmd.document_type cmd.relations _ inst
                                made;
                        })
                        (answer_quiet repo crates context cmd.document_type cmd.populate inst)

  -- What `update` may save.
  pub record IsUpdated (caller : CallerContext) (cmd : UpdateDocumentCommand) (now : DateTime)
      (s : S) (inst : DocumentInstance) : Type 0 where
    pub stored : DocumentInstance
    pub found :
        find_or_fail crates repo context cmd.document_type cmd.document_instance_id s ≡ ok stored
    pub allowed :
        caller_can caller (update_document (some stored.document_type_id)) (some stored) ≡ true
    pub conforms : validated crates repo context inst ≡ ok tt
    pub same_id : inst.id ≡ stored.id
    pub same_type : inst.document_type_id ≡ stored.document_type_id
    pub merged :
        inst.content
        ≡ record (stored.content) { fields = insert_all stored.content.fields cmd.fields }
    pub stamped : inst.audit ≡ (Instance.touch (some caller.user_id) now stored).audit

  -- `update` leaves the store alone or makes one save, of a stored document that the caller may
  -- update: with the same identity, type, publication state, creation date and owner, the command's
  -- fields over its own, the version one higher, signed by the caller, and valid against the schema.
  pub update-SavesOnly :
      (caller : CallerContext) (cmd : UpdateDocumentCommand) (now : DateTime) (s : S)
      → SavesOnly repo
          (IsUpdated caller cmd now s)
          s
          (update crates repo context caller cmd now s).1
  unfolding update Instance.touch
  update-SavesOnly caller cmd now s =
      read_step repo (find_or_fail crates repo context cmd.document_type cmd.document_instance_id s)
        _
        λ stored found.
          read_step repo
            (check_permission caller (update_document (some stored.document_type_id)) (some stored))
            _
            λ _ permitted. read_step repo (edited crates repo context cmd stored) _ λ changed made.
              read_step repo
                (validated crates repo context (Instance.touch (some caller.user_id) now changed)) _
                λ _ conforms.
                  let frame =
                    accepted_frame context.schema cmd.document_type cmd.relations _ changed made in
                  save_rule repo _ (Instance.touch (some caller.user_id) now changed)
                    (answer crates repo context cmd.document_type cmd.populate
                      (Instance.touch (some caller.user_id) now changed))
                    s
                    (record {
                      stored = stored;
                      found = found;
                      allowed = check_permission-ok caller _ (some stored) _ permitted;
                      conforms = conforms;
                      same_id = ap (λ (i : DocumentInstance). i.id) frame;
                      same_type = ap (λ (i : DocumentInstance). i.document_type_id) frame;
                      merged = ap (λ (i : DocumentInstance). i.content) frame;
                      stamped =
                          ap
                            (λ (i : DocumentInstance).
                              (Instance.touch (some caller.user_id) now i).audit)
                            frame;
                    })
                    (answer_quiet repo crates context cmd.document_type cmd.populate
                      (Instance.touch (some caller.user_id) now changed))

-- ===== src/Tests/Fixtures.antt =====
-- The data of the examples: a schema with articles and their tags, repositories held in lists, and
-- callers.
use luminair_service_aws_dsq.Base.{
  true, false, none, some, List, [], ◌∷◌, ◌==◌, nat_eq, string_eq, ok, ltb, length, any, retain,
  find_first, contains, not,
}
use luminair_service_aws_dsq.Base.Map.{HashMap}
use luminair_service_aws_dsq.Domain.Ids.{AttributeId}
use luminair_service_aws_dsq.Domain.Schema.{
  DocumentType, Relation, collection, primitive, has_many, min_length, FieldDefinition,
}
use luminair_service_aws_dsq.Domain.Schema as Sch
use luminair_service_aws_dsq.Domain.Values as Val
use luminair_service_aws_dsq.Domain.Values.{ContentValue, scalar}
use luminair_service_aws_dsq.Domain.Instance.{DocumentInstance, draft}
use luminair_service_aws_dsq.Domain.Auth.{
  create_document, publish_document, delete_document, manage_users,
}
use luminair_service_aws_dsq.Domain.AccessRequest.{AccessRequest, is_active}
use luminair_service_aws_dsq.Domain.Status.{is_pending}
use luminair_service_aws_dsq.Domain.Config.{SystemConfig}
use luminair_service_aws_dsq.Domain.Registry
use luminair_service_aws_dsq.Base.{arith}
use luminair_service_aws_dsq.Base.Map
use luminair_service_aws_dsq.Domain.Instance.{related}
use luminair_service_aws_dsq.Domain.Instance.Relations.{IsTidy}
use luminair_service_aws_dsq.Domain.Validator.{Crates}
use luminair_service_aws_dsq.Application.Context.{CallerContext}
use luminair_service_aws_dsq.Application.Commands.{
  CreateDocumentCommand, UpdateDocumentCommand, set, connect,
}
use luminair_service_aws_dsq.Application.Ports.{
  DocumentInstanceRepository, AccessRequestRepository, UserRoleAssignmentRepository, RoleRepository,
}
use luminair_service_aws_dsq.Application.Documents.{SystemContext}

abbrev pub title_field : FieldDefinition
title_field = record {
  id = "title";
  field_type = primitive Sch.text;
  required = true;
  unique = false;
  constraints = min_length 3 ∷ [];
}

abbrev pub articles : DocumentType
articles = record {
  id = "article";
  kind = collection;
  info = record {
    title = "Article";
    singular_name = "article";
    plural_name = "articles";
    description = none;
  };
  options = record { draft_and_publish = true };
  fields = title_field ∷ [];
}

abbrev pub tags : DocumentType
tags = record {
  id = "tag";
  kind = collection;
  info = record { title = "Tag"; singular_name = "tag"; plural_name = "tags"; description = none };
  options = record { draft_and_publish = false };
  fields = [];
}

abbrev pub article_tags : Relation
article_tags = record {
  id = "article-tags";
  owner_type = "article";
  owner_attr = "tags";
  owner_kind = has_many;
  target_type = "tag";
  inverse = some (record { inverse_attr = "articles" });
}

abbrev pub schema : Registry.SchemaRegistry
schema = Registry.new (articles ∷ tags ∷ []) (article_tags ∷ [])

abbrev pub config : SystemConfig
config = record { id = 1; available_locales = "en" ∷ []; default_locale = "en" }

abbrev pub context : SystemContext
context = record { schema = schema; config = config }

abbrev pub crates : Crates
crates = record { decimal_lt = ltb; regex_new = λ _. ok (λ _. true) }

abbrev pub editor : CallerContext
editor = record {
  user_id = "ada";
  roles =
      record {
        id = 1;
        name = "editor";
        description = none;
        permissions =
            create_document (some "article")
            ∷ publish_document none
            ∷ delete_document none
            ∷ manage_users
            ∷ [];
      }
      ∷ [];
}

abbrev pub fields : HashMap AttributeId ContentValue
fields = ("title", scalar (Val.primitive (Val.text "Hello"))) ∷ []

-- A draft of the editor's, as it is stored.
abbrev pub article : DocumentInstance
article = record {
  id = 10;
  db_row_id = none;
  document_type_id = "article";
  content = record { fields = fields; publication_state = draft none };
  relations = ("tags", record { attribute_id = "tags"; target_instance_id = 5 } ∷ []) ∷ [];
  audit = record {
    created_at = 7;
    created_by = some "ada";
    updated_at = 7;
    updated_by = some "ada";
    version = 1;
  };
}

abbrev pub create_command : CreateDocumentCommand
create_command = record {
  document_type = "article";
  fields = fields;
  relations = ("tags", set (5 ∷ 5 ∷ [])) ∷ [];
  populate = none;
}

abbrev pub update_command : UpdateDocumentCommand
update_command = record {
  document_instance_id = 10;
  document_type = "article";
  fields = ("title", scalar (Val.primitive (Val.text "Again"))) ∷ [];
  relations = ("tags", connect (6 ∷ [])) ∷ [];
  populate = none;
}

pub article-IsTidy : IsTidy article
unfolding related Map.get
article-IsTidy attr = ground arith

-- Documents, the newest first.
abbrev pub documents : DocumentInstanceRepository (List DocumentInstance)
documents = record {
  find_by_id = λ _ id s. ok (find_first (λ inst. inst.id == id) s);
  find_by_type = λ _ p _ s.
      ok (record { items = s; total = length s; page = p.page; page_size = p.page_size });
  count = λ _ _ s. ok (length s);
  fetch_relations = λ _ _ _ _. ok [];
  save = λ inst s. (ok tt, inst ∷ s);
  delete = λ _ id s. (ok tt, retain (λ inst. not (inst.id == id)) s);
  exists_for_type = λ type_id s. ok (any (λ inst. inst.document_type_id == type_id) s);
}

abbrev pub requests : AccessRequestRepository (List AccessRequest)
requests = record {
  find_by_id = λ id s. ok (find_first (λ r. r.id == id) s);
  find_by_user = λ user s. ok (find_first (λ r. r.user_id == user) s);
  find_active_by_user =
      λ user s. ok (find_first (λ r. is_active r) (retain (λ r. r.user_id == user) s));
  find_pending = λ s. ok (retain (λ r. is_pending r.status) s);
  save = λ r s. (ok tt, r ∷ s);
}

abbrev pub assignments : UserRoleAssignmentRepository (List AccessRequest)
assignments = record {
  find_by_user = λ _ _. ok [];
  save = λ _ s. (ok tt, s);
  save_all = λ _ s. (ok tt, s);
}

abbrev pub roles : RoleRepository (List AccessRequest)
roles = record {
  find_by_id = λ id _. ok (find_first (λ r. r.id == id) editor.roles);
  find_by_ids = λ ids _. ok (retain (λ r. contains ids r.id) editor.roles);
}

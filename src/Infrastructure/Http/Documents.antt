-- ===== src/Infrastructure/Http/Documents.antt =====
-- The representation of documents, document types and access requests (infrastructure/src/api/dto.rs).
use luminair_service_aws_dsq.Base.{String, Option, none, some, List, [], ◌∷◌, string_eq}
use luminair_service_aws_dsq.Base.Int.{pos}
use luminair_service_aws_dsq.Base.Map.{HashMap}
use luminair_service_aws_dsq.Domain.Ids.{AttributeId, RoleId}
use luminair_service_aws_dsq.Domain.Schema.{
  FieldType, FieldDefinition, DocumentKind, collection, single_type, DocumentType,
}
use luminair_service_aws_dsq.Domain.Values.{ContentValue}
use luminair_service_aws_dsq.Domain.Status.{AccessRequestStatus, pending, approved, rejected}
use luminair_service_aws_dsq.Domain.AccessRequest.{AccessRequest}
use luminair_service_aws_dsq.Domain.Instance.{
  PublicationState, draft, published, DocumentInstance, PopulatedInstance,
}
use luminair_service_aws_dsq.Infrastructure.Json.{
  Json, Items, no_items, item, Members, no_members, member, insert_member,
}
use luminair_service_aws_dsq.Infrastructure.Http.Values.{
  Formats, insert_entries, content_value_to_json,
}

record AccessRequestDto : Type 0 where
  pub id : String
  pub user_id : String
  pub email : Option String
  pub name : Option String
  pub status : String
  pub requested_at : String
  pub reviewed_at : Option String
  pub reviewed_by : Option String
  pub rejection_reason : Option String
  pub assigned_roles : List String

abbrev status_of : AccessRequestStatus → String × Option String
status_of pending = ("pending", none)
status_of approved = ("approved", none)
status_of (rejected reason) = ("rejected", reason)

abbrev status_str : PublicationState → String
status_str (draft _) = "draft"
status_str (published _ _ _) = "published"

-- `format!("{:?}", kind).to_lowercase()`
abbrev kind_text : DocumentKind → String
kind_text collection = "collection"
kind_text single_type = "singletype"

-- `json!` of an `Option`.
abbrev text_or_null : Option String → Json
text_or_null none = Json.null
text_or_null (some s) = Json.text s

module _ (formats : Formats) where
  abbrev role_texts : List RoleId → List String
  role_texts [] = []
  role_texts (r ∷ rs) = formats.uuid_to_string r ∷ role_texts rs

  abbrev access_request_dto : AccessRequest → AccessRequestDto
  access_request_dto req =
      let (status, rejection_reason) = status_of req.status in
      record {
        id = formats.uuid_to_string req.id;
        user_id = req.user_id;
        email = req.email;
        name = req.name;
        status = status;
        requested_at = formats.to_rfc3339 req.requested_at;
        reviewed_at = elim req.reviewed_at [ none ↦ none | some t ↦ some (formats.to_rfc3339 t) ];
        reviewed_by = req.reviewed_by;
        rejection_reason = rejection_reason;
        assigned_roles = role_texts req.assigned_roles;
      }

  -- The members that every document has.
  abbrev pub metadata : DocumentInstance → Members
  metadata inst = member "id" (Json.text (formats.uuid_to_string inst.id)) (
      member "publication-status" (Json.text (status_str inst.content.publication_state)) (
        member "created-at" (Json.text (formats.to_rfc3339 inst.audit.created_at)) (
          member "updated-at" (Json.text (formats.to_rfc3339 inst.audit.updated_at)) (
            member "version" (Json.number (formats.integer_number (pos inst.audit.version)))
              no_members))))

  abbrev pub add_fields : Members → HashMap AttributeId ContentValue → Members
  add_fields members fields = insert_entries formats (content_value_to_json formats) members fields

  abbrev related_json : DocumentInstance → Json
  related_json rel = Json.object (
      add_fields (member "id" (Json.text (formats.uuid_to_string rel.id)) no_members)
        rel.content.fields)

  abbrev related_items : List DocumentInstance → Items
  related_items [] = no_items
  related_items (rel ∷ related_list) = item (related_json rel) (related_items related_list)

  abbrev pub related_array : List DocumentInstance → Json
  related_array related_list = Json.array (related_items related_list)

  unfoldable pub document_to_json : PopulatedInstance → Json
  document_to_json inst = Json.object (
      insert_entries formats related_array
        (add_fields (metadata inst.instance_of) inst.instance_of.content.fields)
        inst.populated_relations)

-- `debug` is the text that the derived `Debug` gives a field type.
module _ (debug : FieldType → String) where
  abbrev field_info : FieldDefinition → Json
  field_info def = Json.object (
      member "type" (Json.text (debug def.field_type)) (
        member "required" (Json.boolean def.required)
          (member "unique" (Json.boolean def.unique) no_members)))

  unfoldable add_field_infos : Members → List FieldDefinition → Members
  add_field_infos attr_map [] = attr_map
  add_field_infos attr_map (def ∷ fields) =
      add_field_infos (insert_member attr_map def.id (field_info def)) fields

  abbrev document_type_to_json : DocumentType → Json
  document_type_to_json doc_type = Json.object (
      member "id" (Json.text doc_type.id) (
        member "kind" (Json.text (kind_text doc_type.kind)) (
          member "info"
            (Json.object (
              member "displayName" (Json.text doc_type.info.title) (
                member "singularName" (Json.text doc_type.info.singular_name) (
                  member "pluralName" (Json.text doc_type.info.plural_name)
                    (member "description" (text_or_null doc_type.info.description) no_members)))))
            (member "options"
              (Json.object (
                member "draftAndPublish" (Json.boolean doc_type.options.draft_and_publish)
                  no_members))
              (member "attributes" (Json.object (add_field_infos no_members doc_type.fields))
                no_members)))))

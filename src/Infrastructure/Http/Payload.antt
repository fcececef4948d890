-- ===== src/Infrastructure/Http/Payload.antt =====
-- Relation actions, payloads and query values (infrastructure/src/api/dto.rs).
use luminair_service_aws_dsq.Base.{
  String, Bool, true, false, ◌||◌, Option, none, some, List, [], ◌∷◌, ◌==◌, string_eq, Result, ok,
  err, retain, if◌then◌else◌,
}
use luminair_service_aws_dsq.Base.Text.{parse_i64}
use luminair_service_aws_dsq.Base.Map.{HashMap}
use luminair_service_aws_dsq.Base.Map
use luminair_service_aws_dsq.Base.Fallible.{◌>>=◌}
use luminair_service_aws_dsq.Domain.Ids.{Uuid, AttributeId, DocumentInstanceId}
use luminair_service_aws_dsq.Domain.Schema.{FieldType, PrimitiveType, DocumentType, find_field}
use luminair_service_aws_dsq.Domain.Registry.{SchemaRegistry, find_relation_for_attr}
use luminair_service_aws_dsq.Domain.Registry
use luminair_service_aws_dsq.Domain.Values.{PrimitiveValue, DomainValue, ContentValue}
use luminair_service_aws_dsq.Domain.Values as Val
use luminair_service_aws_dsq.Application.Commands.{RelationAction}
use luminair_service_aws_dsq.Application.Commands as Act
use luminair_service_aws_dsq.Infrastructure.Json.{
  Json, Items, no_items, item, Members, no_members, member, get_member, has_member,
}
use luminair_service_aws_dsq.Infrastructure.Http.Errors.{
  ApiError, bad_request, plain, about, several_actions,
}
use luminair_service_aws_dsq.Infrastructure.Http.Values.{
  Formats, as_str, as_bool, as_object, wanted, parsed, json_to_content_value,
}

pub record ParsedPayload : Type 0 where
  pub fields : HashMap AttributeId ContentValue
  pub relations : HashMap AttributeId RelationAction

-- The keys that a payload may repeat from an answer.
abbrev pub is_metadata : String → Bool
is_metadata k =
    k == "id"
    || (k == "publication-status" || (k == "created-at" || (k == "updated-at" || k == "version")))

module _ (formats : Formats) where
  abbrev parse_id : String → Result ApiError Uuid
  parse_id s = parsed "invalid uuid" s (formats.parse_uuid s)

  -- The identifier in an object.
  unfoldable pub parse_id_of : Members → Result ApiError Uuid
  parse_id_of obj =
      wanted (plain "expected 'id' field in relation object") (get_member obj "id") >>= λ id_val.
      wanted (plain "expected string for relation 'id'") (as_str id_val) >>= λ s. parse_id s

  unfoldable pub parse_item : Json → Result ApiError Uuid
  parse_item (Json.text s) = parse_id s
  parse_item (Json.object obj) = parse_id_of obj
  parse_item _ = err (bad_request (plain "expected string or object with 'id' for relation item"))

  unfoldable pub parse_items : Items → Result ApiError (List DocumentInstanceId)
  parse_items no_items = ok []
  parse_items (item v rest) = parse_item v >>= λ u. parse_items rest >>= λ us. ok (u ∷ us)

  unfoldable pub parse_target_ids : Json → Result ApiError (List DocumentInstanceId)
  parse_target_ids (Json.text s) = parse_id s >>= λ u. ok (u ∷ [])
  parse_target_ids (Json.object obj) = parse_id_of obj >>= λ u. ok (u ∷ [])
  parse_target_ids (Json.array arr) = parse_items arr
  parse_target_ids _ =
      err (bad_request (plain "expected string, object with 'id', or array of IDs for relation"))

  -- The keys of `map` among the actions, in the order of the array.
  unfoldable pub known_keys : Members → List String
  known_keys obj = retain (has_member obj) ("connect" ∷ "disconnect" ∷ "set" ∷ "unset" ∷ [])

  -- `&map[key]`, at a key that is there.
  abbrev at_key : Members → String → Json
  at_key obj key = elim (get_member obj key) [ none ↦ Json.null | some v ↦ v ]

  -- The only key decides; the last arm is the code's `unreachable!`.
  unfoldable pub single_action : Members → String → Result ApiError RelationAction
  single_action obj key =
      if key == "connect"
      then (parse_target_ids (at_key obj "connect") >>= λ ids. ok (Act.connect ids))
      else if key == "disconnect"
      then (parse_target_ids (at_key obj "disconnect") >>= λ ids. ok (Act.disconnect ids))
      else if key == "set"
      then (parse_target_ids (at_key obj "set") >>= λ ids. ok (Act.set ids))
      else elim (as_bool (at_key obj "unset")) [
        | some true ↦ ok Act.unset
        | _ ↦ err (bad_request (plain "'unset' must be set to true (e.g. {\"unset\": true})"))
      ]

  -- The arm for an object, over its known keys.
  unfoldable pub object_action : Members → List String → Result ApiError RelationAction
  object_action obj [] =
      if has_member obj "id"
      then (parse_target_ids (Json.object obj) >>= λ ids. ok (Act.set ids))
      else err (
          bad_request (
            plain
              "invalid relation action: expected 'connect', 'disconnect', 'set', 'unset', or shorthand target ID"))
  object_action obj (key ∷ []) = single_action obj key
  object_action obj (key ∷ more ∷ keys) = err (bad_request (several_actions (key ∷ more ∷ keys)))

  unfoldable pub parse_relation_action : Json → Result ApiError RelationAction
  parse_relation_action Json.null = ok Act.unset
  parse_relation_action (Json.text s) = parse_target_ids (Json.text s) >>= λ ids. ok (Act.set ids)
  parse_relation_action (Json.array arr) =
      parse_target_ids (Json.array arr) >>= λ ids. ok (Act.set ids)
  parse_relation_action (Json.object obj) = object_action obj (known_keys obj)
  parse_relation_action _ = err (
      bad_request
        (plain "invalid relation format: expected object, string UUID, array of UUIDs, or null"))

module _ (formats : Formats) (doc_type : DocumentType) (schema_reg : SchemaRegistry) where
  -- The three arms for an attribute: a declared field, a relation, and neither.
  unfoldable pub add_attribute : ParsedPayload → AttributeId → Json → Result ApiError ParsedPayload
  add_attribute payload attr_id v = elim (find_field doc_type attr_id) [
    | some field_def ↦ json_to_content_value formats v field_def.field_type >>= λ content_val.
        ok (record payload { fields = Map.insert payload.fields attr_id content_val })
    | none ↦ elim (find_relation_for_attr schema_reg doc_type.id attr_id) [
      | some _ ↦ parse_relation_action formats v >>= λ action.
          ok (record payload { relations = Map.insert payload.relations attr_id action })
      | none ↦ ok (record payload { fields = Map.insert payload.fields attr_id Val.null })
    ]
  ]

  -- One pass of the loop.
  unfoldable pub add_entry : ParsedPayload → String → Json → Result ApiError ParsedPayload
  add_entry payload k v =
      if is_metadata k
      then ok payload
      else (parsed "" k (formats.attribute_id k) >>= λ attr_id. add_attribute payload attr_id v)

  unfoldable pub add_entries : ParsedPayload → Members → Result ApiError ParsedPayload
  add_entries payload no_members = ok payload
  add_entries payload (member k v rest) = add_entry payload k v >>= λ grown. add_entries grown rest

  unfoldable pub parse_payload_from_json : Json → Result ApiError ParsedPayload
  parse_payload_from_json body =
      wanted (plain "Request body must be a JSON object") (as_object body) >>= λ obj.
      add_entries (record { fields = []; relations = [] }) obj

unfoldable parse_fields_from_json :
    Formats → Json → DocumentType → Result ApiError (HashMap AttributeId ContentValue)
parse_fields_from_json formats body doc_type =
    parse_payload_from_json formats doc_type Registry.empty body >>= λ payload. ok payload.fields

-- `parse::<bool>()`
abbrev parse_bool : String → Option Bool
parse_bool s = if s == "true" then some true else if s == "false" then some false else none

unfoldable string_to_domain_value : Formats → String → FieldType → Result ApiError DomainValue
string_to_domain_value formats s (FieldType.primitive (PrimitiveType.integer size)) =
    wanted (about "invalid integer query param" s) (parse_i64 s) >>= λ i.
    ok (Val.primitive (PrimitiveValue.integer i))
string_to_domain_value formats s (FieldType.primitive (PrimitiveType.decimal precision scale)) =
    parsed "invalid decimal query param" s (formats.parse_decimal s) >>= λ d.
    ok (Val.primitive (PrimitiveValue.decimal d))
string_to_domain_value formats s (FieldType.primitive PrimitiveType.boolean) =
    wanted (about "invalid boolean query param" s) (parse_bool s) >>= λ b.
    ok (Val.primitive (PrimitiveValue.boolean b))
string_to_domain_value formats s (FieldType.primitive PrimitiveType.uuid) =
    parsed "invalid uuid query param" s (formats.parse_uuid s) >>= λ u.
    ok (Val.primitive (PrimitiveValue.uuid u))
string_to_domain_value formats s (FieldType.primitive PrimitiveType.date) =
    parsed "invalid date query param" s (formats.parse_date s) >>= λ d.
    ok (Val.primitive (PrimitiveValue.date d))
string_to_domain_value formats s (FieldType.primitive PrimitiveType.date_time) =
    parsed "invalid datetime query param" s (formats.parse_rfc3339 s) >>= λ t.
    ok (Val.primitive (PrimitiveValue.date_time t))
string_to_domain_value formats s (FieldType.primitive PrimitiveType.uid) =
    ok (Val.primitive (PrimitiveValue.uid s))
string_to_domain_value formats s FieldType.email =
    parsed "invalid email query param" s (formats.email s) >>= λ e. ok (Val.email e)
string_to_domain_value formats s FieldType.url =
    parsed "invalid url query param" s (formats.url s) >>= λ u. ok (Val.url u)
string_to_domain_value formats s _ = ok (Val.primitive (PrimitiveValue.text s))

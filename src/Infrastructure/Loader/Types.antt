-- ===== src/Infrastructure/Loader/Types.antt =====
-- Field types and document types (infrastructure/src/schema_loader/loader.rs).
use luminair_service_aws_dsq.Base.{
  ℕ, String, Bool, Option, none, some, List, [], ◌∷◌, ◌==◌, string_eq, Result, ok, err, map_err,
  ok_or, contains, if◌then◌else◌,
}
use luminair_service_aws_dsq.Base.IndexSet
use luminair_service_aws_dsq.Base.Text.{to_ascii_lowercase}
use luminair_service_aws_dsq.Base.Fallible.{◌>>=◌}
use luminair_service_aws_dsq.Domain.Ids.{DocumentTypeId, AttributeId, RelationId, LocaleId}
use luminair_service_aws_dsq.Domain.Schema.{
  FieldType, localized_text, email, url, PrimitiveType, IntegerSize, date_time, FieldDefinition,
  field_key, DocumentType, DocumentKind,
}
use luminair_service_aws_dsq.Infrastructure.Json.{Numbers}
use luminair_service_aws_dsq.Infrastructure.Naming.Sanitize.{is_reserved_sql_keyword}
use luminair_service_aws_dsq.Infrastructure.Loader.Raw.{
  RawFieldType, simple, structured, RawStructuredType, RawFieldDefinition, RawDocumentKind,
  RawDocumentType, SchemaLoaderError, json, file_name_mismatch, invalid_document_type_id,
  invalid_attribute_id, reserved_keyword, inapplicable_constraint, Context, attribute_on, TypeText,
  unknown_field_type, unknown_integer_size, type_text,
}
use luminair_service_aws_dsq.Infrastructure.Loader.Constraints.{convert_raw_constraints}

-- `try_new` of the validated newtypes: the identifier that a text is read as, if it is accepted.
pub record Identifiers : Type 0 where
  pub document_type_id : String → Option DocumentTypeId
  pub attribute_id : String → Option AttributeId
  pub relation_id : String → Option RelationId
  pub locale_id : String → Option LocaleId

abbrev primitive : PrimitiveType → Result TypeText FieldType
primitive t = ok (FieldType.primitive t)

abbrev is_one_of : String → List String → Bool
is_one_of s names = contains names s

-- The first `match`, on the lower-case name.
unfoldable pub simple_type : String → Result TypeText FieldType
simple_type s =
    if is_one_of s ("text" ∷ "string" ∷ [])
    then primitive PrimitiveType.text
    else if s == "uid"
    then primitive PrimitiveType.uid
    else if s == "uuid"
    then primitive PrimitiveType.uuid
    else if is_one_of s ("boolean" ∷ "bool" ∷ [])
    then primitive PrimitiveType.boolean
    else if s == "date"
    then primitive PrimitiveType.date
    else if is_one_of s ("datetime" ∷ "timestamp" ∷ [])
    then primitive date_time
    else if s == "email"
    then ok email
    else if s == "url"
    then ok url
    else if is_one_of s ("localizedtext" ∷ "localized_text" ∷ [])
    then ok localized_text
    else if s == "json"
    then ok FieldType.json
    else if is_one_of s ("integer" ∷ "int" ∷ "int32" ∷ [])
    then primitive (PrimitiveType.integer IntegerSize.i32)
    else if is_one_of s ("int16" ∷ "smallint" ∷ [])
    then primitive (PrimitiveType.integer IntegerSize.i16)
    else if is_one_of s ("int64" ∷ "bigint" ∷ [])
    then primitive (PrimitiveType.integer IntegerSize.i64)
    else if is_one_of s ("decimal" ∷ "numeric" ∷ [])
    then primitive (PrimitiveType.decimal 10 2)
    else err (unknown_field_type s)

unfoldable pub integer_type : String → Result TypeText FieldType
integer_type s =
    if is_one_of s ("int16" ∷ "i16" ∷ "smallint" ∷ [])
    then primitive (PrimitiveType.integer IntegerSize.i16)
    else if is_one_of s ("int32" ∷ "i32" ∷ "integer" ∷ [])
    then primitive (PrimitiveType.integer IntegerSize.i32)
    else if is_one_of s ("int64" ∷ "i64" ∷ "bigint" ∷ [])
    then primitive (PrimitiveType.integer IntegerSize.i64)
    else err (unknown_integer_size s)

abbrev unwrap_or : Option ℕ → ℕ → ℕ
unwrap_or none default = default
unwrap_or (some n) default = n

unfoldable pub parse_raw_field_type : RawFieldType → Result TypeText FieldType
parse_raw_field_type (simple s) = simple_type (to_ascii_lowercase s)
parse_raw_field_type (structured (RawStructuredType.integer size)) =
    integer_type (to_ascii_lowercase size)
parse_raw_field_type (structured (RawStructuredType.decimal precision scale)) =
    primitive (PrimitiveType.decimal (unwrap_or precision 10) (unwrap_or scale 2))

-- `if is_reserved_sql_keyword(..) { return Err(..) }`
abbrev pub check_reserved : String → Context → Result SchemaLoaderError (Unit {0})
check_reserved name context =
    if is_reserved_sql_keyword name then err (reserved_keyword name context) else ok tt

-- `if let Some(stem) = file_stem && stem != singular_name { return Err(..) }`
abbrev pub check_stem : Option String → String → Result SchemaLoaderError (Unit {0})
check_stem none singular_name = ok tt
check_stem (some stem) singular_name =
    if stem == singular_name then ok tt else err (file_name_mismatch stem singular_name)

abbrev document_kind : RawDocumentKind → DocumentKind
document_kind RawDocumentKind.collection = DocumentKind.collection
document_kind RawDocumentKind.single_type = DocumentKind.single_type

-- `file_stem.unwrap_or("<in-memory>")`
abbrev pub stem_or_memory : Option String → String
stem_or_memory none = "<in-memory>"
stem_or_memory (some stem) = stem

module _ (numbers : Numbers) (ids : Identifiers) where
  -- The body of the loop over the attributes, up to the insertion.
  unfoldable pub load_field :
      String → String → RawFieldDefinition → Result SchemaLoaderError FieldDefinition
  load_field singular_name attr_name raw_field =
      ok_or (invalid_attribute_id attr_name) (ids.attribute_id attr_name) >>= λ attr_id.
      check_reserved attr_name (attribute_on singular_name) >>= λ _.
      map_err (inapplicable_constraint attr_name type_text)
        (parse_raw_field_type raw_field.field_type)
      >>= λ field_type.
          convert_raw_constraints numbers raw_field.constraints field_type attr_name
          >>= λ constraints. ok (record {
            id = attr_id;
            field_type = field_type;
            required = raw_field.required;
            unique = raw_field.unique;
            constraints = constraints;
          })

  unfoldable pub load_fields :
      String
      → List FieldDefinition
      → List (String × RawFieldDefinition)
      → Result SchemaLoaderError (List FieldDefinition)
  load_fields singular_name fields [] = ok fields
  load_fields singular_name fields ((attr_name, raw_field) ∷ rest) =
      load_field singular_name attr_name raw_field >>= λ def.
      load_fields singular_name (IndexSet.insert field_key fields def) rest

  -- After deserialisation.
  unfoldable pub convert_document_type :
      RawDocumentType → Option String → Result SchemaLoaderError DocumentType
  convert_document_type raw file_stem = check_stem file_stem raw.info.singular_name >>= λ _.
      ok_or (invalid_document_type_id raw.info.singular_name)
        (ids.document_type_id raw.info.singular_name)
      >>= λ type_id. check_reserved raw.info.singular_name Context.singular_name >>= λ _.
          check_reserved raw.info.plural_name Context.plural_name >>= λ _.
          load_fields raw.info.singular_name [] raw.attributes >>= λ fields. ok (record {
            id = type_id;
            kind = document_kind raw.kind;
            info = record {
              title = raw.info.display_name;
              singular_name = raw.info.singular_name;
              plural_name = raw.info.plural_name;
              description = raw.info.description;
            };
            options = record { draft_and_publish = raw.options.draft_and_publish };
            fields = fields;
          })

  -- `from_str` is the JSON parser at `RawDocumentType`.
  unfoldable pub load_document_type_from_str :
      (String → Result String RawDocumentType)
      → String
      → Option String
      → Result SchemaLoaderError DocumentType
  load_document_type_from_str from_str content file_stem =
      map_err (json (stem_or_memory file_stem)) (from_str content) >>= λ raw.
      convert_document_type raw file_stem

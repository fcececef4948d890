-- ===== src/Infrastructure/Loader/Raw.antt =====
-- What the files of the schema directory deserialise to, and the loader's errors
-- (infrastructure/src/schema_loader/loader.rs).
use luminair_service_aws_dsq.Base.{ℕ, String, Bool, Option, List}
use luminair_service_aws_dsq.Domain.Ids.{Uuid}
use luminair_service_aws_dsq.Domain.Schema.{FieldType}
use luminair_service_aws_dsq.Domain.Errors.{DomainError}
use luminair_service_aws_dsq.Infrastructure.Json.{Json}

pub data RawDocumentKind : Type 0 where
  collection single_type : RawDocumentKind

pub record RawDocumentTypeInfo : Type 0 where
  pub display_name : String
  pub singular_name : String
  pub plural_name : String
  pub description : Option String

pub record RawDocumentTypeOptions : Type 0 where
  pub draft_and_publish : Bool

pub data RawStructuredType : Type 0 where
  integer : String → RawStructuredType
  decimal : (precision scale : Option ℕ) → RawStructuredType

pub data RawFieldType : Type 0 where
  simple : String → RawFieldType
  structured : RawStructuredType → RawFieldType

pub record RawConstraint : Type 0 where
  pub min_length : Option ℕ
  pub max_length : Option ℕ
  pub pattern_of : Option String
  pub min : Option Json
  pub max : Option Json

pub record RawFieldDefinition : Type 0 where
  pub field_type : RawFieldType
  pub required : Bool
  pub unique : Bool
  pub constraints : List RawConstraint

-- `attributes` is an `IndexMap`: its entries in the order of the file.
pub record RawDocumentType : Type 0 where
  pub kind : RawDocumentKind
  pub info : RawDocumentTypeInfo
  pub options : RawDocumentTypeOptions
  pub attributes : List (String × RawFieldDefinition)

pub data RawOwnerRelationKind : Type 0 where
  has_one has_many : RawOwnerRelationKind

pub record RawRelationInverse : Type 0 where
  pub inverse_attr : String

pub record RawRelation : Type 0 where
  pub id : Option String
  pub name : Option String
  pub owner_type : String
  pub owner_attr : String
  pub owner_kind : RawOwnerRelationKind
  pub target_type : String
  pub inverse : Option RawRelationInverse

pub record RawSystemConfig : Type 0 where
  pub id : Option Uuid
  pub locales : List String
  pub default_locale : String

pub data Expected : Type 0 where
  any_value integer_value decimal_value length_value : Expected

-- The texts that the errors carry.
pub data ConstraintText : Type 0 where
  min_length_text max_length_text : ℕ → ConstraintText
  pattern_text : String → ConstraintText
  min_text max_text : Json → Expected → ConstraintText
  type_text : ConstraintText

pub data TypeText : Type 0 where
  debug : FieldType → TypeText
  unknown_field_type unknown_integer_size : String → TypeText

pub data Context : Type 0 where
  singular_name plural_name : Context
  attribute_on : String → Context

pub data ConfigText : Type 0 where
  invalid_locale invalid_default_locale : String → ConfigText
  refused : DomainError → ConfigText

pub data SchemaLoaderError : Type 0 where
  io : (path source : String) → SchemaLoaderError
  json : (path source : String) → SchemaLoaderError
  file_name_mismatch : (stem expected : String) → SchemaLoaderError
  invalid_document_type_id : String → SchemaLoaderError
  invalid_attribute_id : String → SchemaLoaderError
  invalid_relation_id : String → SchemaLoaderError
  reserved_keyword : String → Context → SchemaLoaderError
  inapplicable_constraint : (attribute : String) → ConstraintText → TypeText → SchemaLoaderError
  unknown_relation_owner unknown_relation_target : String → SchemaLoaderError
  duplicate_document_type : String → SchemaLoaderError
  duplicate_relation_attribute : (type_id attr : String) → SchemaLoaderError
  system_config : ConfigText → SchemaLoaderError

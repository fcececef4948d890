-- ===== src/Tests/LoaderExamples.antt =====
-- The loader's and the builder's theorems at concrete inputs: a directory with articles, their tags and
-- the relation between them.
use luminair_service_aws_dsq.Base.{
  String, Bool, true, false, not, if◌then◌else◌, none, some, List, [], ◌∷◌, ◌≡◌, refl, ok, err,
  ◌==◌, string_eq, nat_eq,
}
use luminair_service_aws_dsq.Base.IndexSet
use luminair_service_aws_dsq.Base.Text.{to_ascii_lowercase}
use luminair_service_aws_dsq.Domain.Schema.{
  DocumentType, Relation, primitive, text, min_length, max_length, is_applicable_for,
}
use luminair_service_aws_dsq.Domain.Schema as Sch
use luminair_service_aws_dsq.Domain.Config.{SystemConfig}
use luminair_service_aws_dsq.Domain.Registry.{SchemaRegistry}
use luminair_service_aws_dsq.Infrastructure.Naming.Sanitize.{is_reserved_sql_keyword}
use luminair_service_aws_dsq.Infrastructure.Loader.Relations.{
  load_relation_from_str, convert_relation,
}
use luminair_service_aws_dsq.Domain.Registry
use luminair_service_aws_dsq.Domain.Registry.{add_types, add_relations}
use luminair_service_aws_dsq.Infrastructure.Json.{Json, Numbers}
use luminair_service_aws_dsq.Infrastructure.Loader.Raw.{
  collection, simple, has_many, RawFieldDefinition, RawConstraint, RawDocumentType, RawRelation,
}
use luminair_service_aws_dsq.Infrastructure.Loader.Constraints.{
  convert_raw_constraints, convert_from, convert_one, checked, bounded, read_max, constraint_eq,
  parse_usize_from_value,
}
use luminair_service_aws_dsq.Infrastructure.Loader.Accepted.{
  AreAccepted, convert_raw_constraints-AreAccepted,
}
use luminair_service_aws_dsq.Infrastructure.Loader.Types.{
  Identifiers, parse_raw_field_type, simple_type, load_field, load_fields, convert_document_type,
  load_document_type_from_str,
}
use luminair_service_aws_dsq.Infrastructure.Loader.Directory.{
  Files, default_config, push_type, check_endpoints, load_type_entry, load_type_entries, load_types,
  load_relation_entry, load_relation_entries, load_relations, load_config, load_schema_registry,
}
use luminair_service_aws_dsq.Infrastructure.Loader.Loaded.{IsLoaded, load_schema_registry-IsLoaded}
use luminair_service_aws_dsq.Infrastructure.Startup.{IsClosed, load_schema_registry-IsClosed}

abbrev numbers : Numbers
numbers = record {
  as_u64 = λ n. some n;
  as_i64 = λ _. none;
  to_string = λ _. "";
  parse_decimal = λ _. none;
}

abbrev ids : Identifiers
ids = record {
  document_type_id = λ s. some s;
  attribute_id = λ s. some s;
  relation_id = λ s. some s;
  locale_id = λ s. some s;
}

abbrev raw_constraints : List RawConstraint
raw_constraints =
    record {
      min_length = some 3;
      max_length = none;
      pattern_of = none;
      min = none;
      max = some (Json.number 80);
    }
    ∷ []

converted :
    convert_raw_constraints numbers raw_constraints (primitive text) "title"
    ≡ ok (min_length 3 ∷ max_length 80 ∷ [])
unfolding convert_raw_constraints convert_from convert_one checked bounded read_max constraint_eq
    is_applicable_for parse_usize_from_value
converted = refl

convert_raw_constraints-AreAccepted_example :
    AreAccepted (primitive text) (min_length 3 ∷ max_length 80 ∷ [])
convert_raw_constraints-AreAccepted_example =
    convert_raw_constraints-AreAccepted numbers raw_constraints (primitive text) "title"
      (min_length 3 ∷ max_length 80 ∷ []) converted

abbrev raw_type : String → String → Bool → List (String × RawFieldDefinition) → RawDocumentType
raw_type singular plural draft_and_publish attributes = record {
  kind = collection;
  info = record {
    display_name = singular;
    singular_name = singular;
    plural_name = plural;
    description = none;
  };
  options = record { draft_and_publish = draft_and_publish };
  attributes = attributes;
}

abbrev raw_title : RawFieldDefinition
raw_title = record {
  field_type = simple "text";
  required = true;
  unique = true;
  constraints = raw_constraints;
}

abbrev raw_relation : RawRelation
raw_relation = record {
  id = some "article-tags";
  name = none;
  owner_type = "article";
  owner_attr = "tags";
  owner_kind = has_many;
  target_type = "tag";
  inverse = none;
}

-- Each file's text is its name.
abbrev files : Files
files = record {
  is_dir = λ p. not (p == "schema");
  is_file = λ p. not (p == "system-config.json");
  read_dir = λ p. if p == "relations" then ok (ok "r" ∷ []) else ok (ok "article" ∷ ok "tag" ∷ []);
  read_to_string = λ p. ok p;
  join = λ base p. p;
  is_json = λ p. true;
  file_name = λ p. p;
  file_stem = λ p. p;
  stem_of_name = λ p. some p;
  document_type_from_str = λ s.
      if s == "article"
      then ok (raw_type "article" "articles" true (("title", raw_title) ∷ []))
      else ok (raw_type "tag" "tags" false []);
  relation_from_str = λ s. ok raw_relation;
  system_config_from_str = λ s. err "unused";
}

abbrev loaded_article : DocumentType
loaded_article = record {
  id = "article";
  kind = Sch.collection;
  info = record {
    title = "article";
    singular_name = "article";
    plural_name = "articles";
    description = none;
  };
  options = record { draft_and_publish = true };
  fields =
      record {
        id = "title";
        field_type = primitive text;
        required = true;
        unique = true;
        constraints = min_length 3 ∷ max_length 80 ∷ [];
      }
      ∷ [];
}

abbrev loaded_tag : DocumentType
loaded_tag = record {
  id = "tag";
  kind = Sch.collection;
  info = record { title = "tag"; singular_name = "tag"; plural_name = "tags"; description = none };
  options = record { draft_and_publish = false };
  fields = [];
}

abbrev loaded_relation : Relation
loaded_relation = record {
  id = "article-tags";
  owner_type = "article";
  owner_attr = "tags";
  owner_kind = Sch.has_many;
  target_type = "tag";
  inverse = none;
}

abbrev loaded : SchemaRegistry × SystemConfig
loaded = (Registry.new (loaded_article ∷ loaded_tag ∷ []) (loaded_relation ∷ []), default_config 7)

loads : load_schema_registry files numbers ids "schema" 7 ≡ ok loaded
unfolding load_schema_registry load_types load_type_entries load_type_entry
    load_document_type_from_str convert_document_type load_fields load_field parse_raw_field_type
    simple_type to_ascii_lowercase is_reserved_sql_keyword convert_raw_constraints convert_from
    convert_one checked bounded read_max constraint_eq is_applicable_for parse_usize_from_value
    push_type load_relations load_relation_entries load_relation_entry load_relation_from_str
    convert_relation check_endpoints load_config IndexSet.insert string_eq nat_eq
loads = refl

load_schema_registry-IsLoaded_example : IsLoaded loaded
load_schema_registry-IsLoaded_example =
    load_schema_registry-IsLoaded files numbers ids "schema" 7 loaded loads

load_schema_registry-IsClosed_example : IsClosed loaded.0
load_schema_registry-IsClosed_example =
    load_schema_registry-IsClosed files numbers ids "schema" 7 loaded loads (
      unfold Registry.new in
      unfold add_types in
      unfold add_relations in unfold IndexSet.insert in unfold string_eq in (refl, (refl, tt)))

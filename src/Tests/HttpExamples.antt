-- ===== src/Tests/HttpExamples.antt =====
-- The HTTP interface's and the codec's theorems at concrete inputs. A number is written in unary.
use luminair_service_aws_dsq.Base.{
  ℕ, zero, suc, String, true, none, some, [], ◌∷◌, ◌≡◌, refl, ap, Result, ok, err, string_eq,
  nat_eq,
}
use luminair_service_aws_dsq.Base.Int.{ℤ, pos, negsuc}
use luminair_service_aws_dsq.Base.Map.{HashMap}
use luminair_service_aws_dsq.Base.Map
use luminair_service_aws_dsq.Base.IndexSet
use luminair_service_aws_dsq.Domain.Schema as Sch
use luminair_service_aws_dsq.Domain.Values as Val
use luminair_service_aws_dsq.Domain.Values.{ContentValue, scalar, PrimitiveValue}
use luminair_service_aws_dsq.Infrastructure.Json.{Json, Members, no_members, member}
use luminair_service_aws_dsq.Base.{retain, find_first, option_eq, subst}
use luminair_service_aws_dsq.Domain.Errors.{DomainError}
use luminair_service_aws_dsq.Domain.Schema.{find_field, has_field}
use luminair_service_aws_dsq.Domain.Registry
use luminair_service_aws_dsq.Domain.Registry.{find_relation_for_attr}
use luminair_service_aws_dsq.Domain.Instance.{DocumentContent, PopulatedInstance, draft}
use luminair_service_aws_dsq.Infrastructure.Http.Documents.{document_to_json}
use luminair_service_aws_dsq.Infrastructure.Http.Shown.{shown, document_to_json-get_member}
use luminair_service_aws_dsq.Domain.Values.{matches_field_type, matches_primitive_type}
use luminair_service_aws_dsq.Domain.Validator.{
  validate_content, field_errors, value_errors, violations, evaluate_constraint,
  evaluate_str_constraint, undeclared,
}
use luminair_service_aws_dsq.Application.Commands.{connect}
use luminair_service_aws_dsq.Application.Errors.{not_found}
use luminair_service_aws_dsq.Infrastructure.Json.{get_member}
use luminair_service_aws_dsq.Infrastructure.Http.Errors.{application, into_response}
use luminair_service_aws_dsq.Infrastructure.Http.Faults.{IsHonest, into_response-IsHonest}
use luminair_service_aws_dsq.Infrastructure.Http.Payload.{
  ParsedPayload, known_keys, single_action, object_action, parse_target_ids, parse_relation_action,
  add_attribute, add_entry, add_entries, parse_payload_from_json,
}
use luminair_service_aws_dsq.Infrastructure.Http.Accepted.{
  AreKnown, parse_payload_from_json-AreKnown,
}
use luminair_service_aws_dsq.Infrastructure.Codec.{Value, small_int, Row, Serde, wrap, to_sea_value}
use luminair_service_aws_dsq.Infrastructure.Codec.RoundTrip.{
  Holds, HoldsWritten, IsBack, read_content_value-back,
}
use luminair_service_aws_dsq.Tests.Fixtures.{article, articles, schema, crates, config}
use luminair_service_aws_dsq.Infrastructure.Http.Values.{
  Formats, content_value_to_json, json_to_content_value,
}
use luminair_service_aws_dsq.Infrastructure.Http.RoundTrip.{Reads, json_to_content_value-back}

abbrev unary : ℕ → String
unary zero = String.[]
unary (suc n) = String.◌∷◌ "x" (unary n)

abbrev size : String → ℕ
size String.[] = zero
size (String.◌∷◌ _ s) = suc (size s)

size-unary : (n : ℕ) → size (unary n) ≡ n
size-unary zero = refl
size-unary (suc n) = ap suc (size-unary n)

-- Numbers of JSON: the even ones for 0, 1, 2, the odd ones for -1, -2, -3 and so on.
abbrev double : ℕ → ℕ
double zero = zero
double (suc n) = suc (suc (double n))

abbrev further : ℤ → ℤ
further (pos n) = pos (suc n)
further (negsuc n) = negsuc (suc n)

abbrev encode : ℤ → ℕ
encode (pos n) = double n
encode (negsuc n) = suc (double n)

abbrev decode : ℕ → ℤ
decode zero = pos 0
decode (suc zero) = negsuc 0
decode (suc (suc n)) = further (decode n)

decode-double : (n : ℕ) → decode (double n) ≡ pos n
decode-double zero = refl
decode-double (suc n) = ap further (decode-double n)

decode-suc-double : (n : ℕ) → decode (suc (double n)) ≡ negsuc n
decode-suc-double zero = refl
decode-suc-double (suc n) = ap further (decode-suc-double n)

decode-encode : (i : ℤ) → decode (encode i) ≡ i
decode-encode (pos n) = decode-double n
decode-encode (negsuc n) = decode-suc-double n

abbrev formats : Formats
formats = record {
  uuid_to_string = unary;
  parse_uuid = λ s. ok (size s);
  decimal_to_string = unary;
  parse_decimal = λ s. ok (size s);
  decimal_zero = 0;
  date_to_string = unary;
  parse_date = λ s. ok (size s);
  to_rfc3339 = unary;
  parse_rfc3339 = λ s. ok (size s);
  integer_number = encode;
  as_i64 = λ n. some (decode n);
  as_f64_text = λ _. none;
  i64_to_string = λ _. "";
  number_to_string = λ _. "";
  json_to_string = λ _. "";
  email = λ s. ok s;
  url = λ s. ok s;
  attribute_id = λ s. ok s;
  locale_id = λ s. ok s;
}

reads : Reads formats
reads = record {
  uuid_back = λ u. ap ok (size-unary u);
  decimal_back = λ d. ap ok (size-unary d);
  date_back = λ d. ap ok (size-unary d);
  date_time_back = λ t. ap ok (size-unary t);
  integer_back = λ i. ap some (decode-encode i);
}

abbrev entries : HashMap String PrimitiveValue
entries = ("count", PrimitiveValue.integer (negsuc 4)) ∷ ("name", PrimitiveValue.text "ada") ∷ []

json_to_content_value-back_example :
    json_to_content_value formats
      (content_value_to_json formats (scalar (Val.json entries)))
      Sch.json
    ≡ ok (scalar (Val.json entries))
json_to_content_value-back_example =
    json_to_content_value-back formats reads (scalar (Val.json entries)) Sch.json
      (unfold Map.get in unfold string_eq in ((refl, (refl, tt)), (tt, (tt, tt))))

abbrev body : Members
body = member "title" (Json.text "Hello") (
    member "version" (Json.number 2)
      (member "tags" (Json.object (member "connect" (Json.text "xxxxxx") no_members)) no_members))

abbrev payload : ParsedPayload
payload = record {
  fields = ("title", scalar (Val.primitive (PrimitiveValue.text "Hello"))) ∷ [];
  relations = ("tags", connect (6 ∷ [])) ∷ [];
}

abbrev content : DocumentContent
content = record { fields = payload.fields; publication_state = draft none }

parsed_body : parse_payload_from_json formats articles schema (Json.object body) ≡ ok payload
unfolding parse_payload_from_json add_entries add_entry add_attribute json_to_content_value
    parse_relation_action object_action known_keys single_action parse_target_ids get_member
    find_field find_relation_for_attr find_first Registry.new Registry.add_types
    Registry.add_relations IndexSet.insert IndexSet.get Map.insert retain string_eq nat_eq option_eq
parsed_body = refl

valid_body : validate_content crates config articles content ≡ ok tt
unfolding validate_content field_errors value_errors violations evaluate_constraint
    evaluate_str_constraint undeclared matches_field_type matches_primitive_type has_field Map.get
    Map.keys string_eq
valid_body = refl

parse_payload_from_json-AreKnown_example : AreKnown formats articles schema body
parse_payload_from_json-AreKnown_example =
    parse_payload_from_json-AreKnown formats crates config articles schema body payload content
      parsed_body refl valid_body

abbrev with_tags : PopulatedInstance
with_tags = record {
  instance_of = record article {
    content = record {
      fields = ("version", scalar (Val.email "a@b.c")) ∷ [];
      publication_state = draft none;
    };
  };
  populated_relations = ("tags", article ∷ []) ∷ [];
}

document_to_json-get_member_example :
    (members : Members) × (document_to_json formats with_tags ≡ Json.object members)
    × (get_member members "version" ≡ shown formats with_tags "version")
document_to_json-get_member_example =
    document_to_json-get_member formats with_tags "version" (unfold Map.get in (refl, tt))
      (unfold Map.get in (refl, tt))

into_response-IsHonest_example :
    IsHonest (application (not_found "Role" 3)) (into_response (application (not_found "Role" 3)))
into_response-IsHonest_example = into_response-IsHonest (application (not_found "Role" 3))

abbrev serde : Serde
serde = record {
  email = λ s. ok s;
  url = λ s. ok s;
  locales_to_value = λ _. ok (Json.boolean true);
  locales_from_value = λ _. err "";
  entries_to_value = λ _. ok (Json.boolean true);
  entries_from_value = λ _. err "";
}

-- A row whose columns all hold the least integer of 16 bits.
abbrev row : Row
row = record {
  get_string = λ _. err "";
  get_uuid = λ _. err "";
  get_i16 = λ _. ok (some (negsuc 32767));
  get_i32 = λ _. err "";
  get_i64 = λ _. err "";
  get_decimal = λ _. err "";
  get_bool = λ _. err "";
  get_date = λ _. err "";
  get_date_time = λ _. err "";
  get_json = λ _. err "";
}

abbrev least : ContentValue
least = scalar (Val.primitive (PrimitiveValue.integer (negsuc 32767)))

abbrev small : Sch.FieldType
small = Sch.primitive (Sch.integer Sch.i16)

held : HoldsWritten serde row "rank" least small
unfolding to_sea_value wrap
held v written = subst (Holds row "rank") (ok-value written) refl
  where
    ok-value :
        ◌≡◌ {A = Result DomainError Value} (ok (small_int (some (negsuc 32767)))) (ok v)
        → small_int (some (negsuc 32767)) ≡ v
    ok-value h = cc h

read_content_value-back_example : IsBack serde row "rank" least small
read_content_value-back_example =
    read_content_value-back serde row "rank" least small
      ((unfold matches_field_type in unfold matches_primitive_type in refl), tt) held

-- ===== src/Infrastructure/Http/Values.antt =====
-- Content values to and from JSON (infrastructure/src/api/dto.rs). A map of `serde_json` and a
-- `HashMap` are read in the order of their entries.
use luminair_service_aws_dsq.Base.{
  String, Bool, true, false, Option, none, some, [], ◌∷◌, string_eq, Result, ok, err, map_err,
  if◌then◌else◌,
}
use luminair_service_aws_dsq.Base.Int.{ℤ}
use luminair_service_aws_dsq.Base.Map.{HashMap}
use luminair_service_aws_dsq.Base.Map
use luminair_service_aws_dsq.Base.Fallible.{◌>>=◌}
use luminair_service_aws_dsq.Domain.Ids.{
  Uuid, Decimal, NaiveDate, DateTime, Email, Url, AttributeId, LocaleId,
}
use luminair_service_aws_dsq.Domain.Schema.{FieldType, PrimitiveType}
use luminair_service_aws_dsq.Domain.Values.{PrimitiveValue, DomainValue, ContentValue, scalar}
use luminair_service_aws_dsq.Domain.Values as Val
use luminair_service_aws_dsq.Infrastructure.Json.{
  Json, Number, Members, no_members, member, insert_member,
}
use luminair_service_aws_dsq.Infrastructure.Http.Errors.{
  ApiError, bad_request, Detail, plain, invalid, about,
}

-- The other crates' conversions between values and texts or numbers, a failure with its message; the
-- `try_new` of the validated newtypes.
pub record Formats : Type 0 where
  pub uuid_to_string : Uuid → String
  pub parse_uuid : String → Result String Uuid
  pub decimal_to_string : Decimal → String
  pub parse_decimal : String → Result String Decimal
  pub decimal_zero : Decimal
  pub date_to_string : NaiveDate → String
  pub parse_date : String → Result String NaiveDate
  pub to_rfc3339 : DateTime → String
  pub parse_rfc3339 : String → Result String DateTime
  -- `json!(i)`, `as_i64`, the text of `as_f64`, and `to_string`
  pub integer_number : ℤ → Number
  pub as_i64 : Number → Option ℤ
  pub as_f64_text : Number → Option String
  pub i64_to_string : ℤ → String
  pub number_to_string : Number → String
  pub json_to_string : Json → String
  pub email : String → Result String Email
  pub url : String → Result String Url
  pub attribute_id : String → Result String AttributeId
  pub locale_id : String → Result String LocaleId

-- `as_str`, `as_bool` and `as_object`
abbrev pub as_str : Json → Option String
as_str (Json.text s) = some s
as_str _ = none

abbrev pub as_bool : Json → Option Bool
as_bool (Json.boolean b) = some b
as_bool _ = none

abbrev pub as_object : Json → Option Members
as_object (Json.object members) = some members
as_object _ = none

abbrev pub is_null : Json → Bool
is_null Json.null = true
is_null _ = false

-- `ok_or_else(|| BadRequest(..))?`, and `map_err(|e| BadRequest(..))?`
abbrev pub wanted : {A : Type 0} → Detail → Option A → Result ApiError A
wanted failure none = err (bad_request failure)
wanted failure (some a) = ok a

abbrev pub parsed : {A : Type 0} → String → String → Result String A → Result ApiError A
parsed template value r = map_err (λ error. bad_request (invalid template value error)) r

module _ (formats : Formats) where
  unfoldable pub primitive_to_json : PrimitiveValue → Json
  primitive_to_json (PrimitiveValue.text s) = Json.text s
  primitive_to_json (PrimitiveValue.uid s) = Json.text s
  primitive_to_json (PrimitiveValue.uuid u) = Json.text (formats.uuid_to_string u)
  primitive_to_json (PrimitiveValue.integer i) = Json.number (formats.integer_number i)
  primitive_to_json (PrimitiveValue.decimal d) = Json.text (formats.decimal_to_string d)
  primitive_to_json (PrimitiveValue.boolean b) = Json.boolean b
  primitive_to_json (PrimitiveValue.date d) = Json.text (formats.date_to_string d)
  primitive_to_json (PrimitiveValue.date_time t) = Json.text (formats.to_rfc3339 t)

  -- The loop that fills a map, over the entries and the way that their values are written.
  unfoldable pub insert_entries : {V : Type 0} → (V → Json) → Members → HashMap String V → Members
  insert_entries write members [] = members
  insert_entries write members ((k, v) ∷ entries) =
      insert_entries write (insert_member members k (write v)) entries

  unfoldable pub content_value_to_json : ContentValue → Json
  unfolding primitive_to_json
  content_value_to_json Val.null = Json.null
  content_value_to_json (Val.localized_text m) = Json.object (insert_entries Json.text no_members m)
  content_value_to_json (scalar (Val.primitive p)) = primitive_to_json p
  content_value_to_json (scalar (Val.email e)) = Json.text e
  content_value_to_json (scalar (Val.url u)) = Json.text u
  content_value_to_json (scalar (Val.json m)) =
      Json.object (insert_entries primitive_to_json no_members m)

  abbrev pub of_primitive : PrimitiveValue → ContentValue
  of_primitive p = scalar (Val.primitive p)

  -- The text of a decimal: a string, or what a number is as a float or an integer.
  abbrev decimal_text : Json → Option String
  decimal_text (Json.text s) = some s
  decimal_text (Json.number n) = elim (formats.as_f64_text n) [
    | some s ↦ some s
    | none ↦ elim (formats.as_i64 n) [ none ↦ none | some i ↦ some (formats.i64_to_string i) ]
  ]
  decimal_text _ = none

  abbrev as_i64 : Json → Option ℤ
  as_i64 (Json.number n) = formats.as_i64 n
  as_i64 _ = none

  unfoldable pub read_locales :
      HashMap LocaleId String → Members → Result ApiError (HashMap LocaleId String)
  read_locales m no_members = ok m
  read_locales m (member k v rest) = parsed "" k (formats.locale_id k) >>= λ loc.
      wanted (about "expected string for locale" k) (as_str v) >>= λ s.
      read_locales (Map.insert m loc s) rest

  unfoldable decimal_or_zero : Result String Decimal → Decimal
  decimal_or_zero (ok d) = d
  decimal_or_zero (err _) = formats.decimal_zero

  -- A value of a JSON field: strings, numbers and booleans keep their kind, and what else there is
  -- becomes its text.
  unfoldable pub read_entry : Json → PrimitiveValue
  unfolding decimal_or_zero
  read_entry (Json.text s) = PrimitiveValue.text s
  read_entry (Json.number n) = elim (formats.as_i64 n) [
    | some i ↦ PrimitiveValue.integer i
    | none ↦ elim (formats.as_f64_text n) [
      | some f ↦ PrimitiveValue.decimal (decimal_or_zero (formats.parse_decimal f))
      | none ↦ PrimitiveValue.text (formats.number_to_string n)
    ]
  ]
  read_entry (Json.boolean b) = PrimitiveValue.boolean b
  read_entry v = PrimitiveValue.text (formats.json_to_string v)

  unfoldable pub read_entries :
      HashMap String PrimitiveValue → Members → HashMap String PrimitiveValue
  read_entries m no_members = m
  read_entries m (member k v rest) = read_entries (Map.insert m k (read_entry v)) rest

  -- What a scalar field reads from a value that is not `null`.
  unfoldable pub read_primitive : PrimitiveType → Json → Result ApiError ContentValue
  read_primitive PrimitiveType.text val =
      wanted (plain "expected string for text field") (as_str val) >>= λ s.
      ok (of_primitive (PrimitiveValue.text s))
  read_primitive PrimitiveType.uid val =
      wanted (plain "expected string for uid field") (as_str val) >>= λ s.
      ok (of_primitive (PrimitiveValue.uid s))
  read_primitive PrimitiveType.uuid val =
      wanted (plain "expected string for uuid field") (as_str val) >>= λ s.
      parsed "invalid uuid" s (formats.parse_uuid s) >>= λ u.
      ok (of_primitive (PrimitiveValue.uuid u))
  read_primitive (PrimitiveType.integer size) val =
      wanted (plain "expected integer for field") (as_i64 val) >>= λ i.
      ok (of_primitive (PrimitiveValue.integer i))
  read_primitive (PrimitiveType.decimal precision scale) val =
      wanted (plain "expected decimal number or string") (decimal_text val) >>= λ s.
      parsed "invalid decimal value" s (formats.parse_decimal s) >>= λ d.
      ok (of_primitive (PrimitiveValue.decimal d))
  read_primitive PrimitiveType.boolean val =
      wanted (plain "expected boolean value") (as_bool val) >>= λ b.
      ok (of_primitive (PrimitiveValue.boolean b))
  read_primitive PrimitiveType.date val =
      wanted (plain "expected date string YYYY-MM-DD") (as_str val) >>= λ s.
      parsed "invalid date (expected YYYY-MM-DD)" s (formats.parse_date s) >>= λ d.
      ok (of_primitive (PrimitiveValue.date d))
  read_primitive PrimitiveType.date_time val =
      wanted (plain "expected RFC 3339 datetime string") (as_str val) >>= λ s.
      parsed "invalid datetime" s (formats.parse_rfc3339 s) >>= λ t.
      ok (of_primitive (PrimitiveValue.date_time t))

  -- The `match` on the field type.
  unfoldable pub read_value : FieldType → Json → Result ApiError ContentValue
  unfolding read_primitive
  read_value FieldType.localized_text val =
      wanted (plain "expected JSON object with locale keys for localized text") (as_object val)
      >>= λ obj. read_locales [] obj >>= λ m. ok (Val.localized_text m)
  read_value (FieldType.primitive pt) val = read_primitive pt val
  read_value FieldType.email val = wanted (plain "expected email string") (as_str val) >>= λ s.
      parsed "invalid email address" s (formats.email s) >>= λ e. ok (scalar (Val.email e))
  read_value FieldType.url val = wanted (plain "expected url string") (as_str val) >>= λ s.
      parsed "invalid url" s (formats.url s) >>= λ u. ok (scalar (Val.url u))
  read_value FieldType.json val =
      wanted (plain "expected JSON object for json field") (as_object val) >>= λ obj.
      ok (scalar (Val.json (read_entries [] obj)))

  unfoldable pub json_to_content_value : Json → FieldType → Result ApiError ContentValue
  unfolding read_value
  json_to_content_value val field_type =
      if is_null val then ok Val.null else read_value field_type val

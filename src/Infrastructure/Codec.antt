-- ===== src/Infrastructure/Codec.antt =====
-- Content values to and from database columns (infrastructure/src/persistence/query/codec.rs). The
-- error of `storage_err` keeps the other crate's message.
pub mod RoundTrip
use luminair_service_aws_dsq.Base.{
  ◌+◌, ℕ, String, Bool, Option, none, some, ◌-◌, ◌%◌, Result, ok, err, map_err, ltb, if◌then◌else◌,
}
use luminair_service_aws_dsq.Base.Int.{ℤ, pos, negsuc}
use luminair_service_aws_dsq.Base.Map.{HashMap}
use luminair_service_aws_dsq.Base.Fallible.{◌>>=◌}
use luminair_service_aws_dsq.Domain.Ids.{Uuid, Decimal, NaiveDate, DateTime, Email, Url, LocaleId}
use luminair_service_aws_dsq.Domain.Schema.{FieldType, PrimitiveType, IntegerSize}
use luminair_service_aws_dsq.Domain.Values.{PrimitiveValue, DomainValue, ContentValue, scalar}
use luminair_service_aws_dsq.Domain.Values as Val
use luminair_service_aws_dsq.Domain.Errors.{DomainError, Reason, foreign, incompatible}
use luminair_service_aws_dsq.Domain.Errors as Dom
use luminair_service_aws_dsq.Infrastructure.Json.{Json}

-- `sea_query::Value`, the variants that are used.
pub data Value : Type 0 where
  string : Option String → Value
  uuid : Option Uuid → Value
  small_int int big_int : Option ℤ → Value
  decimal : Option Decimal → Value
  bool : Option Bool → Value
  chrono_date : Option NaiveDate → Value
  chrono_date_time : Option DateTime → Value
  json : Option Json → Value

-- `row.try_get(col_name)` of `sqlx`, at each type that is asked for.
pub record Row : Type 0 where
  pub get_string : String → Result String (Option String)
  pub get_uuid : String → Result String (Option Uuid)
  pub get_i16 : String → Result String (Option ℤ)
  pub get_i32 : String → Result String (Option ℤ)
  pub get_i64 : String → Result String (Option ℤ)
  pub get_decimal : String → Result String (Option Decimal)
  pub get_bool : String → Result String (Option Bool)
  pub get_date : String → Result String (Option NaiveDate)
  pub get_date_time : String → Result String (Option DateTime)
  pub get_json : String → Result String (Option Json)

-- `try_new` of the addresses, `serde_json::to_value` and `serde_json::from_value`.
pub record Serde : Type 0 where
  pub email : String → Result String Email
  pub url : String → Result String Url
  pub locales_to_value : HashMap LocaleId String → Result String Json
  pub locales_from_value : Json → Result String (HashMap LocaleId String)
  pub entries_to_value : HashMap String PrimitiveValue → Result String Json
  pub entries_from_value : Json → Result String (HashMap String PrimitiveValue)

abbrev pub storage_err : String → DomainError
storage_err e = Dom.storage (foreign e)

-- `as i16` and `as i32`: the two's complement of the low bits.
unfoldable pub wrap : (half : ℕ) → ℤ → ℤ
wrap half (pos n) =
    let low = n % (half + half) in
    if ltb low half then pos low else negsuc ((half + half - 1) - low)
wrap half (negsuc n) =
    let low = n % (half + half) in
    if ltb low half then negsuc low else pos ((half + half - 1) - low)

abbrev pub as_i16 : ℤ → ℤ
as_i16 i = wrap 32768 i

abbrev pub as_i32 : ℤ → ℤ
as_i32 i = wrap 2147483648 i

-- `map(..).unwrap_or(ContentValue::Null)`
abbrev or_null : {A : Type 0} → (A → ContentValue) → Option A → ContentValue
or_null f none = Val.null
or_null f (some a) = f a

abbrev pub of_primitive : {A : Type 0} → (A → PrimitiveValue) → A → ContentValue
of_primitive f a = scalar (Val.primitive (f a))

-- A column that is read as it is.
abbrev pub read_plain :
    {A : Type 0} → Result String (Option A) → (A → ContentValue) → Result DomainError ContentValue
read_plain r f = map_err storage_err r >>= λ o. ok (or_null f o)

-- A column whose value is parsed, `NULL` being `Null`.
abbrev read_parsed :
    {A B : Type 0}
    → (A → Result String B)
    → (B → ContentValue)
    → Option A
    → Result DomainError ContentValue
read_parsed parse f none = ok Val.null
read_parsed parse f (some a) = map_err storage_err (parse a) >>= λ b. ok (f b)

-- The same for JSON, whose `null` is `Null` too.
abbrev read_json :
    {B : Type 0}
    → (Json → Result String B)
    → (B → ContentValue)
    → Option Json
    → Result DomainError ContentValue
read_json parse f none = ok Val.null
read_json parse f (some Json.null) = ok Val.null
read_json parse f (some j) = map_err storage_err (parse j) >>= λ b. ok (f b)

module _ (serde : Serde) where
  unfoldable pub read_content_value : Row → String → FieldType → Result DomainError ContentValue
  read_content_value row col_name (FieldType.primitive PrimitiveType.text) =
      read_plain (row.get_string col_name) (of_primitive PrimitiveValue.text)
  read_content_value row col_name (FieldType.primitive PrimitiveType.uid) =
      read_plain (row.get_string col_name) (of_primitive PrimitiveValue.uid)
  read_content_value row col_name (FieldType.primitive PrimitiveType.uuid) =
      read_plain (row.get_uuid col_name) (of_primitive PrimitiveValue.uuid)
  read_content_value row col_name (FieldType.primitive (PrimitiveType.integer IntegerSize.i16)) =
      read_plain (row.get_i16 col_name) (of_primitive PrimitiveValue.integer)
  read_content_value row col_name (FieldType.primitive (PrimitiveType.integer IntegerSize.i32)) =
      read_plain (row.get_i32 col_name) (of_primitive PrimitiveValue.integer)
  read_content_value row col_name (FieldType.primitive (PrimitiveType.integer IntegerSize.i64)) =
      read_plain (row.get_i64 col_name) (of_primitive PrimitiveValue.integer)
  read_content_value row col_name (FieldType.primitive (PrimitiveType.decimal precision scale)) =
      read_plain (row.get_decimal col_name) (of_primitive PrimitiveValue.decimal)
  read_content_value row col_name (FieldType.primitive PrimitiveType.boolean) =
      read_plain (row.get_bool col_name) (of_primitive PrimitiveValue.boolean)
  read_content_value row col_name (FieldType.primitive PrimitiveType.date) =
      read_plain (row.get_date col_name) (of_primitive PrimitiveValue.date)
  read_content_value row col_name (FieldType.primitive PrimitiveType.date_time) =
      read_plain (row.get_date_time col_name) (of_primitive PrimitiveValue.date_time)
  read_content_value row col_name FieldType.email =
      map_err storage_err (row.get_string col_name) >>= λ s.
      read_parsed serde.email (λ e. scalar (Val.email e)) s
  read_content_value row col_name FieldType.url =
      map_err storage_err (row.get_string col_name) >>= λ s.
      read_parsed serde.url (λ u. scalar (Val.url u)) s
  read_content_value row col_name FieldType.localized_text =
      map_err storage_err (row.get_json col_name) >>= λ json_opt.
      read_json serde.locales_from_value Val.localized_text json_opt
  read_content_value row col_name FieldType.json =
      map_err storage_err (row.get_json col_name) >>= λ json_opt.
      read_json serde.entries_from_value (λ m. scalar (Val.json m)) json_opt

  unfoldable pub typed_null_value : FieldType → Value
  typed_null_value (FieldType.primitive PrimitiveType.text) = string none
  typed_null_value (FieldType.primitive PrimitiveType.uid) = string none
  typed_null_value (FieldType.primitive PrimitiveType.uuid) = uuid none
  typed_null_value (FieldType.primitive (PrimitiveType.integer IntegerSize.i16)) = small_int none
  typed_null_value (FieldType.primitive (PrimitiveType.integer IntegerSize.i32)) = int none
  typed_null_value (FieldType.primitive (PrimitiveType.integer IntegerSize.i64)) = big_int none
  typed_null_value (FieldType.primitive (PrimitiveType.decimal _ _)) = decimal none
  typed_null_value (FieldType.primitive PrimitiveType.boolean) = bool none
  typed_null_value (FieldType.primitive PrimitiveType.date) = chrono_date none
  typed_null_value (FieldType.primitive PrimitiveType.date_time) = chrono_date_time none
  typed_null_value FieldType.email = string none
  typed_null_value FieldType.url = string none
  typed_null_value FieldType.localized_text = json none
  typed_null_value FieldType.json = json none

  abbrev integer_value : ℤ → FieldType → Value
  integer_value i (FieldType.primitive (PrimitiveType.integer IntegerSize.i16)) =
      small_int (some (as_i16 i))
  integer_value i (FieldType.primitive (PrimitiveType.integer IntegerSize.i32)) =
      int (some (as_i32 i))
  integer_value i _ = big_int (some i)

  abbrev primitive_value : PrimitiveValue → FieldType → Value
  primitive_value (PrimitiveValue.text s) ft = string (some s)
  primitive_value (PrimitiveValue.uid s) ft = string (some s)
  primitive_value (PrimitiveValue.uuid u) ft = uuid (some u)
  primitive_value (PrimitiveValue.integer i) ft = integer_value i ft
  primitive_value (PrimitiveValue.decimal d) ft = decimal (some d)
  primitive_value (PrimitiveValue.boolean b) ft = bool (some b)
  primitive_value (PrimitiveValue.date d) ft = chrono_date (some d)
  primitive_value (PrimitiveValue.date_time t) ft = chrono_date_time (some t)

  unfoldable pub to_sea_value : Option ContentValue → FieldType → Result DomainError Value
  unfolding typed_null_value
  to_sea_value none ft = ok (typed_null_value ft)
  to_sea_value (some Val.null) ft = ok (typed_null_value ft)
  to_sea_value (some (Val.localized_text m)) FieldType.localized_text =
      map_err storage_err (serde.locales_to_value m) >>= λ j. ok (json (some j))
  to_sea_value (some (scalar (Val.json m))) FieldType.json =
      map_err storage_err (serde.entries_to_value m) >>= λ j. ok (json (some j))
  to_sea_value (some (scalar (Val.email e))) FieldType.email = ok (string (some e))
  to_sea_value (some (scalar (Val.url u))) FieldType.url = ok (string (some u))
  to_sea_value (some (scalar (Val.primitive p))) ft = ok (primitive_value p ft)
  to_sea_value _ ft = err (Dom.storage (incompatible ft))

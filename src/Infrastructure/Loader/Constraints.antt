-- ===== src/Infrastructure/Loader/Constraints.antt =====
-- The conversion of raw constraints (infrastructure/src/schema_loader/loader.rs).
use luminair_service_aws_dsq.Base.{
  ℕ, String, Bool, false, ◌&&◌, Option, none, some, List, [], ◌∷◌, ◌++◌, ◌==◌, nat_eq, string_eq,
  Result, ok, err, any, if◌then◌else◌,
}
use luminair_service_aws_dsq.Base.Int.{ℤ, leb_ℤ}
use luminair_service_aws_dsq.Base.Text.{parse_usize, parse_i64}
use luminair_service_aws_dsq.Base.Fallible.{◌>>=◌}
use luminair_service_aws_dsq.Domain.Ids.{Decimal}
use luminair_service_aws_dsq.Domain.Schema.{
  FieldType, FieldConstraint, pattern_of, min_length, max_length, min_integer, max_integer,
  min_decimal, max_decimal, is_applicable_for, PrimitiveType,
}
use luminair_service_aws_dsq.Infrastructure.Json.{Json, Numbers}
use luminair_service_aws_dsq.Infrastructure.Loader.Raw.{
  RawConstraint, any_value, integer_value, decimal_value, length_value, ConstraintText,
  min_length_text, max_length_text, pattern_text, min_text, max_text, debug, SchemaLoaderError,
  inapplicable_constraint,
}

-- The derived `PartialEq`.
unfoldable pub constraint_eq : FieldConstraint → FieldConstraint → Bool
constraint_eq (pattern_of p) (pattern_of q) = p == q
constraint_eq (min_length m) (min_length n) = m == n
constraint_eq (max_length m) (max_length n) = m == n
constraint_eq (min_integer m) (min_integer n) = leb_ℤ m n && leb_ℤ n m
constraint_eq (max_integer m) (max_integer n) = leb_ℤ m n && leb_ℤ n m
constraint_eq (min_decimal m) (min_decimal n) = m == n
constraint_eq (max_decimal m) (max_decimal n) = m == n
constraint_eq _ _ = false

-- `if !result.contains(&c) { result.push(c) }`
abbrev pub push_new : List FieldConstraint → FieldConstraint → List FieldConstraint
push_new result c = if any (constraint_eq c) result then result else result ++ c ∷ []

module _ (numbers : Numbers) where
  unfoldable pub parse_usize_from_value : Json → Option ℕ
  parse_usize_from_value (Json.number n) = numbers.as_u64 n
  parse_usize_from_value (Json.text s) = parse_usize s
  parse_usize_from_value _ = none

  unfoldable pub parse_i64_from_value : Json → Option ℤ
  parse_i64_from_value (Json.number n) = numbers.as_i64 n
  parse_i64_from_value (Json.text s) = parse_i64 s
  parse_i64_from_value _ = none

  unfoldable pub parse_decimal_from_value : Json → Option Decimal
  parse_decimal_from_value (Json.number n) = numbers.parse_decimal (numbers.to_string n)
  parse_decimal_from_value (Json.text s) = numbers.parse_decimal s
  parse_decimal_from_value _ = none

abbrev pub read_as :
    {A : Type 0}
    → SchemaLoaderError
    → (A → FieldConstraint)
    → Option A
    → Result SchemaLoaderError FieldConstraint
read_as failure constraint none = err failure
read_as failure constraint (some a) = ok (constraint a)

module _ (numbers : Numbers) (attr_name : String) (field_type : FieldType) where
  abbrev inapplicable : ConstraintText → SchemaLoaderError
  inapplicable message = inapplicable_constraint attr_name message (debug field_type)

  -- The constraint of a `minLength`, a `maxLength` or a `pattern` of the file.
  unfoldable pub checked :
      {A : Type 0}
      → (A → FieldConstraint)
      → (A → ConstraintText)
      → Option A
      → List FieldConstraint
      → Result SchemaLoaderError (List FieldConstraint)
  checked constraint message none result = ok result
  checked constraint message (some a) result =
      if is_applicable_for (constraint a) field_type
      then ok (push_new result (constraint a))
      else err (inapplicable (message a))

  -- The `match` on the field type that decides how a `min` is read.
  unfoldable pub read_min : FieldType → Json → Result SchemaLoaderError FieldConstraint
  read_min (FieldType.primitive (PrimitiveType.integer size)) v =
      read_as (inapplicable (min_text v integer_value)) min_integer (parse_i64_from_value numbers v)
  read_min (FieldType.primitive (PrimitiveType.decimal precision scale)) v =
      read_as (inapplicable (min_text v decimal_value)) min_decimal
        (parse_decimal_from_value numbers v)
  read_min (FieldType.primitive PrimitiveType.text) v =
      read_as (inapplicable (min_text v length_value)) min_length (parse_usize_from_value numbers v)
  read_min (FieldType.primitive PrimitiveType.uid) v =
      read_as (inapplicable (min_text v length_value)) min_length (parse_usize_from_value numbers v)
  read_min FieldType.localized_text v =
      read_as (inapplicable (min_text v length_value)) min_length (parse_usize_from_value numbers v)
  read_min _ v = err (inapplicable (min_text v any_value))

  unfoldable pub read_max : FieldType → Json → Result SchemaLoaderError FieldConstraint
  read_max (FieldType.primitive (PrimitiveType.integer size)) v =
      read_as (inapplicable (max_text v integer_value)) max_integer (parse_i64_from_value numbers v)
  read_max (FieldType.primitive (PrimitiveType.decimal precision scale)) v =
      read_as (inapplicable (max_text v decimal_value)) max_decimal
        (parse_decimal_from_value numbers v)
  read_max (FieldType.primitive PrimitiveType.text) v =
      read_as (inapplicable (max_text v length_value)) max_length (parse_usize_from_value numbers v)
  read_max (FieldType.primitive PrimitiveType.uid) v =
      read_as (inapplicable (max_text v length_value)) max_length (parse_usize_from_value numbers v)
  read_max FieldType.localized_text v =
      read_as (inapplicable (max_text v length_value)) max_length (parse_usize_from_value numbers v)
  read_max _ v = err (inapplicable (max_text v any_value))

  -- A `min` or a `max` of the file.
  unfoldable pub bounded :
      (FieldType → Json → Result SchemaLoaderError FieldConstraint)
      → Option Json
      → List FieldConstraint
      → Result SchemaLoaderError (List FieldConstraint)
  bounded read none result = ok result
  bounded read (some v) result = read field_type v >>= λ c. ok (push_new result c)

  unfoldable pub convert_one :
      List FieldConstraint → RawConstraint → Result SchemaLoaderError (List FieldConstraint)
  convert_one result rc = checked min_length min_length_text rc.min_length result >>= λ result.
      checked max_length max_length_text rc.max_length result >>= λ result.
      checked pattern_of pattern_text rc.pattern_of result >>= λ result.
      bounded read_min rc.min result >>= λ result. bounded read_max rc.max result

  unfoldable pub convert_from :
      List FieldConstraint → List RawConstraint → Result SchemaLoaderError (List FieldConstraint)
  convert_from result [] = ok result
  convert_from result (rc ∷ rcs) = convert_one result rc >>= λ result. convert_from result rcs

unfoldable pub convert_raw_constraints :
    Numbers
    → List RawConstraint
    → FieldType
    → String
    → Result SchemaLoaderError (List FieldConstraint)
convert_raw_constraints numbers raw_constraints field_type attr_name =
    convert_from numbers attr_name field_type [] raw_constraints

-- ===== src/Domain/Validator.antt =====
-- Content validation (domain/src/schema/validator.rs, and `SchemaRegistry::validate_content`). What
-- the code asks of other crates is a parameter: the order of decimals, and regular expressions,
-- which compile to a test or fail with a message. `Vec::push` onto `errors` is concatenation.
pub mod Correct
use Prim.Native.String.{count}
use package.text.Mathlib.Text.{is_le}
use luminair_service_aws_dsq.Base.{
  ℕ, String, Bool, true, false, not, Option, none, some, List, [], ◌∷◌, ◌++◌, Result, ok, err, ltb,
  map_err, ok_or, if◌then◌else◌, string_eq, is_empty,
}
use luminair_service_aws_dsq.Base.Int.{ltb_ℤ}
use luminair_service_aws_dsq.Base.Map
use luminair_service_aws_dsq.Base.Map.{HashMap}
use luminair_service_aws_dsq.Domain.Ids.{AttributeId, LocaleId, Decimal, DocumentTypeId}
use luminair_service_aws_dsq.Domain.Schema.{
  FieldType, FieldConstraint, pattern_of, min_length, max_length, min_integer, max_integer,
  min_decimal, max_decimal, FieldDefinition, DocumentType, has_field,
}
use luminair_service_aws_dsq.Domain.Errors.{
  Reason, in_locale, length_below, length_above, pattern_mismatch, invalid_pattern, integer_below,
  integer_above, decimal_below, decimal_above, missing_or_null, not_localized, type_mismatch,
  DomainError, document_type_not_found, invalid_field_value, unknown_locale, unknown_attribute,
}
use luminair_service_aws_dsq.Domain.Values.{
  PrimitiveValue, text, uid, integer, decimal, DomainValue, primitive, ContentValue, scalar, null,
  localized_text, matches_field_type,
}
use luminair_service_aws_dsq.Domain.Instance.{DocumentContent}
use luminair_service_aws_dsq.Domain.Config.{SystemConfig, contains_locale}
use luminair_service_aws_dsq.Domain.Registry.{SchemaRegistry, find_type}

pub record Crates : Type 0 where
  pub decimal_lt : Decimal → Decimal → Bool
  pub regex_new : String → Result String (String → Bool)

abbrev pub with_prefix : Option LocaleId → Reason → Reason
with_prefix none reason = reason
with_prefix (some locale) reason = in_locale locale reason

abbrev pub is_localized_text : FieldType → Bool
is_localized_text FieldType.localized_text = true
is_localized_text _ = false

-- `sort_by` on the locales' strings.
unfoldable pub insert_sorted : LocaleId → List LocaleId → List LocaleId
insert_sorted a [] = a ∷ []
insert_sorted a (b ∷ bs) =
    if is_le (Prim.Native.String.compare a b) then a ∷ b ∷ bs else b ∷ insert_sorted a bs

unfoldable pub sort : List LocaleId → List LocaleId
sort [] = []
sort (a ∷ rest) = insert_sorted a (sort rest)

-- `for constraint in constraints { if let Some(err) = … { errors.push(err) } }`
unfoldable pub violations :
    (FieldConstraint → Option DomainError) → List FieldConstraint → List DomainError
violations evaluate [] = []
violations evaluate (c ∷ cs) =
    let rest = violations evaluate cs in elim (evaluate c) [ none ↦ rest | some e ↦ e ∷ rest ]

-- 2. Undeclared fields.
unfoldable pub undeclared : DocumentType → List AttributeId → List DomainError
undeclared dt [] = []
undeclared dt (attr ∷ attrs) =
    let rest = undeclared dt attrs in
    if has_field dt attr then rest else unknown_attribute attr ∷ rest

module _ (crates : Crates) where
  unfoldable pub evaluate_str_constraint :
      AttributeId → FieldConstraint → String → Option LocaleId → Option DomainError
  evaluate_str_constraint attr (min_length bound) s locale =
      let len = count s in
      if ltb len bound
      then some (invalid_field_value attr (with_prefix locale (length_below len bound)))
      else none
  evaluate_str_constraint attr (max_length bound) s locale =
      let len = count s in
      if ltb bound len
      then some (invalid_field_value attr (with_prefix locale (length_above len bound)))
      else none
  evaluate_str_constraint attr (pattern_of pat) s locale = elim (crates.regex_new pat) [
    | ok is_match ↦
        if is_match s
        then none
        else some (invalid_field_value attr (with_prefix locale (pattern_mismatch s pat)))
    | err e ↦ some (invalid_field_value attr (with_prefix locale (invalid_pattern pat e)))
  ]
  evaluate_str_constraint attr _ s locale = none

  -- The arm of `evaluate_constraint` for `MinLength`, `MaxLength` and `Pattern`.
  evaluate_on_text : AttributeId → FieldConstraint → DomainValue → Option DomainError
  evaluate_on_text attr c (primitive (text s)) = evaluate_str_constraint attr c s none
  evaluate_on_text attr c (primitive (uid s)) = evaluate_str_constraint attr c s none
  evaluate_on_text attr c _ = none

  unfoldable pub evaluate_constraint :
      AttributeId → FieldConstraint → DomainValue → Option DomainError
  unfolding evaluate_on_text
  evaluate_constraint attr (min_integer bound) (primitive (integer n)) =
      if ltb_ℤ n bound then some (invalid_field_value attr (integer_below n bound)) else none
  evaluate_constraint attr (max_integer bound) (primitive (integer n)) =
      if ltb_ℤ bound n then some (invalid_field_value attr (integer_above n bound)) else none
  evaluate_constraint attr (min_decimal bound) (primitive (decimal d)) =
      if crates.decimal_lt d bound
      then some (invalid_field_value attr (decimal_below d bound))
      else none
  evaluate_constraint attr (max_decimal bound) (primitive (decimal d)) =
      if crates.decimal_lt bound d
      then some (invalid_field_value attr (decimal_above d bound))
      else none
  evaluate_constraint attr (min_length n) value = evaluate_on_text attr (min_length n) value
  evaluate_constraint attr (max_length n) value = evaluate_on_text attr (max_length n) value
  evaluate_constraint attr (pattern_of p) value = evaluate_on_text attr (pattern_of p) value
  evaluate_constraint attr _ _ = none

  module _ (config : SystemConfig) where
    -- The loop over the sorted locales. `map[locale]` finds each of the map's own keys.
    unfoldable pub locale_errors :
        FieldDefinition → HashMap LocaleId String → List LocaleId → List DomainError
    locale_errors def texts [] = []
    locale_errors def texts (locale ∷ locales) =
        let here : List DomainError = elim (Map.get texts locale) [
          | none ↦ []
          | some s ↦
              if contains_locale config locale
              then violations (λ c. evaluate_str_constraint def.id c s (some locale))
                  def.constraints
              else unknown_locale locale ∷ []
        ] in
        here ++ locale_errors def texts locales

    unfoldable pub value_errors : FieldDefinition → Option ContentValue → List DomainError
    value_errors def none =
        if def.required then invalid_field_value def.id missing_or_null ∷ [] else []
    value_errors def (some null) =
        if def.required then invalid_field_value def.id missing_or_null ∷ [] else []
    value_errors def (some (scalar value)) =
        if matches_field_type value def.field_type
        then violations (λ c. evaluate_constraint def.id c value) def.constraints
        else invalid_field_value def.id (type_mismatch def.field_type) ∷ []
    value_errors def (some (localized_text texts)) =
        if is_localized_text def.field_type
        then locale_errors def texts (sort (Map.keys texts))
        else invalid_field_value def.id not_localized ∷ []

    -- 1. Declared fields.
    unfoldable pub field_errors :
        HashMap AttributeId ContentValue → List FieldDefinition → List DomainError
    field_errors fields [] = []
    field_errors fields (def ∷ defs) =
        value_errors def (Map.get fields def.id) ++ field_errors fields defs

    unfoldable pub validate_content :
        DocumentType → DocumentContent → Result (List DomainError) (Unit {0})
    validate_content dt content =
        let errors =
          field_errors content.fields dt.fields ++ undeclared dt (Map.keys content.fields) in
        if is_empty errors then ok tt else err errors

    -- `SchemaRegistry::validate_content`
    unfoldable pub validate_in :
        SchemaRegistry → DocumentTypeId → DocumentContent → Result (List DomainError) (Unit {0})
    validate_in reg type_id content = elim (find_type reg type_id) [
      | none ↦ err (document_type_not_found type_id ∷ [])
      | some dt ↦ validate_content dt content
    ]

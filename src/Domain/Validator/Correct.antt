-- ===== src/Domain/Validator/Correct.antt =====
-- Which content validation accepts, stated apart from the code (schema/validator.rs).
use Prim.Native.String.{count}
use package.text.Mathlib.Text.{is_le}
use luminair_service_aws_dsq.Base.{
  ◌≤◌, String, Bool, true, false, Option, none, some, List, [], ◌∷◌, ◌++◌, ◌≡◌, refl, ◌↔◌, inl, inr,
  Result, ok, err, All, All-map, subst, append-eq-nil, Bool-cases, arith, string_eq, if◌then◌else◌,
  is_empty,
}
use luminair_service_aws_dsq.Base.Int.{◌≤ℤ◌, leb_ℤ_iff}
use luminair_service_aws_dsq.Base.Map
use luminair_service_aws_dsq.Base.Map.{HashMap}
use luminair_service_aws_dsq.Domain.Ids.{AttributeId, LocaleId}
use luminair_service_aws_dsq.Domain.Schema.{
  FieldType, FieldConstraint, pattern_of, min_length, max_length, min_integer, max_integer,
  min_decimal, max_decimal, FieldDefinition, DocumentType, has_field,
}
use luminair_service_aws_dsq.Domain.Errors.{DomainError, unknown_locale}
use mathlib.Core.Option.{some-injective}
use luminair_service_aws_dsq.Domain.Values.{
  text, uid, integer, decimal, DomainValue, primitive, ContentValue, scalar, null, localized_text,
}
use luminair_service_aws_dsq.Domain.Values.Typing.{HasType, matches_field_type_iff}
use luminair_service_aws_dsq.Domain.Instance.{DocumentContent}
use luminair_service_aws_dsq.Domain.Config.{SystemConfig, contains_locale}
use luminair_service_aws_dsq.Domain.Validator.{
  Crates, is_localized_text, insert_sorted, sort, evaluate_str_constraint, evaluate_constraint,
  violations, locale_errors, value_errors, field_errors, undeclared, validate_content,
}

module _ (P : LocaleId → Type 0) where
  insert_sorted-All :
      (a : LocaleId) (bs : List LocaleId) → All P (insert_sorted a bs) ↔ (P a × All P bs)
  unfolding insert_sorted
  insert_sorted-All a [] = (λ h. h, λ h. h)
  insert_sorted-All a (b ∷ bs) =
      let (to, from) = insert_sorted-All a bs in
      elim (Bool-cases (is_le (Prim.Native.String.compare a b))) [
        | inl le ↦ rw (le, insert_sorted) (λ h. h, λ h. h)
        | inr gt ↦
            rw (gt, insert_sorted)
              (
                λ (pb, h). (let (pa, r) = to h in (pa, (pb, r))),
                λ (pa, (pb, h)). (pb, from (pa, h)),
              )
      ]

  sort-All : (locales : List LocaleId) → All P (sort locales) ↔ All P locales
  unfolding sort
  sort-All [] = (λ h. h, λ h. h)
  sort-All (a ∷ rest) =
      let (to, from) = insert_sorted-All a (sort rest) in
      let (to', from') = sort-All rest in
      (λ h. (let (pa, r) = to h in (pa, to' r)), λ (pa, r). from (pa, from' r))

is_localized_text_sound :
    (ft : FieldType) → is_localized_text ft ≡ true → ft ≡ FieldType.localized_text
is_localized_text_sound FieldType.localized_text h = refl
is_localized_text_sound _ h = cc

violations_iff :
    (evaluate : FieldConstraint → Option DomainError) (cs : List FieldConstraint)
    → (violations evaluate cs ≡ []) ↔ All (λ c. evaluate c ≡ none) cs
unfolding violations
violations_iff evaluate [] = (λ h. tt, λ h. refl)
violations_iff evaluate (c ∷ cs) =
    let ih = violations_iff evaluate cs in (λ h. ground (arith, ih), λ h. ground (arith, ih))

module _ (crates : Crates) where
  -- What each constraint asks of a text.
  abbrev pub SatisfiesText : String → FieldConstraint → Type 0
  SatisfiesText s (min_length bound) = bound ≤ count s
  SatisfiesText s (max_length bound) = count s ≤ bound
  SatisfiesText s (pattern_of pat) =
      (is_match : String → Bool) × (crates.regex_new pat ≡ ok is_match) × (is_match s ≡ true)
  SatisfiesText s (min_integer _) = Unit
  SatisfiesText s (max_integer _) = Unit
  SatisfiesText s (min_decimal _) = Unit
  SatisfiesText s (max_decimal _) = Unit

  -- What each constraint asks of a value. One that does not fit the kind of value asks nothing.
  abbrev pub Satisfies : DomainValue → FieldConstraint → Type 0
  Satisfies (primitive (text s)) c = SatisfiesText s c
  Satisfies (primitive (uid s)) c = SatisfiesText s c
  Satisfies (primitive (integer n)) (min_integer bound) = bound ≤ℤ n
  Satisfies (primitive (integer n)) (max_integer bound) = n ≤ℤ bound
  Satisfies (primitive (decimal d)) (min_decimal bound) = crates.decimal_lt d bound ≡ false
  Satisfies (primitive (decimal d)) (max_decimal bound) = crates.decimal_lt bound d ≡ false
  Satisfies _ _ = Unit

  evaluate_str_constraint_iff :
      (attr : AttributeId) (c : FieldConstraint) (s : String) (locale : Option LocaleId)
      → (evaluate_str_constraint crates attr c s locale ≡ none) ↔ SatisfiesText s c
  unfolding evaluate_str_constraint
  evaluate_str_constraint_iff attr (min_length bound) s locale = ground arith
  evaluate_str_constraint_iff attr (max_length bound) s locale = ground arith
  evaluate_str_constraint_iff attr (pattern_of pat) s locale = go (crates.regex_new pat) refl
    where
      go :
          (r : Result String (String → Bool))
          → crates.regex_new pat ≡ r
          → (evaluate_str_constraint crates attr (pattern_of pat) s locale ≡ none)
            ↔ SatisfiesText s (pattern_of pat)
      go (ok m) e =
          rw (e, evaluate_str_constraint) (λ h. (m, refl, ground arith), λ (m', f, g). ground arith)
      go (err x) e = rw (e, evaluate_str_constraint) (λ h. cc, λ (m', f, g). cc)
  evaluate_str_constraint_iff attr (min_integer _) s locale = (λ h. tt, λ h. refl)
  evaluate_str_constraint_iff attr (max_integer _) s locale = (λ h. tt, λ h. refl)
  evaluate_str_constraint_iff attr (min_decimal _) s locale = (λ h. tt, λ h. refl)
  evaluate_str_constraint_iff attr (max_decimal _) s locale = (λ h. tt, λ h. refl)

  evaluate_constraint_iff :
      (attr : AttributeId) (c : FieldConstraint) (v : DomainValue)
      → (evaluate_constraint crates attr c v ≡ none) ↔ Satisfies v c
  unfolding evaluate_constraint
  evaluate_constraint_iff attr (min_length n) (primitive (text s)) =
      evaluate_str_constraint_iff attr (min_length n) s none
  evaluate_constraint_iff attr (max_length n) (primitive (text s)) =
      evaluate_str_constraint_iff attr (max_length n) s none
  evaluate_constraint_iff attr (pattern_of p) (primitive (text s)) =
      evaluate_str_constraint_iff attr (pattern_of p) s none
  evaluate_constraint_iff attr (min_length n) (primitive (uid s)) =
      evaluate_str_constraint_iff attr (min_length n) s none
  evaluate_constraint_iff attr (max_length n) (primitive (uid s)) =
      evaluate_str_constraint_iff attr (max_length n) s none
  evaluate_constraint_iff attr (pattern_of p) (primitive (uid s)) =
      evaluate_str_constraint_iff attr (pattern_of p) s none
  evaluate_constraint_iff attr (min_integer bound) (primitive (integer n)) =
      ground (arith, leb_ℤ_iff bound n)
  evaluate_constraint_iff attr (max_integer bound) (primitive (integer n)) =
      ground (arith, leb_ℤ_iff n bound)
  evaluate_constraint_iff attr (min_decimal bound) (primitive (decimal d)) = ground arith
  evaluate_constraint_iff attr (max_decimal bound) (primitive (decimal d)) = ground arith
  evaluate_constraint_iff attr c v = (λ h. tt, λ h. refl)

  module _ (config : SystemConfig) where
    -- What a field definition asks of the value under its name.
    abbrev pub FieldConforms : FieldDefinition → Option ContentValue → Type 0
    FieldConforms def none = def.required ≡ false
    FieldConforms def (some null) = def.required ≡ false
    FieldConforms def (some (scalar v)) =
        HasType v def.field_type × All (Satisfies v) def.constraints
    FieldConforms def (some (localized_text texts)) =
        (def.field_type ≡ FieldType.localized_text)
        × ((locale : LocaleId) (s : String)
            → Map.get texts locale ≡ some s
            → (contains_locale config locale ≡ true) × All (SatisfiesText s) def.constraints)

    -- Every declared field conforms, and every attribute with a value is declared.
    pub record Conforms (dt : DocumentType) (content : DocumentContent) : Type 0 where
      pub fields : All (λ def. FieldConforms def (Map.get content.fields def.id)) dt.fields
      pub declared :
          (attr : AttributeId) (v : ContentValue)
          → Map.get content.fields attr ≡ some v
          → has_field dt attr ≡ true

    -- What is asked of one locale of a localised text.
    abbrev LocaleConforms : FieldDefinition → HashMap LocaleId String → LocaleId → Type 0
    LocaleConforms def texts locale =
        (s : String)
        → Map.get texts locale ≡ some s
        → (contains_locale config locale ≡ true) × All (SatisfiesText s) def.constraints

    violations-text_iff :
        (attr : AttributeId) (s : String) (locale : Option LocaleId) (cs : List FieldConstraint)
        → (violations (λ c. evaluate_str_constraint crates attr c s locale) cs ≡ [])
          ↔ All (SatisfiesText s) cs
    violations-text_iff attr s locale cs =
        let (to, from) = violations_iff (λ c. evaluate_str_constraint crates attr c s locale) cs in
        (
          λ h. All-map (λ c. (evaluate_str_constraint_iff attr c s locale).0) cs (to h),
          λ h. from (All-map (λ c. (evaluate_str_constraint_iff attr c s locale).1) cs h),
        )

    violations-value_iff :
        (attr : AttributeId) (v : DomainValue) (cs : List FieldConstraint)
        → (violations (λ c. evaluate_constraint crates attr c v) cs ≡ []) ↔ All (Satisfies v) cs
    violations-value_iff attr v cs =
        let (to, from) = violations_iff (λ c. evaluate_constraint crates attr c v) cs in
        (
          λ h. All-map (λ c. (evaluate_constraint_iff attr c v).0) cs (to h),
          λ h. from (All-map (λ c. (evaluate_constraint_iff attr c v).1) cs h),
        )

    abbrev errors_at : FieldDefinition → LocaleId → Option String → List DomainError
    errors_at def locale none = []
    errors_at def locale (some s) =
        if contains_locale config locale
        then violations (λ c. evaluate_str_constraint crates def.id c s (some locale))
            def.constraints
        else unknown_locale locale ∷ []

    errors_at_iff :
        (def : FieldDefinition) (locale : LocaleId) (o : Option String)
        → (errors_at def locale o ≡ []) ↔ (
            (s : String)
            → o ≡ some s
            → (contains_locale config locale ≡ true) × All (SatisfiesText s) def.constraints)
    errors_at_iff def locale none = (λ h s e. cc, λ h. refl)
    errors_at_iff def locale (some s) =
        let (to, from) = violations-text_iff def.id s (some locale) def.constraints in
        elim (Bool-cases (contains_locale config locale)) [
          | inl known ↦ rw known (
            λ h t e. (
              refl,
              subst (λ u. All (SatisfiesText u) def.constraints) (some-injective s t e) (to h),
            ),
            λ h. from (h s refl).1,
          )
          | inr foreign_locale ↦ rw foreign_locale (λ h t e. cc, λ h. cc (h s refl).0)
        ]

    locale_errors_iff :
        (def : FieldDefinition) (texts : HashMap LocaleId String) (locales : List LocaleId)
        → (locale_errors crates config def texts locales ≡ [])
          ↔ All (LocaleConforms def texts) locales
    unfolding locale_errors
    locale_errors_iff def texts [] = (λ h. tt, λ h. refl)
    locale_errors_iff def texts (locale ∷ locales) =
        let (to, from) = errors_at_iff def locale (Map.get texts locale) in
        let (to', from') = locale_errors_iff def texts locales in
        let (split, join) =
          append-eq-nil (errors_at def locale (Map.get texts locale))
            (locale_errors crates config def texts locales) in
        (λ h. (to (split h).0, to' (split h).1), λ (h, hs). join (from h, from' hs))

    undeclared_iff :
        (dt : DocumentType) (attrs : List AttributeId)
        → (undeclared dt attrs ≡ []) ↔ All (λ attr. has_field dt attr ≡ true) attrs
    unfolding undeclared
    undeclared_iff dt [] = (λ h. tt, λ h. refl)
    undeclared_iff dt (attr ∷ attrs) =
        let ih = undeclared_iff dt attrs in (λ h. ground (arith, ih), λ h. ground (arith, ih))

    value_errors_iff :
        (def : FieldDefinition) (o : Option ContentValue)
        → (value_errors crates config def o ≡ []) ↔ FieldConforms def o
    unfolding value_errors
    value_errors_iff def none = ground arith
    value_errors_iff def (some null) = ground arith
    value_errors_iff def (some (scalar v)) = ground (
      arith,
      matches_field_type_iff v def.field_type,
      violations-value_iff def.id v def.constraints,
    )
    value_errors_iff def (some (localized_text texts)) =
        let (to, from) = locale_errors_iff def texts (sort (Map.keys texts)) in
        let (of_sorted, to_sorted) = sort-All (LocaleConforms def texts) (Map.keys texts) in
        elim (Bool-cases (is_localized_text def.field_type)) [
          | inl localised ↦ rw localised (
            λ h. (
              is_localized_text_sound def.field_type localised,
              λ locale s found.
                  Map.All-keys_get (LocaleConforms def texts) texts locale s (of_sorted (to h))
                    found s found,
            ),
            λ (_, h). from (
                to_sorted
                  (Map.All-keys_of_get (LocaleConforms def texts) texts (λ k v found. h k))),
          )
          | inr other ↦ rw other (λ h. cc, λ (e, _). ground arith)
        ]

    field_errors_iff :
        (fields : HashMap AttributeId ContentValue) (defs : List FieldDefinition)
        → (field_errors crates config fields defs ≡ [])
          ↔ All (λ def. FieldConforms def (Map.get fields def.id)) defs
    unfolding field_errors
    field_errors_iff fields [] = (λ h. tt, λ h. refl)
    field_errors_iff fields (def ∷ defs) =
        let (to, from) = value_errors_iff def (Map.get fields def.id) in
        let (to', from') = field_errors_iff fields defs in
        let (split, join) =
          append-eq-nil (value_errors crates config def (Map.get fields def.id))
            (field_errors crates config fields defs) in
        (λ h. (to (split h).0, to' (split h).1), λ (h, hs). join (from h, from' hs))

    is_empty_iff :
        (errors : List DomainError)
        → ((◌≡◌ {A = Result (List DomainError) (Unit {0})}
            (if is_empty errors then ok tt else err errors)
            (ok tt)))
          ↔ (errors ≡ [])
    is_empty_iff [] = (λ h. refl, λ h. refl)
    is_empty_iff (e ∷ es) = (λ h. cc, λ h. cc)

    -- Validation accepts content exactly if it conforms: each declared field is present unless it
    -- is optional, has the declared type and meets the constraints, a localised text in each of its
    -- locales, which the system must support; and no other attribute has a value.
    pub validate_content_iff :
        (dt : DocumentType) (content : DocumentContent)
        → (validate_content crates config dt content ≡ ok tt) ↔ Conforms dt content
    unfolding validate_content
    validate_content_iff dt content =
        let (to, from) = is_empty_iff (
          field_errors crates config content.fields dt.fields
          ++ undeclared dt (Map.keys content.fields)) in
        let (split, join) =
          append-eq-nil (field_errors crates config content.fields dt.fields)
            (undeclared dt (Map.keys content.fields)) in
        let (fields_to, fields_from) = field_errors_iff content.fields dt.fields in
        let (names_to, names_from) = undeclared_iff dt (Map.keys content.fields) in
        (
          λ h. record {
            fields = fields_to (split (to h)).0;
            declared = λ attr v found.
                Map.All-keys_get (λ a. has_field dt a ≡ true) content.fields attr v
                  (names_to (split (to h)).1) found;
          },
          λ c. from (
              join (
                fields_from c.fields,
                names_from
                    (Map.All-keys_of_get (λ a. has_field dt a ≡ true) content.fields c.declared),
              )),
        )

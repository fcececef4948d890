-- ===== src/Infrastructure/Loader/Accepted.antt =====
-- The constraints that the loader accepts (infrastructure/src/schema_loader/loader.rs).
use luminair_service_aws_dsq.Base.{
  String, true, false, Option, none, some, List, [], ◌∷◌, ◌++◌, ◌≡◌, refl, arith, All, All-append,
  any, Result, ok, if-holds,
}
use luminair_service_aws_dsq.Base.Fallible.{◌>>=◌, Yields, bind-Yields, Yields-ok}
use luminair_service_aws_dsq.Domain.Schema.{
  FieldType, FieldConstraint, is_applicable_for, PrimitiveType,
}
use luminair_service_aws_dsq.Infrastructure.Json.{Json, Numbers}
use luminair_service_aws_dsq.Infrastructure.Loader.Raw.{
  RawConstraint, ConstraintText, SchemaLoaderError,
}
use luminair_service_aws_dsq.Infrastructure.Loader.Constraints.{
  constraint_eq, push_new, read_as, checked, read_min, read_max, bounded, convert_one, convert_from,
  convert_raw_constraints, parse_usize_from_value, parse_i64_from_value, parse_decimal_from_value,
}

-- No constraint is equal to an earlier one.
abbrev pub AreDistinct : List FieldConstraint → Type 0
AreDistinct [] = Unit
AreDistinct (c ∷ cs) = All (λ later. constraint_eq later c ≡ false) cs × AreDistinct cs

append-AreDistinct :
    (cs : List FieldConstraint) (c : FieldConstraint)
    → AreDistinct cs
    → any (constraint_eq c) cs ≡ false
    → AreDistinct (cs ++ c ∷ [])
append-AreDistinct [] c _ _ = (tt, tt)
append-AreDistinct (x ∷ xs) c (hx, hs) fresh = (
  All-append (λ later. constraint_eq later x ≡ false) xs (c ∷ []) hx (ground arith, tt),
  append-AreDistinct xs c hs (ground arith),
)

module _ (field_type : FieldType) where
  abbrev IsApplicable : FieldConstraint → Type 0
  IsApplicable c = is_applicable_for c field_type ≡ true

  -- The constraints apply to the field's type, and none is there twice.
  abbrev pub AreAccepted : List FieldConstraint → Type 0
  AreAccepted cs = All IsApplicable cs × AreDistinct cs

  push_new-AreAccepted :
      (cs : List FieldConstraint) (c : FieldConstraint)
      → AreAccepted cs
      → IsApplicable c
      → AreAccepted (push_new cs c)
  push_new-AreAccepted cs c (applicable, distinct) h =
      if-holds AreAccepted (any (constraint_eq c) cs) _ _ (λ seen. (applicable, distinct))
        (λ fresh. (
          All-append IsApplicable cs (c ∷ []) applicable (h, tt),
          append-AreDistinct cs c distinct fresh,
        ))

read_as-Yields :
    {A : Type 0} (P : FieldConstraint → Type 0) (failure : SchemaLoaderError)
    (constraint : A → FieldConstraint) (o : Option A)
    → ((a : A) → P (constraint a))
    → Yields P (read_as failure constraint o)
read_as-Yields P failure constraint none h = tt
read_as-Yields P failure constraint (some a) h = h a

module _ (numbers : Numbers) (attr_name : String) where
  read_min-IsApplicable :
      (ft : FieldType) (field_type : FieldType) (v : Json)
      → Yields (IsApplicable ft) (read_min numbers attr_name field_type ft v)
  unfolding read_min is_applicable_for
  read_min-IsApplicable (FieldType.primitive (PrimitiveType.integer size)) field_type v =
      read_as-Yields _ _ _ (parse_i64_from_value numbers v) (λ _. refl)
  read_min-IsApplicable (FieldType.primitive (PrimitiveType.decimal precision scale)) field_type v =
      read_as-Yields _ _ _ (parse_decimal_from_value numbers v) (λ _. refl)
  read_min-IsApplicable (FieldType.primitive PrimitiveType.text) field_type v =
      read_as-Yields _ _ _ (parse_usize_from_value numbers v) (λ _. refl)
  read_min-IsApplicable (FieldType.primitive PrimitiveType.uid) field_type v =
      read_as-Yields _ _ _ (parse_usize_from_value numbers v) (λ _. refl)
  read_min-IsApplicable FieldType.localized_text field_type v =
      read_as-Yields _ _ _ (parse_usize_from_value numbers v) (λ _. refl)
  read_min-IsApplicable _ field_type v = tt

  read_max-IsApplicable :
      (ft : FieldType) (field_type : FieldType) (v : Json)
      → Yields (IsApplicable ft) (read_max numbers attr_name field_type ft v)
  unfolding read_max is_applicable_for
  read_max-IsApplicable (FieldType.primitive (PrimitiveType.integer size)) field_type v =
      read_as-Yields _ _ _ (parse_i64_from_value numbers v) (λ _. refl)
  read_max-IsApplicable (FieldType.primitive (PrimitiveType.decimal precision scale)) field_type v =
      read_as-Yields _ _ _ (parse_decimal_from_value numbers v) (λ _. refl)
  read_max-IsApplicable (FieldType.primitive PrimitiveType.text) field_type v =
      read_as-Yields _ _ _ (parse_usize_from_value numbers v) (λ _. refl)
  read_max-IsApplicable (FieldType.primitive PrimitiveType.uid) field_type v =
      read_as-Yields _ _ _ (parse_usize_from_value numbers v) (λ _. refl)
  read_max-IsApplicable FieldType.localized_text field_type v =
      read_as-Yields _ _ _ (parse_usize_from_value numbers v) (λ _. refl)
  read_max-IsApplicable _ field_type v = tt

module _ (numbers : Numbers) (attr_name : String) (field_type : FieldType) where
  checked-Yields :
      {A : Type 0} (constraint : A → FieldConstraint) (message : A → ConstraintText) (o : Option A)
      (cs : List FieldConstraint)
      → AreAccepted field_type cs
      → Yields
          (AreAccepted field_type)
          (checked numbers attr_name field_type constraint message o cs)
  unfolding checked
  checked-Yields constraint message none cs h = h
  checked-Yields constraint message (some a) cs h =
      if-holds (Yields (AreAccepted field_type)) (is_applicable_for (constraint a) field_type) _ _
        (push_new-AreAccepted field_type cs (constraint a) h) (λ _. tt)

  bounded-Yields :
      (read : FieldType → Json → Result SchemaLoaderError FieldConstraint) (o : Option Json)
      (cs : List FieldConstraint)
      → ((v : Json) → Yields (IsApplicable field_type) (read field_type v))
      → AreAccepted field_type cs
      → Yields (AreAccepted field_type) (bounded numbers attr_name field_type read o cs)
  unfolding bounded
  bounded-Yields read none cs applicable h = h
  bounded-Yields read (some v) cs applicable h =
      bind-Yields (IsApplicable field_type) (AreAccepted field_type) (read field_type v) _
        (applicable v) (λ c. push_new-AreAccepted field_type cs c h)

  -- A step that keeps what is accepted, and then more of them.
  then_accepted :
      (r : Result SchemaLoaderError (List FieldConstraint))
      (next : List FieldConstraint → Result SchemaLoaderError (List FieldConstraint))
      → Yields (AreAccepted field_type) r
      → ((cs : List FieldConstraint)
          → AreAccepted field_type cs
          → Yields (AreAccepted field_type) (next cs))
      → Yields (AreAccepted field_type) (r >>= next)
  then_accepted = bind-Yields (AreAccepted field_type) (AreAccepted field_type)

  convert_one-Yields :
      (cs : List FieldConstraint) (rc : RawConstraint)
      → AreAccepted field_type cs
      → Yields (AreAccepted field_type) (convert_one numbers attr_name field_type cs rc)
  unfolding convert_one
  convert_one-Yields cs rc h = then_accepted _ _ (checked-Yields _ _ rc.min_length cs h) λ cs₁ h₁.
      then_accepted _ _ (checked-Yields _ _ rc.max_length cs₁ h₁) λ cs₂ h₂.
        then_accepted _ _ (checked-Yields _ _ rc.pattern_of cs₂ h₂) λ cs₃ h₃.
          then_accepted _ _
            (bounded-Yields _ rc.min cs₃
              (read_min-IsApplicable numbers attr_name field_type field_type) h₃)
            λ cs₄ h₄.
              bounded-Yields _ rc.max cs₄
                (read_max-IsApplicable numbers attr_name field_type field_type) h₄

  convert_from-Yields :
      (rcs : List RawConstraint) (cs : List FieldConstraint)
      → AreAccepted field_type cs
      → Yields (AreAccepted field_type) (convert_from numbers attr_name field_type cs rcs)
  unfolding convert_from
  convert_from-Yields [] cs h = h
  convert_from-Yields (rc ∷ rcs) cs h =
      then_accepted _ _ (convert_one-Yields cs rc h) (convert_from-Yields rcs)

-- Each constraint that is accepted for a field applies to the field's type, also one that is read from
-- a `min` or a `max` without a test, and none is equal to an earlier one.
pub convert_raw_constraints-AreAccepted :
    (numbers : Numbers) (raw_constraints : List RawConstraint) (field_type : FieldType)
    (attr_name : String) (cs : List FieldConstraint)
    → convert_raw_constraints numbers raw_constraints field_type attr_name ≡ ok cs
    → AreAccepted field_type cs
unfolding convert_raw_constraints
convert_raw_constraints-AreAccepted numbers raw_constraints field_type attr_name cs =
    Yields-ok (AreAccepted field_type) _ cs
      (convert_from-Yields numbers attr_name field_type raw_constraints [] (tt, tt))

-- ===== src/Domain/Schema.antt =====
-- Document types and relations (domain/src/schema/{types,field_definition,document_type,relation}.rs).
use luminair_service_aws_dsq.Base.{
  ℕ, String, Bool, true, false, Option, none, some, List, ◌==◌, string_eq, if◌then◌else◌,
}
use luminair_service_aws_dsq.Base.IndexSet
use luminair_service_aws_dsq.Base.Int.{ℤ}
use luminair_service_aws_dsq.Domain.Ids.{DocumentTypeId, AttributeId, RelationId, Decimal}

pub data IntegerSize : Type 0 where
  i16 i32 i64 : IntegerSize

pub data PrimitiveType : Type 0 where
  uid uuid text : PrimitiveType
  integer : IntegerSize → PrimitiveType
  decimal : (precision scale : ℕ) → PrimitiveType
  date date_time boolean : PrimitiveType

pub data FieldType : Type 0 where
  primitive : PrimitiveType → FieldType
  localized_text email url json : FieldType

pub data FieldConstraint : Type 0 where
  pattern_of : String → FieldConstraint
  min_length max_length : ℕ → FieldConstraint
  min_integer max_integer : ℤ → FieldConstraint
  min_decimal max_decimal : Decimal → FieldConstraint

-- The arm that `Pattern`, `MinLength` and `MaxLength` share.
holds_text : FieldType → Bool
holds_text (FieldType.primitive PrimitiveType.text) = true
holds_text (FieldType.primitive PrimitiveType.uid) = true
holds_text FieldType.localized_text = true
holds_text _ = false

holds_integer : FieldType → Bool
holds_integer (FieldType.primitive (PrimitiveType.integer size)) = true
holds_integer _ = false

holds_decimal : FieldType → Bool
holds_decimal (FieldType.primitive (PrimitiveType.decimal precision scale)) = true
holds_decimal _ = false

unfoldable pub is_applicable_for : FieldConstraint → FieldType → Bool
unfolding holds_text holds_integer holds_decimal
is_applicable_for (pattern_of _) ft = holds_text ft
is_applicable_for (min_length _) ft = holds_text ft
is_applicable_for (max_length _) ft = holds_text ft
is_applicable_for (min_integer _) ft = holds_integer ft
is_applicable_for (max_integer _) ft = holds_integer ft
is_applicable_for (min_decimal _) ft = holds_decimal ft
is_applicable_for (max_decimal _) ft = holds_decimal ft

pub record FieldDefinition : Type 0 where
  pub id : AttributeId
  pub field_type : FieldType
  pub required : Bool
  pub unique : Bool
  pub constraints : List FieldConstraint

pub data DocumentKind : Type 0 where
  collection single_type : DocumentKind

pub record DocumentTypeInfo : Type 0 where
  pub title : String
  pub singular_name : String
  pub plural_name : String
  pub description : Option String

pub record DocumentTypeOptions : Type 0 where
  pub draft_and_publish : Bool

-- `fields` is an `IndexSet` by `id`.
pub record DocumentType : Type 0 where
  pub id : DocumentTypeId
  pub kind : DocumentKind
  pub info : DocumentTypeInfo
  pub options : DocumentTypeOptions
  pub fields : List FieldDefinition

abbrev pub field_key : FieldDefinition → AttributeId
field_key f = f.id

-- `find_field`, and `get_field` at a typed identifier.
unfoldable pub find_field : DocumentType → AttributeId → Option FieldDefinition
find_field dt id = IndexSet.get field_key dt.fields id

unfoldable pub has_field : DocumentType → AttributeId → Bool
has_field dt id = IndexSet.contains field_key dt.fields id

pub data OwnerRelationKind : Type 0 where
  has_one has_many : OwnerRelationKind

pub data InverseRelationKind : Type 0 where
  belongs_to_one belongs_to_many : InverseRelationKind

pub record RelationInverse : Type 0 where
  pub inverse_attr : AttributeId

pub record Relation : Type 0 where
  pub id : RelationId
  pub owner_type : DocumentTypeId
  pub owner_attr : AttributeId
  pub owner_kind : OwnerRelationKind
  pub target_type : DocumentTypeId
  pub inverse : Option RelationInverse

pub data RelationView : Type 0 where
  owner_side : AttributeId → OwnerRelationKind → DocumentTypeId → RelationView
  inverse_side : AttributeId → InverseRelationKind → DocumentTypeId → RelationView
  unidirectional : AttributeId → OwnerRelationKind → DocumentTypeId → RelationView

abbrev inverse_of : OwnerRelationKind → InverseRelationKind
inverse_of has_one = belongs_to_one
inverse_of has_many = belongs_to_many

unfoldable pub inverse_kind : Relation → Option InverseRelationKind
inverse_kind r = elim r.inverse [ none ↦ none | some _ ↦ some (inverse_of r.owner_kind) ]

-- The `expect` on the derived kind is met whenever `inverse` is present: where it is absent, no
-- view is given, and the first case of the inner `elim` is never reached.
unfoldable pub view_for : Relation → DocumentTypeId → Option RelationView
unfolding inverse_kind
view_for r type_id =
    if type_id == r.owner_type
    then elim r.inverse [
      | none ↦ some (unidirectional r.owner_attr r.owner_kind r.target_type)
      | some _ ↦ some (owner_side r.owner_attr r.owner_kind r.target_type)
    ]
    else (if type_id == r.target_type
        then elim r.inverse [
          | none ↦ none
          | some inv ↦ elim (inverse_kind r) [
            | none ↦ none
            | some kind ↦ some (inverse_side inv.inverse_attr kind r.owner_type)
          ]
        ]
        else none)

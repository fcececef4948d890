-- ===== src/Domain/Values/Typing.antt =====
-- Which values have which field type, stated apart from the code that tests it.
use luminair_service_aws_dsq.Base.{String, Bool, true, ◌≡◌, refl, ◌↔◌, arith, ℕ}
use luminair_service_aws_dsq.Base.Int.{ℤ, pos, negsuc, ◌≤ℤ◌, leb_ℤ_iff}
use luminair_service_aws_dsq.Base.Map.{HashMap}
use luminair_service_aws_dsq.Domain.Ids.{Uuid, Decimal, NaiveDate, DateTime}
use luminair_service_aws_dsq.Domain.Schema.{IntegerSize, i16, i32, i64, PrimitiveType, FieldType}
use luminair_service_aws_dsq.Domain.Values.{
  PrimitiveValue, DomainValue, fits, matches_primitive_type, matches_field_type,
}

-- The integers of `size` bits in two's complement.
abbrev pub InRange : IntegerSize → ℤ → Type 0
InRange i16 v = (negsuc 32767 ≤ℤ v) × (v ≤ℤ pos 32767)
InRange i32 v = (negsuc 2147483647 ≤ℤ v) × (v ≤ℤ pos 2147483647)
InRange i64 v = Unit

pub data HasPrimitiveType : PrimitiveValue → PrimitiveType → Type 0 where
  text : (s : String) → HasPrimitiveType (PrimitiveValue.text s) PrimitiveType.text
  uid : (s : String) → HasPrimitiveType (PrimitiveValue.uid s) PrimitiveType.uid
  uuid : (u : Uuid) → HasPrimitiveType (PrimitiveValue.uuid u) PrimitiveType.uuid
  integer :
      (v : ℤ) (size : IntegerSize)
      → InRange size v
      → HasPrimitiveType (PrimitiveValue.integer v) (PrimitiveType.integer size)
  decimal :
      (d : Decimal) (p s : ℕ)
      → HasPrimitiveType (PrimitiveValue.decimal d) (PrimitiveType.decimal p s)
  date : (d : NaiveDate) → HasPrimitiveType (PrimitiveValue.date d) PrimitiveType.date
  date_time : (t : DateTime) → HasPrimitiveType (PrimitiveValue.date_time t) PrimitiveType.date_time
  boolean : (b : Bool) → HasPrimitiveType (PrimitiveValue.boolean b) PrimitiveType.boolean

pub data HasType : DomainValue → FieldType → Type 0 where
  primitive :
      {p : PrimitiveValue} {pt : PrimitiveType}
      → HasPrimitiveType p pt
      → HasType (DomainValue.primitive p) (FieldType.primitive pt)
  email : (e : String) → HasType (DomainValue.email e) FieldType.email
  url : (u : String) → HasType (DomainValue.url u) FieldType.url
  json : (m : HashMap String PrimitiveValue) → HasType (DomainValue.json m) FieldType.json

fits_iff : (v : ℤ) (size : IntegerSize) → (fits v size ≡ true) ↔ InRange size v
unfolding fits
fits_iff v i16 = ground (arith, leb_ℤ_iff (negsuc 32767) v, leb_ℤ_iff v (pos 32767))
fits_iff v i32 = ground (arith, leb_ℤ_iff (negsuc 2147483647) v, leb_ℤ_iff v (pos 2147483647))
fits_iff v i64 = (λ _. tt, λ _. refl)

matches_primitive_type_sound :
    (v : PrimitiveValue) (pt : PrimitiveType)
    → matches_primitive_type v pt ≡ true
    → HasPrimitiveType v pt
unfolding matches_primitive_type
matches_primitive_type_sound (PrimitiveValue.text s) PrimitiveType.text h = text s
matches_primitive_type_sound (PrimitiveValue.uid s) PrimitiveType.uid h = uid s
matches_primitive_type_sound (PrimitiveValue.uuid u) PrimitiveType.uuid h = uuid u
matches_primitive_type_sound (PrimitiveValue.integer v) (PrimitiveType.integer size) h =
    integer v size ((fits_iff v size).0 h)
matches_primitive_type_sound (PrimitiveValue.decimal d) (PrimitiveType.decimal p s) h =
    decimal d p s
matches_primitive_type_sound (PrimitiveValue.date d) PrimitiveType.date h = date d
matches_primitive_type_sound (PrimitiveValue.date_time t) PrimitiveType.date_time h = date_time t
matches_primitive_type_sound (PrimitiveValue.boolean b) PrimitiveType.boolean h = boolean b
matches_primitive_type_sound _ _ h = cc

matches_primitive_type_complete :
    {v : PrimitiveValue} {pt : PrimitiveType}
    → HasPrimitiveType v pt
    → matches_primitive_type v pt ≡ true
unfolding matches_primitive_type
matches_primitive_type_complete (text s) = refl
matches_primitive_type_complete (uid s) = refl
matches_primitive_type_complete (uuid u) = refl
matches_primitive_type_complete (integer v size r) = (fits_iff v size).1 r
matches_primitive_type_complete (decimal d p s) = refl
matches_primitive_type_complete (date d) = refl
matches_primitive_type_complete (date_time t) = refl
matches_primitive_type_complete (boolean b) = refl

matches_field_type_sound :
    (v : DomainValue) (ft : FieldType) → matches_field_type v ft ≡ true → HasType v ft
unfolding matches_field_type
matches_field_type_sound (DomainValue.primitive p) (FieldType.primitive pt) h =
    primitive (matches_primitive_type_sound p pt h)
matches_field_type_sound (DomainValue.email e) FieldType.email h = email e
matches_field_type_sound (DomainValue.url u) FieldType.url h = url u
matches_field_type_sound (DomainValue.json m) FieldType.json h = json m
matches_field_type_sound _ _ h = cc

matches_field_type_complete :
    {v : DomainValue} {ft : FieldType} → HasType v ft → matches_field_type v ft ≡ true
unfolding matches_field_type
matches_field_type_complete (primitive h) = matches_primitive_type_complete h
matches_field_type_complete (email e) = refl
matches_field_type_complete (url u) = refl
matches_field_type_complete (json m) = refl

-- `matches_field_type` accepts a value exactly if it has the field's type: the same kind of value,
-- and an integer only within the two's complement range of its size.
pub matches_field_type_iff :
    (v : DomainValue) (ft : FieldType) → (matches_field_type v ft ≡ true) ↔ HasType v ft
matches_field_type_iff v ft = (matches_field_type_sound v ft, λ h. matches_field_type_complete h)

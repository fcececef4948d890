-- ===== src/Domain/Values.antt =====
-- Content values (domain/src/content/values.rs). An `i64` is an integer.
pub mod Typing
use luminair_service_aws_dsq.Base.{String, Bool, true, false, ◌&&◌}
use luminair_service_aws_dsq.Base.Int.{ℤ, pos, negsuc, leb_ℤ}
use luminair_service_aws_dsq.Base.Map.{HashMap}
use luminair_service_aws_dsq.Domain.Ids.{Uuid, Decimal, NaiveDate, DateTime, Email, Url, LocaleId}
use luminair_service_aws_dsq.Domain.Schema.{IntegerSize, i16, i32, i64, PrimitiveType, FieldType}

pub data PrimitiveValue : Type 0 where
  text uid : String → PrimitiveValue
  uuid : Uuid → PrimitiveValue
  integer : ℤ → PrimitiveValue
  decimal : Decimal → PrimitiveValue
  date : NaiveDate → PrimitiveValue
  date_time : DateTime → PrimitiveValue
  boolean : Bool → PrimitiveValue

pub data DomainValue : Type 0 where
  primitive : PrimitiveValue → DomainValue
  email : Email → DomainValue
  url : Url → DomainValue
  json : HashMap String PrimitiveValue → DomainValue

pub data ContentValue : Type 0 where
  scalar : DomainValue → ContentValue
  localized_text : HashMap LocaleId String → ContentValue
  null : ContentValue

fits : ℤ → IntegerSize → Bool
fits v i16 = leb_ℤ (negsuc 32767) v && leb_ℤ v (pos 32767)
fits v i32 = leb_ℤ (negsuc 2147483647) v && leb_ℤ v (pos 2147483647)
fits v i64 = true

unfoldable pub matches_primitive_type : PrimitiveValue → PrimitiveType → Bool
unfolding fits
matches_primitive_type (text _) PrimitiveType.text = true
matches_primitive_type (uid _) PrimitiveType.uid = true
matches_primitive_type (uuid _) PrimitiveType.uuid = true
matches_primitive_type (integer v) (PrimitiveType.integer size) = fits v size
matches_primitive_type (decimal _) (PrimitiveType.decimal _ _) = true
matches_primitive_type (date _) PrimitiveType.date = true
matches_primitive_type (date_time _) PrimitiveType.date_time = true
matches_primitive_type (boolean _) PrimitiveType.boolean = true
matches_primitive_type _ _ = false

unfoldable pub matches_field_type : DomainValue → FieldType → Bool
unfolding matches_primitive_type
matches_field_type (primitive p) (FieldType.primitive pt) = matches_primitive_type p pt
matches_field_type (email _) FieldType.email = true
matches_field_type (url _) FieldType.url = true
matches_field_type (json _) FieldType.json = true
matches_field_type _ _ = false

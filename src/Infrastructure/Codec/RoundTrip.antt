-- ===== src/Infrastructure/Codec/RoundTrip.antt =====
-- A content value, written to a column and read back (infrastructure/src/persistence/query/codec.rs).
use luminair_service_aws_dsq.Base.{String, true, some, ◌≡◌, ◌≢◌, refl, arith, Result, ok}
use luminair_service_aws_dsq.Base.Int.{ℤ, pos, negsuc}
use luminair_service_aws_dsq.Domain.Schema.{FieldType, PrimitiveType, IntegerSize}
use luminair_service_aws_dsq.Domain.Values.{
  PrimitiveValue, DomainValue, ContentValue, scalar, matches_field_type,
}
use luminair_service_aws_dsq.Domain.Values as Val
use luminair_service_aws_dsq.Domain.Values.Typing.{
  InRange, HasPrimitiveType, HasType, matches_field_type_iff,
}
use luminair_service_aws_dsq.Domain.Values.Typing as Typ
use luminair_service_aws_dsq.Infrastructure.Json.{Json}
use luminair_service_aws_dsq.Infrastructure.Codec.{
  Value, string, uuid, small_int, int, big_int, decimal, bool, chrono_date, chrono_date_time, json,
  Row, Serde, wrap, as_i16, as_i32, read_json, read_content_value, to_sea_value,
}

-- The conversion keeps an integer that is in the range of its column.
as_i16-InRange : (i : ℤ) → InRange IntegerSize.i16 i → as_i16 i ≡ i
unfolding wrap
as_i16-InRange (pos n) (low, high) = ground arith
as_i16-InRange (negsuc n) (low, high) = ground arith

as_i32-InRange : (i : ℤ) → InRange IntegerSize.i32 i → as_i32 i ≡ i
unfolding wrap
as_i32-InRange (pos n) (low, high) = ground arith
as_i32-InRange (negsuc n) (low, high) = ground arith

-- The row holds the value in the column: the getter for the value's type gives it.
abbrev pub Holds : Row → String → Value → Type 0
Holds row col (string o) = row.get_string col ≡ ok o
Holds row col (uuid o) = row.get_uuid col ≡ ok o
Holds row col (small_int o) = row.get_i16 col ≡ ok o
Holds row col (int o) = row.get_i32 col ≡ ok o
Holds row col (big_int o) = row.get_i64 col ≡ ok o
Holds row col (decimal o) = row.get_decimal col ≡ ok o
Holds row col (bool o) = row.get_bool col ≡ ok o
Holds row col (chrono_date o) = row.get_date col ≡ ok o
Holds row col (chrono_date_time o) = row.get_date_time col ≡ ok o
Holds row col (json o) = row.get_json col ≡ ok o

-- `serde` writes the map to JSON other than `null`, and reads it back.
abbrev pub IsKept : {M : Type 0} → (M → Result String Json) → (Json → Result String M) → M → Type 0
IsKept to from m = (j : Json) × (to m ≡ ok j) × (j ≢ Json.null) × (from j ≡ ok m)

read_json-some :
    {B : Type 0} (parse : Json → Result String B) (f : B → ContentValue) (j : Json) (b : B)
    → j ≢ Json.null
    → parse j ≡ ok b
    → read_json parse f (some j) ≡ ok (f b)
read_json-some parse f Json.null b nonnull h = absurd (nonnull refl)
read_json-some parse f (Json.boolean _) b nonnull h = rw h refl
read_json-some parse f (Json.number _) b nonnull h = rw h refl
read_json-some parse f (Json.text _) b nonnull h = rw h refl
read_json-some parse f (Json.array _) b nonnull h = rw h refl
read_json-some parse f (Json.object _) b nonnull h = rw h refl

module _ (serde : Serde) where
  -- The other crates take the value's text or map back.
  abbrev pub IsAccepted : DomainValue → Type 0
  IsAccepted (Val.primitive _) = Unit
  IsAccepted (Val.email e) = serde.email e ≡ ok e
  IsAccepted (Val.url u) = serde.url u ≡ ok u
  IsAccepted (Val.json m) = IsKept serde.entries_to_value serde.entries_from_value m

  -- A value of a field of the type.
  abbrev pub IsColumnValue : ContentValue → FieldType → Type 0
  IsColumnValue Val.null ft = Unit
  IsColumnValue (scalar d) ft = (matches_field_type d ft ≡ true) × IsAccepted d
  IsColumnValue (Val.localized_text m) FieldType.localized_text =
      IsKept serde.locales_to_value serde.locales_from_value m
  IsColumnValue (Val.localized_text m) _ = ⊥

  module _ (row : Row) (col : String) where
    -- The column of the row holds what the value is written as.
    abbrev pub HoldsWritten : ContentValue → FieldType → Type 0
    HoldsWritten v ft = (s : Value) → to_sea_value serde (some v) ft ≡ ok s → Holds row col s

    -- The value is written, and read back from the row.
    abbrev pub IsBack : ContentValue → FieldType → Type 0
    IsBack v ft =
        ((s : Value) × (to_sea_value serde (some v) ft ≡ ok s))
        × (read_content_value serde row col ft ≡ ok v)

    null-IsBack : (ft : FieldType) → HoldsWritten Val.null ft → IsBack Val.null ft
    unfolding to_sea_value read_content_value
    null-IsBack (FieldType.primitive PrimitiveType.text) held = ((_, refl), rw (held _ refl) refl)
    null-IsBack (FieldType.primitive PrimitiveType.uid) held = ((_, refl), rw (held _ refl) refl)
    null-IsBack (FieldType.primitive PrimitiveType.uuid) held = ((_, refl), rw (held _ refl) refl)
    null-IsBack (FieldType.primitive (PrimitiveType.integer IntegerSize.i16)) held =
        ((_, refl), rw (held _ refl) refl)
    null-IsBack (FieldType.primitive (PrimitiveType.integer IntegerSize.i32)) held =
        ((_, refl), rw (held _ refl) refl)
    null-IsBack (FieldType.primitive (PrimitiveType.integer IntegerSize.i64)) held =
        ((_, refl), rw (held _ refl) refl)
    null-IsBack (FieldType.primitive (PrimitiveType.decimal _ _)) held =
        ((_, refl), rw (held _ refl) refl)
    null-IsBack (FieldType.primitive PrimitiveType.boolean) held =
        ((_, refl), rw (held _ refl) refl)
    null-IsBack (FieldType.primitive PrimitiveType.date) held = ((_, refl), rw (held _ refl) refl)
    null-IsBack (FieldType.primitive PrimitiveType.date_time) held =
        ((_, refl), rw (held _ refl) refl)
    null-IsBack FieldType.email held = ((_, refl), rw (held _ refl) refl)
    null-IsBack FieldType.url held = ((_, refl), rw (held _ refl) refl)
    null-IsBack FieldType.localized_text held = ((_, refl), rw (held _ refl) refl)
    null-IsBack FieldType.json held = ((_, refl), rw (held _ refl) refl)

    primitive-IsBack :
        {p : PrimitiveValue} {pt : PrimitiveType}
        → HasPrimitiveType p pt
        → HoldsWritten (scalar (Val.primitive p)) (FieldType.primitive pt)
        → IsBack (scalar (Val.primitive p)) (FieldType.primitive pt)
    unfolding to_sea_value read_content_value
    primitive-IsBack (Typ.text s) held = ((_, refl), rw (held _ refl) refl)
    primitive-IsBack (Typ.uid s) held = ((_, refl), rw (held _ refl) refl)
    primitive-IsBack (Typ.uuid u) held = ((_, refl), rw (held _ refl) refl)
    primitive-IsBack (Typ.integer i IntegerSize.i16 r) held =
        ((_, refl), rw (held _ refl, as_i16-InRange i r) refl)
    primitive-IsBack (Typ.integer i IntegerSize.i32 r) held =
        ((_, refl), rw (held _ refl, as_i32-InRange i r) refl)
    primitive-IsBack (Typ.integer i IntegerSize.i64 r) held = ((_, refl), rw (held _ refl) refl)
    primitive-IsBack (Typ.decimal d p s) held = ((_, refl), rw (held _ refl) refl)
    primitive-IsBack (Typ.date d) held = ((_, refl), rw (held _ refl) refl)
    primitive-IsBack (Typ.date_time t) held = ((_, refl), rw (held _ refl) refl)
    primitive-IsBack (Typ.boolean b) held = ((_, refl), rw (held _ refl) refl)

    scalar-IsBack :
        {d : DomainValue} {ft : FieldType}
        → HasType d ft
        → IsAccepted d
        → HoldsWritten (scalar d) ft
        → IsBack (scalar d) ft
    unfolding to_sea_value read_content_value
    scalar-IsBack (Typ.primitive h) _ held = primitive-IsBack h held
    scalar-IsBack (Typ.email e) accepted held = ((_, refl), rw (held _ refl, accepted) refl)
    scalar-IsBack (Typ.url u) accepted held = ((_, refl), rw (held _ refl, accepted) refl)
    scalar-IsBack (Typ.json m) (j, written, nonnull, read) held = (
      (json (some j), rw written refl),
      rw (held (json (some j)) (rw written refl))
          (read_json-some serde.entries_from_value (λ n. scalar (Val.json n)) j m nonnull read),
    )

    -- A value of a field's type is always written, a 16- or 32-bit integer without loss, and read back
    -- from a row whose column holds what was written; where addresses are accepted by their own
    -- `try_new`, and `serde` reads the JSON of a map that it has written.
    pub read_content_value-back :
        (v : ContentValue) (ft : FieldType) → IsColumnValue v ft → HoldsWritten v ft → IsBack v ft
    unfolding to_sea_value read_content_value
    read_content_value-back Val.null ft _ held = null-IsBack ft held
    read_content_value-back (scalar d) ft (typed, accepted) held =
        scalar-IsBack ((matches_field_type_iff d ft).0 typed) accepted held
    read_content_value-back (Val.localized_text m) FieldType.localized_text
          (j, written, nonnull, read) held =
        (
          (json (some j), rw written refl),
          rw (held (json (some j)) (rw written refl))
              (read_json-some serde.locales_from_value Val.localized_text j m nonnull read),
        )
    read_content_value-back (Val.localized_text m) _ h held = absurd h

-- ===== src/Infrastructure/Http/RoundTrip.antt =====
-- A content value, written to JSON and read back (infrastructure/src/api/dto.rs).
use mathlib.Core.List.{append-nil}
use luminair_service_aws_dsq.Base.{
  String, true, some, [], ◌∷◌, ◌++◌, ◌≡◌, ◌∙◌, refl, sym, ap, arith, ok, string_eq,
}
use luminair_service_aws_dsq.Base.Int.{ℤ}
use luminair_service_aws_dsq.Base.Map.{HashMap}
use luminair_service_aws_dsq.Base.Map
use luminair_service_aws_dsq.Domain.Ids.{Uuid, Decimal, NaiveDate, DateTime, LocaleId}
use luminair_service_aws_dsq.Domain.Schema.{FieldType, PrimitiveType}
use luminair_service_aws_dsq.Domain.Values.{
  PrimitiveValue, DomainValue, ContentValue, scalar, matches_field_type, matches_primitive_type,
}
use luminair_service_aws_dsq.Domain.Values as Val
use luminair_service_aws_dsq.Infrastructure.Json.{Json}
use luminair_service_aws_dsq.Infrastructure.Http.Values.{
  Formats, primitive_to_json, content_value_to_json, of_primitive, read_locales, read_entry,
  read_entries, json_to_content_value,
}
use luminair_service_aws_dsq.Infrastructure.Http.Entries.{
  members_of, insert_entries-members_of, AreApart, AreApart-cons, insert-then,
}

-- What the other crates document: each parser reads what the matching writer makes.
pub record Reads (formats : Formats) : Type 0 where
  pub uuid_back : (u : Uuid) → formats.parse_uuid (formats.uuid_to_string u) ≡ ok u
  pub decimal_back : (d : Decimal) → formats.parse_decimal (formats.decimal_to_string d) ≡ ok d
  pub date_back : (d : NaiveDate) → formats.parse_date (formats.date_to_string d) ≡ ok d
  pub date_time_back : (t : DateTime) → formats.parse_rfc3339 (formats.to_rfc3339 t) ≡ ok t
  pub integer_back : (i : ℤ) → formats.as_i64 (formats.integer_number i) ≡ some i

module _ (formats : Formats) where
  -- The kinds of value that a JSON field keeps.
  abbrev pub IsPlain : PrimitiveValue → Type 0
  IsPlain (PrimitiveValue.text _) = Unit
  IsPlain (PrimitiveValue.integer _) = Unit
  IsPlain (PrimitiveValue.boolean _) = Unit
  IsPlain _ = ⊥

  abbrev pub ArePlain : HashMap String PrimitiveValue → Type 0
  ArePlain [] = Unit
  ArePlain ((_, v) ∷ m) = IsPlain v × ArePlain m

  abbrev pub AreLocales : HashMap LocaleId String → Type 0
  AreLocales [] = Unit
  AreLocales ((l, _) ∷ m) = (formats.locale_id l ≡ ok l) × AreLocales m

  -- A value of a field of the type: identifiers and addresses are accepted by their own `try_new`, no
  -- key is there twice, and a JSON field holds texts, integers and booleans only.
  abbrev pub IsFieldValue : ContentValue → FieldType → Type 0
  IsFieldValue Val.null ft = Unit
  IsFieldValue (Val.localized_text m) FieldType.localized_text =
      Map.HasDistinctKeys m × AreLocales m
  IsFieldValue (scalar (Val.email e)) FieldType.email = formats.email e ≡ ok e
  IsFieldValue (scalar (Val.url u)) FieldType.url = formats.url u ≡ ok u
  IsFieldValue (scalar (Val.json m)) FieldType.json = Map.HasDistinctKeys m × ArePlain m
  IsFieldValue (scalar (Val.primitive p)) (FieldType.primitive pt) =
      matches_primitive_type p pt ≡ true
  IsFieldValue _ _ = ⊥

module _ (formats : Formats) (reads : Reads formats) where
  read_locales-members_of :
      (m done : HashMap LocaleId String)
      → Map.HasDistinctKeys m
      → AreLocales formats m
      → AreApart done m
      → read_locales formats done (members_of Json.text m) ≡ ok (done ++ m)
  unfolding read_locales
  read_locales-members_of [] done _ _ _ = ap ok (sym (append-nil done))
  read_locales-members_of ((l, s) ∷ m) done (alone, distinct) (accepted, rest) apart =
      let (fresh, apart') = AreApart-cons done m l s alone apart in
      rw accepted (
        read_locales-members_of m (Map.insert done l s) distinct rest apart'
        ∙ ap ok (insert-then done m l s fresh))

  read_entry-plain :
      (v : PrimitiveValue)
      → IsPlain formats v
      → read_entry formats (primitive_to_json formats v) ≡ v
  unfolding read_entry primitive_to_json
  read_entry-plain (PrimitiveValue.text _) _ = refl
  read_entry-plain (PrimitiveValue.integer i) _ = rw (reads.integer_back i) refl
  read_entry-plain (PrimitiveValue.boolean _) _ = refl
  read_entry-plain _ h = absurd h

  read_entries-members_of :
      (m done : HashMap String PrimitiveValue)
      → Map.HasDistinctKeys m
      → ArePlain formats m
      → AreApart done m
      → read_entries formats done (members_of (primitive_to_json formats) m) ≡ done ++ m
  unfolding read_entries
  read_entries-members_of [] done _ _ _ = sym (append-nil done)
  read_entries-members_of ((k, v) ∷ m) done (alone, distinct) (plain, rest) apart =
      let (fresh, apart') = AreApart-cons done m k v alone apart in
      ap
        (λ w. read_entries formats (Map.insert done k w) (members_of (primitive_to_json formats) m))
        (read_entry-plain v plain)
      ∙ read_entries-members_of m (Map.insert done k v) distinct rest apart'
      ∙ insert-then done m k v fresh

  read_primitive-back :
      (p : PrimitiveValue) (pt : PrimitiveType)
      → matches_primitive_type p pt ≡ true
      → json_to_content_value formats (primitive_to_json formats p) (FieldType.primitive pt)
        ≡ ok (of_primitive formats p)
  unfolding json_to_content_value primitive_to_json matches_primitive_type
  read_primitive-back (PrimitiveValue.text s) PrimitiveType.text _ = refl
  read_primitive-back (PrimitiveValue.uid s) PrimitiveType.uid _ = refl
  read_primitive-back (PrimitiveValue.uuid u) PrimitiveType.uuid _ = rw (reads.uuid_back u) refl
  read_primitive-back (PrimitiveValue.integer i) (PrimitiveType.integer size) _ =
      rw (reads.integer_back i) refl
  read_primitive-back (PrimitiveValue.decimal d) (PrimitiveType.decimal _ _) _ =
      rw (reads.decimal_back d) refl
  read_primitive-back (PrimitiveValue.boolean b) PrimitiveType.boolean _ = refl
  read_primitive-back (PrimitiveValue.date d) PrimitiveType.date _ = rw (reads.date_back d) refl
  read_primitive-back (PrimitiveValue.date_time t) PrimitiveType.date_time _ =
      rw (reads.date_time_back t) refl
  read_primitive-back _ _ h = absurd (ground arith)

  -- Where the other crates' parsers read what their writers make, a field's value is read back from
  -- the JSON that it is written to; identifiers and addresses being accepted ones, a map's keys
  -- distinct, and a JSON field's values texts, integers or booleans.
  pub json_to_content_value-back :
      (v : ContentValue) (ft : FieldType)
      → IsFieldValue formats v ft
      → json_to_content_value formats (content_value_to_json formats v) ft ≡ ok v
  unfolding json_to_content_value content_value_to_json
  json_to_content_value-back Val.null ft _ = refl
  json_to_content_value-back (Val.localized_text m) FieldType.localized_text (distinct, accepted) =
      rw
        (
          insert_entries-members_of formats Json.text m distinct,
          read_locales-members_of m [] distinct accepted (λ _ _ _. unfold Map.get in refl),
        )
        refl
  json_to_content_value-back (scalar (Val.email e)) FieldType.email h = rw h refl
  json_to_content_value-back (scalar (Val.url u)) FieldType.url h = rw h refl
  json_to_content_value-back (scalar (Val.json m)) FieldType.json (distinct, plain) =
      rw
        (
          insert_entries-members_of formats (primitive_to_json formats) m distinct,
          read_entries-members_of m [] distinct plain (λ _ _ _. unfold Map.get in refl),
        )
        refl
  json_to_content_value-back (scalar (Val.primitive p)) (FieldType.primitive pt) h =
      read_primitive-back p pt h
  json_to_content_value-back _ _ h = absurd h

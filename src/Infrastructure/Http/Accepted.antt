-- ===== src/Infrastructure/Http/Accepted.antt =====
-- Which keys an accepted payload has
-- (infrastructure/src/api/dto.rs, domain/src/schema/validator.rs).
use luminair_service_aws_dsq.Base.{
  String, true, some, [], ◌≡◌, ◌∙◌, ◌⊎◌, refl, ap, arith, inl, inr, if-holds, if◌then◌else◌, ◌==◌,
  Option-cases, Result, ok, err, string_eq,
}
use luminair_service_aws_dsq.Base.Map
use luminair_service_aws_dsq.Base.IndexSet
use luminair_service_aws_dsq.Base.Fallible.{
  Yields, any_value, bind-Yields, Yields-ok, Yields-all, Yields-both,
}
use luminair_service_aws_dsq.Domain.Ids.{AttributeId}
use luminair_service_aws_dsq.Domain.Schema.{
  DocumentType, Relation, FieldDefinition, field_key, find_field, has_field,
}
use luminair_service_aws_dsq.Domain.Config.{SystemConfig}
use luminair_service_aws_dsq.Domain.Registry.{SchemaRegistry, find_relation_for_attr}
use luminair_service_aws_dsq.Domain.Values as Val
use luminair_service_aws_dsq.Domain.Instance.{DocumentContent}
use luminair_service_aws_dsq.Domain.Validator.{Crates, validate_content}
use luminair_service_aws_dsq.Domain.Validator.Correct.{Conforms, validate_content_iff}
use luminair_service_aws_dsq.Infrastructure.Json.{Json, Members, no_members, member}
use luminair_service_aws_dsq.Infrastructure.Http.Values.{Formats, parsed, json_to_content_value}
use luminair_service_aws_dsq.Infrastructure.Http.Payload.{
  ParsedPayload, is_metadata, parse_relation_action, add_attribute, add_entry, add_entries,
  parse_payload_from_json,
}

-- A parsed value is the parser's.
parsed-same :
    {A : Type 0} (template value : String) (r : Result String A)
    → Yields (λ a. r ≡ ok a) (parsed template value r)
parsed-same template value (ok a) = refl
parsed-same template value (err e) = tt

module _ (formats : Formats) (dt : DocumentType) (reg : SchemaRegistry) where
  -- The payload has a field for the attribute.
  abbrev HasValue : AttributeId → ParsedPayload → Type 0
  HasValue attr payload = (v : Val.ContentValue) × (Map.get payload.fields attr ≡ some v)

  insert-HasValue :
      (attr key : AttributeId) (v : Val.ContentValue) (payload : ParsedPayload)
      → HasValue attr payload
      → HasValue attr (record payload { fields = Map.insert payload.fields key v })
  insert-HasValue attr key v payload (w, found) =
      ((if attr == key then v else w), ground (arith, Map.get-insert payload.fields key attr v))

  add_attribute-HasValue :
      (attr key : AttributeId) (v : Json) (payload : ParsedPayload)
      → HasValue attr payload
      → Yields (HasValue attr) (add_attribute formats dt reg payload key v)
  unfolding add_attribute
  add_attribute-HasValue attr key v payload h = elim (Option-cases (find_field dt key)) [
    | inr (def, found) ↦
        rw (found, add_attribute)
          (any_value (HasValue attr) (json_to_content_value formats v def.field_type) _
            λ c. insert-HasValue attr key c payload h)
    | inl undeclared ↦ (elim (Option-cases (find_relation_for_attr reg dt.id key)) [
      | inr (rel, found) ↦
          rw (undeclared, found, add_attribute)
            (any_value (HasValue attr) (parse_relation_action formats v) _ λ action. h)
      | inl unknown ↦
          rw (undeclared, unknown, add_attribute) (insert-HasValue attr key Val.null payload h)
    ])
  ]

  add_entries-HasValue :
      (attr : AttributeId) (obj : Members) (payload : ParsedPayload)
      → HasValue attr payload
      → Yields (HasValue attr) (add_entries formats dt reg payload obj)
  unfolding add_entries add_entry
  add_entries-HasValue attr no_members payload h = h
  add_entries-HasValue attr (member k v rest) payload h =
      bind-Yields (HasValue attr) (HasValue attr) (add_entry formats dt reg payload k v) _
        (if-holds (Yields (HasValue attr)) (is_metadata k) (ok payload) _ (λ _. h)
          (λ _.
            any_value (HasValue attr) (parsed "" k (formats.attribute_id k)) _
              λ key. add_attribute-HasValue attr key v payload h))
        (λ grown. add_entries-HasValue attr rest grown)

  -- The key is metadata, or reads as a declared field or as a relation of the type.
  abbrev pub IsKnown : String → Type 0
  IsKnown k =
      (is_metadata k ≡ true)
      ⊎ ((attr : AttributeId) × (formats.attribute_id k ≡ ok attr)
          × ((has_field dt attr ≡ true)
              ⊎ ((rel : Relation) × (find_relation_for_attr reg dt.id attr ≡ some rel))))

  abbrev pub AreKnown : Members → Type 0
  AreKnown no_members = Unit
  AreKnown (member k _ rest) = IsKnown k × AreKnown rest

  -- No field of the payload is undeclared.
  abbrev AreDeclared : ParsedPayload → Type 0
  AreDeclared payload =
      (attr : AttributeId) (v : Val.ContentValue)
      → Map.get payload.fields attr ≡ some v
      → has_field dt attr ≡ true

  find_field-has :
      (attr : AttributeId) (def : FieldDefinition)
      → find_field dt attr ≡ some def
      → has_field dt attr ≡ true
  unfolding find_field has_field
  find_field-has attr def h = IndexSet.get-contains field_key dt.fields attr def h

  -- The attribute is a declared field or a relation of the type.
  abbrev IsAttribute : AttributeId → Type 0
  IsAttribute attr =
      (has_field dt attr ≡ true)
      ⊎ ((rel : Relation) × (find_relation_for_attr reg dt.id attr ≡ some rel))

  -- An attribute that is neither has a value afterwards.
  abbrev IsSeen : AttributeId → ParsedPayload → Type 0
  IsSeen attr payload = IsAttribute attr ⊎ HasValue attr payload

  add_attribute-IsSeen :
      (key : AttributeId) (v : Json) (payload : ParsedPayload)
      → Yields (IsSeen key) (add_attribute formats dt reg payload key v)
  unfolding add_attribute
  add_attribute-IsSeen key v payload = elim (Option-cases (find_field dt key)) [
    | inr (def, found) ↦
        rw (found, add_attribute)
          (any_value (IsSeen key) (json_to_content_value formats v def.field_type) _
            λ c. inl (inl (find_field-has key def found)))
    | inl undeclared ↦ (elim (Option-cases (find_relation_for_attr reg dt.id key)) [
      | inr (rel, found) ↦
          rw (undeclared, found, add_attribute)
            (any_value (IsSeen key) (parse_relation_action formats v) _
              λ action. inl (inr (rel, found)))
      | inl unknown ↦
          rw (undeclared, unknown, add_attribute)
            (inr (Val.null, Map.get-insert_self payload.fields key Val.null))
    ])
  ]

  AreDeclared-IsAttribute :
      (attr : AttributeId) (payload : ParsedPayload)
      → IsSeen attr payload
      → AreDeclared payload
      → IsAttribute attr
  AreDeclared-IsAttribute attr payload (inl known) _ = known
  AreDeclared-IsAttribute attr payload (inr (v, found)) declared = inl (declared attr v found)

  -- An attribute that is seen early stays seen.
  add_entries-IsSeen :
      (attr : AttributeId) (obj : Members) (payload : ParsedPayload)
      → IsSeen attr payload
      → Yields (IsSeen attr) (add_entries formats dt reg payload obj)
  add_entries-IsSeen attr obj payload (inl known) =
      Yields-all (IsSeen attr) (add_entries formats dt reg payload obj) (λ final _. inl known)
  add_entries-IsSeen attr obj payload (inr h) =
      Yields-both (HasValue attr) (HasValue attr) (IsSeen attr)
        (add_entries formats dt reg payload obj) (add_entries-HasValue attr obj payload h)
        (add_entries-HasValue attr obj payload h) (λ final hv _. inr hv)

  -- Once the entry is added, its key is known if the result's fields are declared.
  abbrev IsKnownIn : String → ParsedPayload → Type 0
  IsKnownIn k payload =
      (is_metadata k ≡ true)
      ⊎ ((attr : AttributeId) × (formats.attribute_id k ≡ ok attr) × IsSeen attr payload)

  add_entry-IsKnownIn :
      (k : String) (v : Json) (payload : ParsedPayload)
      → Yields (IsKnownIn k) (add_entry formats dt reg payload k v)
  unfolding add_entry
  add_entry-IsKnownIn k v payload =
      if-holds (Yields (IsKnownIn k)) (is_metadata k) (ok payload) _ (λ metadata. inl metadata)
        (λ _.
          bind-Yields (λ key. formats.attribute_id k ≡ ok key) (IsKnownIn k)
            (parsed "" k (formats.attribute_id k)) _ (parsed-same "" k (formats.attribute_id k))
            (λ key same.
              Yields-both (IsSeen key) (IsSeen key) (IsKnownIn k)
                (add_attribute formats dt reg payload key v) (add_attribute-IsSeen key v payload)
                (add_attribute-IsSeen key v payload) (λ grown seen _. inr (key, same, seen))))

  add_entries-IsKnownIn :
      (k : String) (obj : Members) (payload : ParsedPayload)
      → IsKnownIn k payload
      → Yields (IsKnownIn k) (add_entries formats dt reg payload obj)
  add_entries-IsKnownIn k obj payload (inl metadata) =
      Yields-all (IsKnownIn k) (add_entries formats dt reg payload obj) (λ final _. inl metadata)
  add_entries-IsKnownIn k obj payload (inr (attr, same, seen)) =
      Yields-both (IsSeen attr) (IsSeen attr) (IsKnownIn k) (add_entries formats dt reg payload obj)
        (add_entries-IsSeen attr obj payload seen) (add_entries-IsSeen attr obj payload seen)
        (λ final h _. inr (attr, same, h))

  abbrev AreKnownIn : Members → ParsedPayload → Type 0
  AreKnownIn no_members payload = Unit
  AreKnownIn (member k _ rest) payload = IsKnownIn k payload × AreKnownIn rest payload

  add_entries-AreKnownIn :
      (obj : Members) (payload : ParsedPayload)
      → Yields (AreKnownIn obj) (add_entries formats dt reg payload obj)
  unfolding add_entries
  add_entries-AreKnownIn no_members payload = tt
  add_entries-AreKnownIn (member k v rest) payload =
      bind-Yields (IsKnownIn k) (AreKnownIn (member k v rest))
        (add_entry formats dt reg payload k v) _ (add_entry-IsKnownIn k v payload)
        (λ grown known.
          Yields-both (IsKnownIn k) (AreKnownIn rest) (AreKnownIn (member k v rest))
            (add_entries formats dt reg grown rest) (add_entries-IsKnownIn k rest grown known)
            (add_entries-AreKnownIn rest grown) (λ final h hs. (h, hs)))

  AreKnownIn-AreKnown :
      (obj : Members) (payload : ParsedPayload)
      → AreDeclared payload
      → AreKnownIn obj payload
      → AreKnown obj
  AreKnownIn-AreKnown no_members payload declared _ = tt
  AreKnownIn-AreKnown (member k v rest) payload declared (inl metadata, hs) =
      (inl metadata, AreKnownIn-AreKnown rest payload declared hs)
  AreKnownIn-AreKnown (member k v rest) payload declared (inr (attr, same, seen), hs) = (
    inr (attr, same, AreDeclared-IsAttribute attr payload seen declared),
    AreKnownIn-AreKnown rest payload declared hs,
  )

-- Where an object is read as a payload and content with the payload's fields is valid for the type, each
-- key of the object is metadata, or it names a declared field or a relation of the type.
pub parse_payload_from_json-AreKnown :
    (formats : Formats) (crates : Crates) (config : SystemConfig) (dt : DocumentType)
    (reg : SchemaRegistry) (obj : Members) (payload : ParsedPayload) (content : DocumentContent)
    → parse_payload_from_json formats dt reg (Json.object obj) ≡ ok payload
    → content.fields ≡ payload.fields
    → validate_content crates config dt content ≡ ok tt
    → AreKnown formats dt reg obj
unfolding parse_payload_from_json
parse_payload_from_json-AreKnown formats crates config dt reg obj payload content parsed same
      valid =
    let conforms : Conforms crates config dt content =
      (validate_content_iff crates config dt content).0 valid in
    AreKnownIn-AreKnown formats dt reg obj payload
      (λ attr v found. conforms.declared attr v (ap (λ m. Map.get m attr) same ∙ found))
      (Yields-ok (AreKnownIn formats dt reg obj) _ payload
        (add_entries-AreKnownIn formats dt reg obj (record { fields = []; relations = [] })) parsed)

-- ===== src/Infrastructure/Http/Shown.antt =====
-- What a document's representation shows under each key (infrastructure/src/api/dto.rs).
use luminair_service_aws_dsq.Base.{
  String, Option, none, some, ◌∷◌, ◌==◌, string_eq, ◌≡◌, refl, arith, ap, ◌∙◌, [], if◌then◌else◌,
}
use luminair_service_aws_dsq.Base.Map.{HashMap}
use luminair_service_aws_dsq.Base.Map
use luminair_service_aws_dsq.Domain.Instance.{PopulatedInstance}
use luminair_service_aws_dsq.Infrastructure.Json.{
  Json, Members, no_members, member, insert_member, get_member,
}
use luminair_service_aws_dsq.Infrastructure.Http.Values.{
  Formats, insert_entries, content_value_to_json,
}
use luminair_service_aws_dsq.Infrastructure.Http.Documents.{
  metadata, add_fields, related_array, document_to_json,
}

get_member-insert_member :
    (members : Members) (j k : String) (v : Json)
    → get_member (insert_member members j v) k ≡ (if k == j then some v else get_member members k)
unfolding insert_member get_member
get_member-insert_member no_members j k v = refl
get_member-insert_member (member i w rest) j k v =
    ground (arith, get_member-insert_member rest j k v)

-- An entry's value as it is written, or else what was there.
abbrev pub written_or : {V : Type 0} → (V → Json) → Option V → Option Json → Option Json
written_or write none there = there
written_or write (some v) there = some (write v)

get_member-insert_entries :
    {V : Type 0} (formats : Formats) (write : V → Json) (there : Members) (m : HashMap String V)
    (k : String)
    → Map.HasDistinctKeys m
    → get_member (insert_entries formats write there m) k
      ≡ written_or write (Map.get m k) (get_member there k)
unfolding insert_entries Map.get
get_member-insert_entries formats write there [] k _ = refl
get_member-insert_entries formats write there ((j, v) ∷ m) k (alone, distinct) =
    get_member-insert_entries formats write (insert_member there j (write v)) m k distinct
    ∙ ap (written_or write (Map.get m k)) (get_member-insert_member there j k (write v))
    ∙ ground (arith, λ (same : k ≡ j). ap (Map.get m) same, alone)

-- What is shown under a key: related documents, or else the field's value, or else the metadata.
abbrev pub shown : Formats → PopulatedInstance → String → Option Json
shown formats inst k = written_or (related_array formats) (Map.get inst.populated_relations k) (
    written_or (content_value_to_json formats) (Map.get inst.instance_of.content.fields k)
      (get_member (metadata formats inst.instance_of) k))

-- Where its fields, and its populated relations, have distinct keys, a document's JSON is an object that
-- shows, under each key, the populated documents of the attribute with that name, or else the field's
-- value, or else the metadata of that name.
pub document_to_json-get_member :
    (formats : Formats) (inst : PopulatedInstance) (k : String)
    → Map.HasDistinctKeys inst.instance_of.content.fields
    → Map.HasDistinctKeys inst.populated_relations
    → (members : Members) × (document_to_json formats inst ≡ Json.object members)
      × (get_member members k ≡ shown formats inst k)
unfolding document_to_json
document_to_json-get_member formats inst k fields populated = (
  insert_entries formats (related_array formats)
      (add_fields formats (metadata formats inst.instance_of) inst.instance_of.content.fields)
      inst.populated_relations,
  refl,
  get_member-insert_entries formats (related_array formats) _ inst.populated_relations k populated
      ∙ ap (written_or (related_array formats) (Map.get inst.populated_relations k)) (
          get_member-insert_entries formats (content_value_to_json formats) _
            inst.instance_of.content.fields k fields),
)

-- ===== src/Infrastructure/Loader/Loaded.antt =====
-- What a loaded registry has (infrastructure/src/schema_loader/loader.rs).
use luminair_service_aws_dsq.Base.{
  String, true, ◌&&◌, Option, some, List, [], ◌∷◌, ◌≡◌, ◌==◌, refl, arith, All, All-append,
  if-holds, string_eq, Result, ok, err, map_err, ok_or, if◌then◌else◌,
}
use luminair_service_aws_dsq.Base.IndexSet
use luminair_service_aws_dsq.Base.IndexSet.{All-insert, append-HasDistinctKeys}
use luminair_service_aws_dsq.Base.Fallible.{
  Yields, any_value, bind-Yields, Yields-ok, Yields-all, map_err-Yields,
}
use luminair_service_aws_dsq.Domain.Ids.{Uuid}
use luminair_service_aws_dsq.Domain.Schema.{DocumentType, FieldDefinition, Relation, field_key}
use luminair_service_aws_dsq.Domain.Registry.{SchemaRegistry, type_key}
use luminair_service_aws_dsq.Domain.Registry
use luminair_service_aws_dsq.Domain.Config.{SystemConfig, contains_locale, new-contains_locale}
use luminair_service_aws_dsq.Domain.Config
use luminair_service_aws_dsq.Infrastructure.Json.{Numbers}
use luminair_service_aws_dsq.Infrastructure.Loader.Raw.{
  RawFieldDefinition, RawDocumentType, SchemaLoaderError, Context, attribute_on,
  invalid_attribute_id, invalid_document_type_id, inapplicable_constraint, type_text, json, io,
  RawSystemConfig, system_config, invalid_default_locale,
}
use luminair_service_aws_dsq.Infrastructure.Loader.Accepted.{
  AreAccepted, convert_raw_constraints-AreAccepted,
}
use luminair_service_aws_dsq.Infrastructure.Loader.Types.{
  Identifiers, check_reserved, check_stem, stem_or_memory, parse_raw_field_type, load_field,
  load_fields, convert_document_type, load_document_type_from_str,
}
use luminair_service_aws_dsq.Infrastructure.Loader.Relations.{
  load_system_config_from_str, read_locales, config_id,
}
use luminair_service_aws_dsq.Infrastructure.Loader.Directory.{
  Files, push_type, check_endpoints, load_type_entry, load_type_entries, load_types, load_config,
  load_relations, default_config, load_schema_registry,
}

-- A field's constraints apply to its type, and none is there twice.
abbrev pub IsSound : FieldDefinition → Type 0
IsSound f = AreAccepted f.field_type f.constraints

-- The fields of a type are sound.
abbrev pub HasSoundFields : DocumentType → Type 0
HasSoundFields dt = All IsSound dt.fields

module _ (numbers : Numbers) (ids : Identifiers) where
  load_field-Yields :
      (singular attr : String) (raw : RawFieldDefinition)
      → Yields IsSound (load_field numbers ids singular attr raw)
  unfolding load_field
  load_field-Yields singular attr raw =
      any_value IsSound (ok_or (invalid_attribute_id attr) (ids.attribute_id attr)) _ λ attr_id.
        any_value IsSound (check_reserved attr (attribute_on singular)) _ λ _.
          any_value IsSound
            (map_err (inapplicable_constraint attr type_text) (parse_raw_field_type raw.field_type))
            _
            λ field_type.
              bind-Yields (AreAccepted field_type) IsSound _ _
                (Yields-all (AreAccepted field_type) _
                  (convert_raw_constraints-AreAccepted numbers raw.constraints field_type attr))
                (λ constraints h. h)

  load_fields-Yields :
      (singular : String) (attributes : List (String × RawFieldDefinition))
      (fields : List FieldDefinition)
      → All IsSound fields
      → Yields (All IsSound) (load_fields numbers ids singular fields attributes)
  unfolding load_fields
  load_fields-Yields singular [] fields h = h
  load_fields-Yields singular ((attr, raw) ∷ rest) fields h =
      bind-Yields IsSound (All IsSound) _ _ (load_field-Yields singular attr raw) λ def sound.
        load_fields-Yields singular rest _ (All-insert field_key IsSound fields def h sound)

  load_document_type-Yields :
      (parse : String → Result String RawDocumentType) (content : String) (stem : Option String)
      → Yields HasSoundFields (load_document_type_from_str numbers ids parse content stem)
  unfolding load_document_type_from_str convert_document_type
  load_document_type-Yields parse content stem =
      any_value HasSoundFields (map_err (json (stem_or_memory stem)) (parse content)) _ λ raw.
        let name = raw.info.singular_name in
        any_value HasSoundFields (check_stem stem name) _ λ _.
          any_value HasSoundFields
            (ok_or (invalid_document_type_id name) (ids.document_type_id name)) _
            λ type_id. any_value HasSoundFields (check_reserved name Context.singular_name) _ λ _.
              any_value HasSoundFields (check_reserved raw.info.plural_name Context.plural_name) _
                λ _.
                  bind-Yields (All IsSound) HasSoundFields _ _
                    (load_fields-Yields raw.info.singular_name raw.attributes [] tt) (λ fields h. h)

-- What the walk keeps of the types that it has read.
abbrev AreLoaded : List DocumentType → Type 0
AreLoaded types = IndexSet.HasDistinctKeys type_key types × All HasSoundFields types

push_type-Yields :
    (types : List DocumentType) (dt : DocumentType)
    → AreLoaded types
    → HasSoundFields dt
    → Yields AreLoaded (push_type types dt)
unfolding push_type
push_type-Yields types dt (distinct, sound) h =
    if-holds (Yields AreLoaded) (IndexSet.contains type_key types dt.id) _ _ (λ _. tt)
      (λ fresh. (
        append-HasDistinctKeys type_key types dt distinct fresh,
        All-append HasSoundFields types (dt ∷ []) sound (h, tt),
      ))

-- Both ends of a relation are among the types.
abbrev pub HasEnds : List DocumentType → Relation → Type 0
HasEnds types r =
    (IndexSet.contains type_key types r.owner_type ≡ true)
    × (IndexSet.contains type_key types r.target_type ≡ true)

check_endpoints-Yields :
    (types : List DocumentType) (relations : List Relation)
    → Yields (λ _. All (HasEnds types) relations) (check_endpoints types relations)
unfolding check_endpoints
check_endpoints-Yields types [] = tt
check_endpoints-Yields types (r ∷ relations) =
    if-holds (Yields (λ _. All (HasEnds types) (r ∷ relations)))
      (IndexSet.contains type_key types r.owner_type) _ _
      (λ owner.
        if-holds (Yields (λ _. All (HasEnds types) (r ∷ relations)))
          (IndexSet.contains type_key types r.target_type) _ _
          (λ target.
            widen (check_endpoints types relations) (owner, target)
              (check_endpoints-Yields types relations))
          (λ _. tt))
      (λ _. tt)
  where
    widen :
        (checked : Result SchemaLoaderError (Unit {0}))
        → HasEnds types r
        → Yields (λ _. All (HasEnds types) relations) checked
        → Yields (λ _. All (HasEnds types) (r ∷ relations)) checked
    widen (ok _) ends h = (ends, h)
    widen (err _) ends h = tt

module _ (files : Files) (numbers : Numbers) (ids : Identifiers) where
  load_type_entry-Yields :
      (dir : String) (types : List DocumentType) (entry : Result String String)
      → AreLoaded types
      → Yields AreLoaded (load_type_entry files numbers ids dir types entry)
  unfolding load_type_entry
  load_type_entry-Yields dir types entry h = any_value AreLoaded (map_err (io dir) entry) _ λ path.
      if-holds (Yields AreLoaded) (files.is_file path && files.is_json path) _ _
        (λ _.
          if-holds (Yields AreLoaded) (files.file_name path == "system-config.json") _ _ (λ _. h)
            (λ _. any_value AreLoaded (map_err (io path) (files.read_to_string path)) _ λ content.
              bind-Yields HasSoundFields AreLoaded
                (load_document_type_from_str numbers ids files.document_type_from_str content
                  (some (files.file_stem path)))
                _
                (load_document_type-Yields numbers ids files.document_type_from_str content
                  (some (files.file_stem path)))
                (λ dt sound. push_type-Yields types dt h sound)))
        (λ _. h)

  load_type_entries-Yields :
      (dir : String) (entries : List (Result String String)) (types : List DocumentType)
      → AreLoaded types
      → Yields AreLoaded (load_type_entries files numbers ids dir types entries)
  unfolding load_type_entries
  load_type_entries-Yields dir [] types h = h
  load_type_entries-Yields dir (entry ∷ entries) types h =
      bind-Yields AreLoaded AreLoaded (load_type_entry files numbers ids dir types entry) _
        (load_type_entry-Yields dir types entry h) (load_type_entries-Yields dir entries)

  load_types-Yields : (base : String) → Yields AreLoaded (load_types files numbers ids base)
  unfolding load_types
  load_types-Yields base =
      let types_dir = files.join base "document-types" in
      let dir = if files.is_dir types_dir then types_dir else base in
      if-holds (Yields AreLoaded) (files.is_dir dir) _ (ok [])
        (λ _.
          any_value AreLoaded (map_err (io dir) (files.read_dir dir)) _
            λ entries. load_type_entries-Yields dir entries [] (tt, tt))
        (λ _. (tt, tt))

-- The configuration's default locale is one of its locales.
abbrev HasDefault : SystemConfig → Type 0
HasDefault config = contains_locale config config.default_locale ≡ true

default_config-HasDefault : (fresh : Uuid) → HasDefault (default_config fresh)
unfolding contains_locale
default_config-HasDefault fresh = ground arith

load_system_config-Yields :
    (ids : Identifiers) (parse : String → Result String RawSystemConfig) (fresh : Uuid)
    (content name : String)
    → Yields HasDefault (load_system_config_from_str ids parse fresh content name)
unfolding load_system_config_from_str
load_system_config-Yields ids parse fresh content name =
    any_value HasDefault (map_err (json name) (parse content)) _ λ raw.
      any_value HasDefault (read_locales ids raw.locales) _ λ locales.
        any_value HasDefault
          (ok_or (system_config (invalid_default_locale raw.default_locale))
            (ids.locale_id raw.default_locale))
          _
          λ default_locale.
            map_err-Yields HasDefault _ (Config.new (config_id raw.id fresh) locales default_locale)
              (Yields-all HasDefault _
                (new-contains_locale (config_id raw.id fresh) locales default_locale))

load_config-Yields :
    (files : Files) (ids : Identifiers) (numbers : Numbers) (base : String) (fresh : Uuid)
    → Yields HasDefault (load_config files numbers ids base fresh)
unfolding load_config
load_config-Yields files ids numbers base fresh =
    let path = files.join base "system-config.json" in
    if-holds (Yields HasDefault) (files.is_file path) _ (ok (default_config fresh))
      (λ _. any_value HasDefault (map_err (io path) (files.read_to_string path)) _ λ content.
        load_system_config-Yields ids files.system_config_from_str fresh content
          "system-config.json")
      (λ _. default_config-HasDefault fresh)

-- What the registry and the configuration that are loaded have.
pub record IsLoaded (loaded : SchemaRegistry × SystemConfig) : Type 0 where
  pub types : List DocumentType
  pub relations : List Relation
  pub built : loaded.0 ≡ Registry.new types relations
  pub distinct : IndexSet.HasDistinctKeys type_key types
  pub sound : All HasSoundFields types
  pub ends : All (HasEnds types) relations
  pub default_locale : HasDefault loaded.1

-- A schema directory that loads gives a registry of document types with distinct identifiers, whose
-- fields' constraints apply to the fields' types, and of relations between those types, with a
-- configuration that supports its default locale.
pub load_schema_registry-IsLoaded :
    (files : Files) (numbers : Numbers) (ids : Identifiers) (base : String) (fresh : Uuid)
    (loaded : SchemaRegistry × SystemConfig)
    → load_schema_registry files numbers ids base fresh ≡ ok loaded
    → IsLoaded loaded
unfolding load_schema_registry
load_schema_registry-IsLoaded files numbers ids base fresh loaded = Yields-ok IsLoaded _ loaded (
    bind-Yields AreLoaded IsLoaded (load_types files numbers ids base) _
      (load_types-Yields files numbers ids base)
      λ types (distinct, sound).
        any_value IsLoaded (load_relations files numbers ids base) _ λ relations.
          bind-Yields (λ _. All (HasEnds types) relations) IsLoaded
            (check_endpoints types relations) _ (check_endpoints-Yields types relations)
            λ _ ends.
              bind-Yields HasDefault IsLoaded (load_config files numbers ids base fresh) _
                (load_config-Yields files ids numbers base fresh)
                λ config default_locale. record {
                  types = types;
                  relations = relations;
                  built = refl;
                  distinct = distinct;
                  sound = sound;
                  ends = ends;
                  default_locale = default_locale;
                })

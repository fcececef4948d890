-- ===== src/Infrastructure/Loader/Relations.antt =====
-- Relations and the system configuration (infrastructure/src/schema_loader/loader.rs).
use Prim.Native.String.{◌++◌}
use luminair_service_aws_dsq.Base.{
  String, not, ◌&&◌, Option, none, some, List, ◌==◌, string_eq, Result, ok, map_err, ok_or,
  if◌then◌else◌,
}
use luminair_service_aws_dsq.Base.Text.{starts_with}
use luminair_service_aws_dsq.Base.Fallible.{◌>>=◌}
use luminair_service_aws_dsq.Domain.Ids.{Uuid, AttributeId, DocumentTypeId, LocaleId}
use luminair_service_aws_dsq.Domain.Schema.{OwnerRelationKind, Relation, RelationInverse}
use luminair_service_aws_dsq.Domain.Config.{SystemConfig}
use luminair_service_aws_dsq.Domain.Config
use luminair_service_aws_dsq.Infrastructure.Loader.Raw.{
  RawOwnerRelationKind, RawRelation, RawRelationInverse, RawSystemConfig, SchemaLoaderError, json,
  invalid_document_type_id, invalid_attribute_id, invalid_relation_id, system_config,
  invalid_locale, invalid_default_locale, refused,
}
use luminair_service_aws_dsq.Infrastructure.Loader.Types.{Identifiers}

abbrev owner_relation_kind : RawOwnerRelationKind → OwnerRelationKind
owner_relation_kind RawOwnerRelationKind.has_one = OwnerRelationKind.has_one
owner_relation_kind RawOwnerRelationKind.has_many = OwnerRelationKind.has_many

-- The text that names a relation: its id, its name, the file's stem, or the owner and its attribute.
-- `file_stem` is what `Path::new(file_name).file_stem()` gives as a text, and nothing otherwise.
abbrev pub relation_name : RawRelation → Option String → DocumentTypeId → AttributeId → String
relation_name raw file_stem owner_type owner_attr = elim raw.id [
  | some id ↦ id
  | none ↦ elim raw.name [
    | some name ↦ name
    | none ↦
        let derived = owner_type ++ ("-" ++ owner_attr) in
        let stem : String = elim file_stem [ none ↦ "" | some s ↦ s ] in
        if not (stem == "") && (not (stem == "<in-memory>") && not (starts_with stem "<"))
        then stem
        else derived
  ]
]

abbrev pub config_id : Option Uuid → Uuid → Uuid
config_id none fresh = fresh
config_id (some id) fresh = id

module _ (ids : Identifiers) where
  abbrev read_inverse :
      Option RawRelationInverse → Result SchemaLoaderError (Option RelationInverse)
  read_inverse none = ok none
  read_inverse (some inv) =
      ok_or (invalid_attribute_id inv.inverse_attr) (ids.attribute_id inv.inverse_attr)
      >>= λ inv_attr. ok (some (record { inverse_attr = inv_attr }))

  unfoldable pub convert_relation : RawRelation → Option String → Result SchemaLoaderError Relation
  convert_relation raw file_stem =
      ok_or (invalid_document_type_id raw.owner_type) (ids.document_type_id raw.owner_type)
      >>= λ owner_type.
          ok_or (invalid_document_type_id raw.target_type) (ids.document_type_id raw.target_type)
          >>= λ target_type.
              ok_or (invalid_attribute_id raw.owner_attr) (ids.attribute_id raw.owner_attr)
              >>= λ owner_attr. read_inverse raw.inverse >>= λ inverse.
                  let id_str = relation_name raw file_stem owner_type owner_attr in
                  ok_or (invalid_relation_id id_str) (ids.relation_id id_str) >>= λ id. ok (record {
                    id = id;
                    owner_type = owner_type;
                    owner_attr = owner_attr;
                    owner_kind = owner_relation_kind raw.owner_kind;
                    target_type = target_type;
                    inverse = inverse;
                  })

  unfoldable pub load_relation_from_str :
      (String → Result String RawRelation)
      → String
      → (file_name : String) → Option String
      → Result SchemaLoaderError Relation
  load_relation_from_str from_str content file_name file_stem =
      map_err (json file_name) (from_str content) >>= λ raw. convert_relation raw file_stem

  unfoldable pub read_locales : List String → Result SchemaLoaderError (List LocaleId)
  read_locales List.[] = ok List.[]
  read_locales (List.◌∷◌ loc_str rest) =
      ok_or (system_config (invalid_locale loc_str)) (ids.locale_id loc_str) >>= λ loc.
      read_locales rest >>= λ locales. ok (List.◌∷◌ loc locales)

  -- `fresh` is the identifier that `Uuid::now_v7` would make.
  unfoldable pub load_system_config_from_str :
      (String → Result String RawSystemConfig)
      → Uuid
      → String
      → String
      → Result SchemaLoaderError SystemConfig
  load_system_config_from_str from_str fresh content file_name =
      map_err (json file_name) (from_str content) >>= λ raw. read_locales raw.locales >>= λ locales.
      ok_or (system_config (invalid_default_locale raw.default_locale))
        (ids.locale_id raw.default_locale)
      >>= λ default_locale.
          map_err (λ failure. system_config (refused failure))
            (Config.new (config_id raw.id fresh) locales default_locale)

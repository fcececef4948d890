-- ===== src/Infrastructure/Loader/Directory.antt =====
-- The walk over the schema directory (infrastructure/src/schema_loader/loader.rs).
use luminair_service_aws_dsq.Base.{
  String, Bool, ◌&&◌, Option, some, List, [], ◌∷◌, ◌++◌, ◌==◌, string_eq, Result, ok, err, map_err,
  if◌then◌else◌,
}
use luminair_service_aws_dsq.Base.IndexSet
use luminair_service_aws_dsq.Base.Fallible.{◌>>=◌}
use luminair_service_aws_dsq.Domain.Ids.{Uuid}
use luminair_service_aws_dsq.Domain.Schema.{DocumentType, Relation}
use luminair_service_aws_dsq.Domain.Registry.{SchemaRegistry, type_key}
use luminair_service_aws_dsq.Domain.Registry
use luminair_service_aws_dsq.Domain.Config.{SystemConfig}
use luminair_service_aws_dsq.Infrastructure.Json.{Numbers}
use luminair_service_aws_dsq.Infrastructure.Loader.Raw.{
  RawDocumentType, RawRelation, RawSystemConfig, SchemaLoaderError, io, duplicate_document_type,
  unknown_relation_owner, unknown_relation_target,
}
use luminair_service_aws_dsq.Infrastructure.Loader.Types.{Identifiers, load_document_type_from_str}
use luminair_service_aws_dsq.Infrastructure.Loader.Relations.{
  load_relation_from_str, load_system_config_from_str,
}

abbrev FilePath : Type 0
FilePath = String

-- What `std::fs` and `std::path` answer while the directory is read, and `serde_json::from_str`.
pub record Files : Type 0 where
  pub is_dir : FilePath → Bool
  pub is_file : FilePath → Bool
  pub read_dir : FilePath → Result String (List (Result String FilePath))
  pub read_to_string : FilePath → Result String String
  pub join : FilePath → String → FilePath
  -- `path.extension() == "json"`
  pub is_json : FilePath → Bool
  pub file_name : FilePath → String
  pub file_stem : FilePath → String
  -- `FilePath::new(name).file_stem()` as a text
  pub stem_of_name : String → Option String
  pub document_type_from_str : String → Result String RawDocumentType
  pub relation_from_str : String → Result String RawRelation
  pub system_config_from_str : String → Result String RawSystemConfig

-- The check for a duplicate, and `push`.
unfoldable pub push_type :
    List DocumentType → DocumentType → Result SchemaLoaderError (List DocumentType)
push_type doc_types dt =
    if IndexSet.contains type_key doc_types dt.id
    then err (duplicate_document_type dt.id)
    else ok (doc_types ++ dt ∷ [])

unfoldable pub check_endpoints :
    List DocumentType → List Relation → Result SchemaLoaderError (Unit {0})
check_endpoints doc_types [] = ok tt
check_endpoints doc_types (rel ∷ relations) =
    let rest = check_endpoints doc_types relations in
    if IndexSet.contains type_key doc_types rel.owner_type
    then if IndexSet.contains type_key doc_types rel.target_type
      then rest
      else err (unknown_relation_target rel.target_type)
    else err (unknown_relation_owner rel.owner_type)

-- The configuration where there is no file: `"en"` is a locale, so that neither `unwrap` panics.
abbrev pub default_config : Uuid → SystemConfig
default_config fresh = record { id = fresh; available_locales = "en" ∷ []; default_locale = "en" }

module _ (files : Files) (numbers : Numbers) (ids : Identifiers) where
  -- One pass of the loop over the entries of the types' directory.
  unfoldable pub load_type_entry :
      FilePath
      → List DocumentType
      → Result String FilePath
      → Result SchemaLoaderError (List DocumentType)
  load_type_entry search_dir doc_types entry = map_err (io search_dir) entry >>= λ path.
      if files.is_file path && files.is_json path
      then if files.file_name path == "system-config.json"
        then ok doc_types
        else (map_err (io path) (files.read_to_string path) >>= λ content.
            load_document_type_from_str numbers ids files.document_type_from_str content
              (some (files.file_stem path))
            >>= λ dt. push_type doc_types dt)
      else ok doc_types

  unfoldable pub load_type_entries :
      FilePath
      → List DocumentType
      → List (Result String FilePath)
      → Result SchemaLoaderError (List DocumentType)
  load_type_entries search_dir doc_types [] = ok doc_types
  load_type_entries search_dir doc_types (entry ∷ entries) =
      load_type_entry search_dir doc_types entry >>= λ loaded.
      load_type_entries search_dir loaded entries

  unfoldable pub load_types : FilePath → Result SchemaLoaderError (List DocumentType)
  load_types base_dir =
      let doc_types_dir = files.join base_dir "document-types" in
      let search_dir = if files.is_dir doc_types_dir then doc_types_dir else base_dir in
      if files.is_dir search_dir
      then (map_err (io search_dir) (files.read_dir search_dir) >>= λ entries.
          load_type_entries search_dir [] entries)
      else ok []

  unfoldable pub load_relation_entry :
      FilePath → List Relation → Result String FilePath → Result SchemaLoaderError (List Relation)
  load_relation_entry relations_dir relations entry = map_err (io relations_dir) entry >>= λ path.
      if files.is_file path && files.is_json path
      then (map_err (io path) (files.read_to_string path) >>= λ content.
          let file_name = files.file_name path in
          load_relation_from_str ids files.relation_from_str content file_name
            (files.stem_of_name file_name)
          >>= λ rel. ok (relations ++ rel ∷ []))
      else ok relations

  unfoldable pub load_relation_entries :
      FilePath
      → List Relation
      → List (Result String FilePath)
      → Result SchemaLoaderError (List Relation)
  load_relation_entries relations_dir relations [] = ok relations
  load_relation_entries relations_dir relations (entry ∷ entries) =
      load_relation_entry relations_dir relations entry >>= λ loaded.
      load_relation_entries relations_dir loaded entries

  unfoldable pub load_relations : FilePath → Result SchemaLoaderError (List Relation)
  load_relations base_dir =
      let relations_dir = files.join base_dir "relations" in
      if files.is_dir relations_dir
      then (map_err (io relations_dir) (files.read_dir relations_dir) >>= λ entries.
          load_relation_entries relations_dir [] entries)
      else ok []

  -- `fresh` is the identifier that `Uuid::now_v7` would make.
  unfoldable pub load_config : FilePath → Uuid → Result SchemaLoaderError SystemConfig
  load_config base_dir fresh =
      let config_path = files.join base_dir "system-config.json" in
      if files.is_file config_path
      then (map_err (io config_path) (files.read_to_string config_path) >>= λ content.
          load_system_config_from_str ids files.system_config_from_str fresh content
            "system-config.json")
      else ok (default_config fresh)

  unfoldable pub load_schema_registry :
      FilePath → Uuid → Result SchemaLoaderError (SchemaRegistry × SystemConfig)
  load_schema_registry base_dir fresh = load_types base_dir >>= λ doc_types.
      load_relations base_dir >>= λ relations. check_endpoints doc_types relations >>= λ _.
      load_config base_dir fresh >>= λ system_config.
      ok (Registry.new doc_types relations, system_config)

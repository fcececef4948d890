-- ===== src/Infrastructure/Naming/Columns.antt =====
-- The columns that the system adds to a table (infrastructure/src/persistence/naming/columns.rs).
use luminair_service_aws_dsq.Base.{String, List, [], ◌∷◌}

pub data BaseSystemColumn : Type 0 where
  id version owner_id publication_state created_at updated_at singleton : BaseSystemColumn

pub data PublishedSystemColumn : Type 0 where
  id published_version owner_id created_at updated_at : PublishedSystemColumn
  published_at published_by singleton : PublishedSystemColumn

pub data LinkColumn : Type 0 where
  owner_id target_id : LinkColumn

abbrev base_all : List BaseSystemColumn
base_all =
    BaseSystemColumn.id ∷ version ∷ BaseSystemColumn.owner_id ∷ publication_state
    ∷ BaseSystemColumn.created_at ∷ BaseSystemColumn.updated_at ∷ BaseSystemColumn.singleton ∷ []

abbrev published_all : List PublishedSystemColumn
published_all =
    PublishedSystemColumn.id ∷ published_version ∷ PublishedSystemColumn.owner_id
    ∷ PublishedSystemColumn.created_at ∷ PublishedSystemColumn.updated_at ∷ published_at
    ∷ published_by ∷ PublishedSystemColumn.singleton ∷ []

abbrev link_all : List LinkColumn
link_all = LinkColumn.owner_id ∷ target_id ∷ []

abbrev base_as_str : BaseSystemColumn → String
base_as_str BaseSystemColumn.id = "id"
base_as_str version = "version"
base_as_str BaseSystemColumn.owner_id = "owner_id"
base_as_str publication_state = "publication_state"
base_as_str BaseSystemColumn.created_at = "created_at"
base_as_str BaseSystemColumn.updated_at = "updated_at"
base_as_str BaseSystemColumn.singleton = "_singleton"

abbrev published_as_str : PublishedSystemColumn → String
published_as_str PublishedSystemColumn.id = "id"
published_as_str published_version = "published_version"
published_as_str PublishedSystemColumn.owner_id = "owner_id"
published_as_str PublishedSystemColumn.created_at = "created_at"
published_as_str PublishedSystemColumn.updated_at = "updated_at"
published_as_str published_at = "published_at"
published_as_str published_by = "published_by"
published_as_str PublishedSystemColumn.singleton = "_singleton"

abbrev link_as_str : LinkColumn → String
link_as_str LinkColumn.owner_id = "owner_id"
link_as_str target_id = "target_id"

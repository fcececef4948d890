-- ===== src/Infrastructure/Naming/Sanitize.antt =====
-- Identifiers that the database accepts
-- (infrastructure/src/persistence/naming/sanitize.rs).
use luminair_service_aws_dsq.Base.{String, Bool, List, [], ◌∷◌, contains, string_eq}
use luminair_service_aws_dsq.Base.Text.{to_ascii_lowercase, replace}

abbrev reserved_sql_keywords : List String
reserved_sql_keywords =
    "all" ∷ "alter" ∷ "and" ∷ "as" ∷ "asc" ∷ "begin" ∷ "by" ∷ "case" ∷ "check" ∷ "column" ∷ "commit"
    ∷ "constraint" ∷ "create" ∷ "cross" ∷ "current_date" ∷ "current_time" ∷ "current_timestamp"
    ∷ "default" ∷ "delete" ∷ "desc" ∷ "distinct" ∷ "do" ∷ "drop" ∷ "else" ∷ "end" ∷ "except"
    ∷ "exists" ∷ "false" ∷ "fetch" ∷ "for" ∷ "foreign" ∷ "from" ∷ "full" ∷ "grant" ∷ "group"
    ∷ "having" ∷ "ilike" ∷ "in" ∷ "index" ∷ "inner" ∷ "insert" ∷ "intersect" ∷ "into" ∷ "is"
    ∷ "join" ∷ "left" ∷ "like" ∷ "limit" ∷ "natural" ∷ "not" ∷ "null" ∷ "offset" ∷ "on" ∷ "or"
    ∷ "order" ∷ "outer" ∷ "primary" ∷ "references" ∷ "revoke" ∷ "right" ∷ "rollback" ∷ "select"
    ∷ "table" ∷ "then" ∷ "to" ∷ "true" ∷ "union" ∷ "unique" ∷ "update" ∷ "user" ∷ "values" ∷ "when"
    ∷ "where" ∷ "with" ∷ []

unfoldable pub is_reserved_sql_keyword : String → Bool
is_reserved_sql_keyword name = contains reserved_sql_keywords (to_ascii_lowercase name)

unfoldable pub kebab_to_snake : String → String
kebab_to_snake s = replace "-" "_" s

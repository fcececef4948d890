-- ===== src/Infrastructure/Loader.antt =====
-- The loader of the schema directory (infrastructure/src/schema_loader/loader.rs): the raw data, the
-- conversion of constraints, of types and relations, the walk over the directory, and what a loaded
-- registry has.
pub mod Raw
pub mod Constraints
pub mod Accepted
pub mod Types
pub mod Relations
pub mod Directory
pub mod Loaded

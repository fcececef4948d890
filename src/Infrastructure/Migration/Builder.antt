-- ===== src/Infrastructure/Migration/Builder.antt =====
-- The schema that the registry asks for
-- (infrastructure/src/persistence/migration/dynamic/builder.rs): columns, the tables of one document
-- type, the loops over all types, and what they yield.
pub mod Columns
pub mod Tables
pub mod Schema
pub mod Frame
pub mod Lookup
pub mod References
pub mod Gathering
pub mod Closed
pub mod Resolved
pub mod Fields

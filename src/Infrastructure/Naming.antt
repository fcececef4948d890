-- ===== src/Infrastructure/Naming.antt =====
-- The names of tables, columns, indexes and constraints (infrastructure/src/persistence/naming):
-- what the database accepts, the providers for the tables of a document type and for its link
-- tables, the functions of the module itself, and the columns that the system adds.
pub mod Sanitize
pub mod Tables
pub mod Links
pub mod Names
pub mod Columns
pub mod Distinct

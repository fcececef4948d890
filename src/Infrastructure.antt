-- ===== src/Infrastructure.antt =====
-- The infrastructure crate (infrastructure/src): schema migration.
pub mod Auth
pub mod Codec
pub mod Http
pub mod Json
pub mod Loader
pub mod Naming
pub mod Migration
pub mod Startup

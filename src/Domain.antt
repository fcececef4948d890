-- ===== src/Domain.antt =====
-- The domain crate (domain/src): identifiers, schema, content, authorisation.
pub mod Ids
pub mod Schema
pub mod Status
pub mod Errors
pub mod Values
pub mod Instance
pub mod Auth
pub mod AccessRequest
pub mod Config
pub mod Registry
pub mod Validator

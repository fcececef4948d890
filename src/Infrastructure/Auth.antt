-- ===== src/Infrastructure/Auth.antt =====
-- Authentication (infrastructure/src/auth): claims, the resolution of a caller and the bootstrap of the
-- first administrator, over any repositories that share a store.
pub mod Claims
pub mod Resolver
pub mod Bootstrap
pub mod Granted
pub mod Idempotent

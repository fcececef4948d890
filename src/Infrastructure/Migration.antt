-- ===== src/Infrastructure/Migration.antt =====
-- Dynamic schema migration (infrastructure/src/persistence/migration/dynamic).
pub mod Model
pub mod Builder
pub mod Diff
pub mod Planner

-- ===== src/Tests.antt =====
-- Examples: a small schema, stores held in lists, and each theorem at a concrete input.
pub mod Fixtures
pub mod DomainExamples
pub mod ReadExamples
pub mod ReviewExamples
pub mod ServiceExamples
pub mod MigrationExamples
pub mod LoaderExamples
pub mod HttpExamples
pub mod AuthExamples

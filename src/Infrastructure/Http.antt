-- ===== src/Infrastructure/Http.antt =====
-- The HTTP interface (infrastructure/src/api): errors and their responses, values to and from JSON,
-- relation actions and payloads.
pub mod Errors
pub mod Faults
pub mod Values
pub mod Entries
pub mod RoundTrip
pub mod Documents
pub mod Shown
pub mod Payload
pub mod Accepted

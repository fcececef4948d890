-- ===== src/Application.antt =====
-- The application crate (application/src): caller context, commands, and the two services.
pub mod Errors
pub mod Context
pub mod Commands
pub mod Ports
pub mod Effects
pub mod Relations
pub mod Enrich
pub mod Documents
pub mod AccessRequests
pub mod SystemConfig

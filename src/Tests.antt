-- ===== src/Tests.antt =====
-- The theorems at concrete inputs.
pub mod Chat
pub mod Settings
pub mod Storage
pub mod Commands
pub mod Routing
pub mod Management
pub mod Connecting
pub mod Videos
pub mod Transcripts
pub mod Sessions
pub mod Clients
pub mod Tokens
pub mod Wiring

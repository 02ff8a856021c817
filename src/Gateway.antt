-- ===== src/Gateway.antt =====
-- internal/gateway/adapter.go: chat over the OpenClaw gateway's websocket.
pub mod Texts
pub mod Values
pub mod Events
pub mod Attachments
pub mod Images
pub mod Collect
pub mod Transcript
pub mod Uploads
pub mod UploadCalls
pub mod Session
pub mod Stale

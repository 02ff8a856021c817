-- ===== src/Video.antt =====
-- internal/video: prompt_parser.go, types.go and service.go. The MiniMax client, the download and
-- the upload are arguments, as are the environment and the clock.
mod Words
mod Runtime
mod Task
mod Generate
mod Table
pub mod MiniMax
pub mod Polling
pub mod Replies
pub mod Settings
pub mod Once
unfoldable pub use Words.*
unfoldable pub use Runtime.*
unfoldable pub use Task.*
unfoldable pub use Generate.*
unfoldable pub use Table.*

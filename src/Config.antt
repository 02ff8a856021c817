-- ===== src/Config.antt =====
-- internal/config/config.go: the daemon's configuration.
mod Types
mod Default
mod Paths
mod Normalize
mod Env
pub mod Laws
unfoldable pub use Types.*
unfoldable pub use Default.*
unfoldable pub use Paths.*
unfoldable pub use Normalize.*
unfoldable pub use Env.*

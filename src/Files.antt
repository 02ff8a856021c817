-- ===== src/Files.antt =====
-- The files that the daemon keeps, and `writeAtomically` of internal/store/state_store.go, which
-- internal/config/config.go and internal/manager/config_manager.go repeat behind `os.MkdirAll`.
-- What the operating system answers to each call is an argument.
mod Table
mod Atomic
pub mod Laws
unfoldable pub use Table.*
unfoldable pub use Atomic.*

-- ===== src/Text.antt =====
-- Go's `strings` package, as far as the daemon calls it, over the bytes of a text.
mod Basic
mod Space
mod Case
mod Parts
unfoldable pub use Basic.*
unfoldable pub use Space.*
unfoldable pub use Case.*
unfoldable pub use Parts.*

-- ===== src/Gateway/Collect.antt =====
-- `collectChatReplies` and `Chat`. The frames that the connection delivers are a list; what the loop
-- asks of the transcript, of the uploads and of the standard library stands in `Services`. A frame
-- is given as its decoded fields; one whose JSON does not decode is `garbled`. Log lines are left
-- out, and with them `lastMatchedEvent`, which only they use.
mod State
mod Notes
mod Finish
mod Loop
pub mod Numbering
pub mod Closing
pub mod Assembly
pub mod Losses
unfoldable pub use State.*
unfoldable pub use Notes.*
unfoldable pub use Finish.*
unfoldable pub use Loop.*

-- ===== src/Gateway/Session.antt =====
-- A session with the OpenClaw gateway: the device's token and identity, the handshake, the
-- requests, and `Chat` over all of it. The frames that the connection delivers are a list, behind
-- which every read fails: each read has a deadline, and a connection whose read has failed stays
-- failed. `encoding/json` and the primitives of package crypto are records of functions.
pub mod Tokens
pub mod Crypto
pub mod Wire
pub mod Messages
pub mod Requests
pub mod Chat
pub mod Responses
pub mod Triples
pub mod Rules
pub mod Keys
pub mod Keeping
pub mod Stored
pub mod Passed
pub mod Granted
pub mod Asked
pub mod Answers
pub mod Returns

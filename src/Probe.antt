-- ===== src/Probe.antt =====
-- cmd/wsprobe/main.go: a program that speaks to the gateway and prints every frame. `must` and
-- `log.Fatalf` end the program, and so does a panic on a key that cannot be used: the result is an
-- error then, behind what was printed.
mod Device
mod Requests
mod Run
pub mod Payload
unfoldable pub use Device.*
unfoldable pub use Requests.*
unfoldable pub use Run.*

-- ===== src/Cloud.antt =====
-- internal/cloud/client.go: the connection to the cloud. The web socket, `encoding/json`, and the
-- random factor of `withJitter` are arguments. This file holds the delays of `Run` and what
-- `readLoop` makes of one message; the goroutines and their connections are in Goroutines.
pub mod Delays
pub mod Goroutines
pub mod Sending
use ubuntu_daemon.Base.{
  ℕ, zero, suc, Bool, true, false, ◌&&◌, ◌||◌, not, Option, none, some, List, [], ◌∷◌, ◌++◌, Text,
  Result, ok, err, if◌then◌else◌,
}
use ubuntu_daemon.Base.Int.{ℤ, pos, negsuc, leb_ℤ, ltb_ℤ, eqb_ℤ, mul64}
use ubuntu_daemon.Text.{lit, text_eq, decimal}
use ubuntu_daemon.Protocol.{
  Envelope, AuthRequest, AuthResponse, type_auth_req, type_auth_resp, type_ping, type_pong,
}
use ubuntu_daemon.Config.{CloudConfig, second, reconnect_min, reconnect_max}

-- `withJitter`; `stretch` is the product with the random factor, rounded.
unfoldable pub with_jitter : (ℕ → ℕ) → ℤ → ℤ
with_jitter stretch (negsuc n) = pos second
with_jitter stretch (pos zero) = pos second
with_jitter stretch (pos (suc n)) = pos (stretch (suc n))

-- `backoff *= 2`, and not beyond the maximum.
unfoldable pub next_backoff : CloudConfig → ℤ → ℤ
next_backoff cfg backoff =
    let doubled = mul64 backoff 2 in
    if ltb_ℤ (reconnect_max cfg) doubled then reconnect_max cfg else doubled

-- One turn of the loop of `Run`: the context is cancelled when `runOnce` returns, or while the loop
-- waits, or the wait is over; each with the random factor of its wait.
pub data Attempt : Type 0 where
  cancelled_inside : Attempt
  cancelled_waiting waited : (ℕ → ℕ) → Attempt

-- The delays before their random factor, and the waits, one for each turn that waits.
unfoldable pub run_from : CloudConfig → ℤ → List Attempt → List (ℤ × ℤ)
run_from cfg backoff [] = []
run_from cfg backoff (cancelled_inside ∷ attempts) = []
run_from cfg backoff (cancelled_waiting stretch ∷ attempts) =
    (backoff, with_jitter stretch backoff) ∷ []
run_from cfg backoff (waited stretch ∷ attempts) =
    (backoff, with_jitter stretch backoff) ∷ run_from cfg (next_backoff cfg backoff) attempts

unfoldable pub run : CloudConfig → List Attempt → List (ℤ × ℤ)
run cfg attempts = run_from cfg (reconnect_min cfg) attempts

pub record Client : Type 0 where
  pub ping_type : Text → Option Text  -- the type field, if the bytes are a PingMessage
  pub decode_envelope : Text → Result Envelope
  pub decode_auth : Text → Result AuthResponse

unfoldable pub is_pong : Client → Text → Bool
is_pong c bytes = elim (c.ping_type bytes) [ none ↦ false | some kind ↦ text_eq kind type_pong ]

-- An answer to the authentication that accepts it.
unfoldable pub accepts : Client → Envelope → Bool
accepts c e =
    text_eq e.kind type_auth_resp
    && (elim (c.decode_auth e.payload) [ err why ↦ false | ok r ↦ eqb_ℤ r.code (pos 200) ])

-- One message in `readLoop`: what the handler is given, and whether the connection counts as
-- authenticated from then on; nothing for a pong and for bytes that are no envelope.
unfoldable pub handled_message : Client → Text → Option (Envelope × Bool)
handled_message c bytes =
    if is_pong c bytes
    then none
    else elim (c.decode_envelope bytes) [ err why ↦ none | ok e ↦ some (e, accepts c e) ]

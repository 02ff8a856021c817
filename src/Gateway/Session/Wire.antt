-- ===== src/Gateway/Session/Wire.antt =====
-- Frames and requests, `writeJSON`, `readJSON`, `handleControlFrame` and `persistHelloOK`.
use ubuntu_daemon.Base.{
  Bool, true, false, Option, none, some, List, [], ◌∷◌, ◌++◌, Text, Result, ok, err, if◌then◌else◌,
}
use ubuntu_daemon.Base.Int.{ℤ}
use ubuntu_daemon.Text.{lit, text_eq, contains_text, is_blank, trim_space}
use ubuntu_daemon.Json.{Fields}
use ubuntu_daemon.Files.{Disk}
use ubuntu_daemon.Gateway.Texts.{GatewayError}
use ubuntu_daemon.Gateway.Collect.{Frame}
use ubuntu_daemon.Gateway.Session.Tokens.{Adapter, StateAccess, persist_gateway_device_token}

-- The type of a request is always `req`.
pub record GatewayRequest : Type 0 where
  pub id : Text
  pub method : Text
  pub params : Fields

pub record GatewayResponse : Type 0 where
  pub kind : Text  -- Type
  pub id : Text
  pub succeeded : Bool  -- OK
  pub payload : Text
  pub error : Option GatewayError

pub record GatewayChallenge : Type 0 where
  pub kind : Text
  pub event : Text
  pub nonce : Text

pub record HelloAuth : Type 0 where
  pub device_token : Text
  pub role : Text
  pub scopes : List Text
  pub issued_at_ms : ℤ

-- The type and the id, or the type and the name, that a frame carries.
pub record Head : Type 0 where
  pub kind : Text
  pub id : Text

pub record Control : Type 0 where
  pub kind : Text
  pub event : Text

-- `json.Unmarshal` into each of the structs that the code decodes a frame into.
pub record Codec : Type 0 where
  pub kind : Text → Result Text
  pub head : Text → Result Head
  pub control : Text → Result Control
  pub hello : Text → Result (Option HelloAuth)
  pub challenge : Text → Result GatewayChallenge
  pub response : Text → Result GatewayResponse
  pub run_id : Text → Text  -- `ack.RunID` after decoding into it, with its error ignored
  pub event : Text → Result Frame

-- A frame, and what the operating system answers if it makes the adapter save a token.
pub record Received : Type 0 where
  pub text : Text
  pub access : StateAccess

-- Why reading fails behind the last frame: an error of the context, or another.
pub data Ending : Type 0 where
  cancelled broken : Text → Ending

abbrev pub why_ended : Ending → Text
why_ended (cancelled why) = why
why_ended (broken why) = why

-- What is still to be read, what was written, and the disk.
pub record Wire : Type 0 where
  pub incoming : List Received
  pub sent : List GatewayRequest
  pub disk : Disk

abbrev pub Action {ℓ} : Type ℓ → Type ℓ
Action A = Wire → Result A × Wire

infixl 5 ◌>>=◌
unfoldable pub ◌>>=◌ {ℓ κ} : {S : Type ℓ} {T : Type κ} → Action S → (S → Action T) → Action T
(m >>= next) w = elim (m w).0 [ err why ↦ (err why, (m w).1) | ok value ↦ next value (m w).1 ]

infixl 5 ◌>>◌
unfoldable pub ◌>>◌ {ℓ κ} : {S : Type ℓ} {T : Type κ} → Action S → Action T → Action T
unfolding ◌>>=◌
m >> next = m >>= (λ _. next)

abbrev pub return {ℓ} : {A : Type ℓ} → Result A → Action A
return r w = (r, w)

-- `failure` is the error of a write; `prefix` is what the caller puts before it.
unfoldable pub write_json :
    (GatewayRequest → Option Text) → Text → GatewayRequest → Action (Unit {0})
write_json failure prefix request w = elim (failure request) [
  | some why ↦ (err (prefix ++ why), w)
  | none ↦ (ok tt, record w { sent = w.sent ++ (request ∷ []) })
]

unfoldable pub read_json : Ending → Text → Action Received
read_json ending prefix w = elim w.incoming [
  | [] ↦ (err (prefix ++ why_ended ending), w)
  | f ∷ rest ↦ (ok f, record w { incoming = rest })
]

-- What is written is left out of the result: its failure is only logged.
unfoldable pub persist_hello_ok : Adapter → StateAccess → Option HelloAuth → Disk → Disk
persist_hello_ok a access none d = d
persist_hello_ok a access (some auth) d =
    if is_blank auth.device_token
    then d
    else (persist_gateway_device_token a.state_store access (trim_space auth.device_token) d).1

abbrev pub chat_events : List Text
chat_events = lit "chat" ∷ lit "session.message" ∷ lit "agent" ∷ []

-- Whether the frame is a control frame, and the disk after it.
unfoldable pub handle_control_frame : Adapter → Codec → Received → Disk → Bool × Disk
handle_control_frame a c f d = elim (c.control f.text) [
  | err why ↦ (false, d)
  | ok head ↦
      if text_eq head.kind (lit "hello-ok")
      then elim (c.hello f.text) [
        | err why ↦ (true, d)
        | ok auth ↦ (true, persist_hello_ok a f.access auth d)
      ]
      else if text_eq head.kind (lit "event")
      then if contains_text chat_events head.event then (false, d) else (true, d)
      else (false, d)
]

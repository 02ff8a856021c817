-- ===== src/Probe/Device.antt =====
-- cmd/wsprobe/main.go: the settings, the keys, and the identity of the probe.
use ubuntu_daemon.Base.{
  ℕ, ◌&&◌, not, Option, none, some, Text, Result, ok, err, ◌>>=◌, is_nil, if◌then◌else◌,
}
use ubuntu_daemon.Base.Int.{ℤ}
use ubuntu_daemon.Text.{lit}
use ubuntu_daemon.Config.{Environment}
use ubuntu_daemon.Store.{DeviceIdentity}
use ubuntu_daemon.Gateway.Session.Crypto.{Crypto, ed25519, other_kind, hex, base64_url}
use ubuntu_daemon.Gateway.Session.Wire.{GatewayRequest, Head}

unfoldable pub env_or : Environment → Text → Text → Text
env_or env key default = if is_nil (env key) then default else env key

pub record Settings : Type 0 where
  pub token : Text
  pub ws_url : Text
  pub session_key : Text
  pub message : Text

unfoldable pub settings : Environment → Settings
settings env = record {
  token = env_or env (lit "OPENCLAW_GATEWAY_TOKEN") (lit "123456");
  ws_url = env_or env (lit "OPENCLAW_GATEWAY_WS") (lit "ws://127.0.0.1:18789");
  session_key = env_or env (lit "OPENCLAW_SESSION_KEY") (lit "wsprobe-session");
  message = env_or env (lit "OPENCLAW_MESSAGE") (lit "请只回复OK");
}

-- What the program asks of its surroundings. A challenge that decodes is its nonce.
pub record Surroundings : Type 0 where
  pub env : Environment
  pub goos : Text
  pub read_file : Text → Result Text
  pub decode_state : Text → Result (Option DeviceIdentity)
  pub crypto : Crypto
  pub generated : Result (Text × Text)
  pub dial : Text → Text → Option Text
  pub write_failure : GatewayRequest → Option Text
  pub ending : Text
  pub decode_nonce : Text → Result Text
  pub decode_head : Text → Result Head
  pub signed_at : ℤ
  pub connect_at : ℤ
  pub chat_at : ℤ
  pub watch_from : ℕ

unfoldable pub probe_public_key : Crypto → Text → Result Text
probe_public_key c public_key_pem = elim (c.pem_decode public_key_pem) [
  | none ↦ err (lit "panic: no block")
  | some bytes ↦ elim (c.parse_public bytes) [
    | err why ↦ err why
    | ok key ↦ elim key [
      | other_kind ↦ err (lit "panic: another kind of key")
      | ed25519 public ↦ ok (base64_url public)
    ]
  ]
]

unfoldable pub probe_sign : Crypto → Text → Text → Result Text
probe_sign c private_key_pem payload = elim (c.pem_decode private_key_pem) [
  | none ↦ err (lit "panic: no block")
  | some bytes ↦ elim (c.parse_private bytes) [
    | err why ↦ err why
    | ok key ↦ elim key [
      | other_kind ↦ err (lit "panic: another kind of key")
      | ed25519 private ↦ ok (base64_url (c.sign private payload))
    ]
  ]
]

-- The public key as it is sent, the PEM of the private key, and the device's id.
pub record ProbeIdentity : Type 0 where
  pub public_key : Text
  pub private_key_pem : Text
  pub device_id : Text

unfoldable pub fresh_identity : Crypto → Result (Text × Text) → Result ProbeIdentity
fresh_identity c generated = do
  (public, private) ← generated
  public_der ← c.marshal_public public
  private_der ← c.marshal_private private
  key ← probe_public_key c (c.pem_encode (lit "PUBLIC KEY") public_der)
  ok (record {
    public_key = key;
    private_key_pem = c.pem_encode (lit "PRIVATE KEY") private_der;
    device_id = hex (c.sum256 public);
  })

abbrev usable : Option DeviceIdentity → Option DeviceIdentity
usable none = none
usable (some i) =
    if not (is_nil i.device_id) && not (is_nil i.public_key_pem) && not (is_nil i.private_key_pem)
    then some i
    else none

unfoldable pub load_or_create_identity : Surroundings → Result ProbeIdentity
load_or_create_identity s =
    let path = s.env (lit "OPENCLAW_DAEMON_STATE") in
    let fresh = fresh_identity s.crypto s.generated in
    if is_nil path then fresh else do
      text ← s.read_file path
      stored ← s.decode_state text
      elim (usable stored) [
        | none ↦ fresh
        | some i ↦ elim (probe_public_key s.crypto i.public_key_pem) [
          | err why ↦ err why
          | ok key ↦ ok (record {
            public_key = key;
            private_key_pem = i.private_key_pem;
            device_id = i.device_id;
          })
        ]
      ]

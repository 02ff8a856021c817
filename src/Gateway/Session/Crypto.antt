-- ===== src/Gateway/Session/Crypto.antt =====
-- `createDeviceIdentity`, `signDevicePayload`, `publicKeyRawBase64URLFromPEM` and
-- `buildDeviceAuthPayloadV3`. Keys, DER forms and PEM blocks are byte strings, and what packages
-- ed25519, sha256, x509 and pem do with them are functions of a record.
use ubuntu_daemon.Base.{
  ℕ, ◌+◌, ◌/◌, ◌%◌, ◌*◌, Option, none, some, List, [], ◌∷◌, Text, Result, ok, err, ltb, ◌==◌,
  if◌then◌else◌,
}
use ubuntu_daemon.Base.Int.{ℤ}
use ubuntu_daemon.Text.{lit, join, decimal, trim_space, to_lower}
use ubuntu_daemon.Store.{DeviceIdentity}

-- A key that x509 reads: of the kind ed25519, or of another.
pub data ParsedKey : Type 0 where
  ed25519 : Text → ParsedKey
  other_kind : ParsedKey

pub record Crypto : Type 0 where
  pub marshal_public : Text → Result Text
  pub marshal_private : Text → Result Text
  pub sum256 : Text → Text
  pub pem_encode : Text → Text → Text  -- the block's type and its bytes
  pub pem_decode : Text → Option Text
  pub parse_public : Text → Result ParsedKey
  pub parse_private : Text → Result ParsedKey
  pub sign : Text → Text → Text

-- `%x` of a byte string.
abbrev pub hex_digit : ℕ → ℕ
hex_digit n = if ltb n 10 then b'0' + n else b'a' + n % 10

unfoldable pub hex : Text → Text
hex [] = []
hex (c ∷ s) = hex_digit (c / 16) ∷ hex_digit (c % 16) ∷ hex s

-- `base64.RawURLEncoding.EncodeToString`.
abbrev pub base64_digit : ℕ → ℕ
base64_digit n =
    if ltb n 26
    then b'A' + n
    else if ltb n 52
    then b'a' + n % 26
    else if ltb n 62
    then b'0' + n % 52
    else if n == 62
    then b'-'
    else b'_'

unfoldable pub base64_url : Text → Text
base64_url [] = []
base64_url (a ∷ []) = base64_digit (a / 4) ∷ base64_digit (a % 4 * 16) ∷ []
base64_url (a ∷ b ∷ []) =
    base64_digit (a / 4) ∷ base64_digit (a % 4 * 16 + b / 16) ∷ base64_digit (b % 16 * 4) ∷ []
base64_url (a ∷ b ∷ c ∷ s) =
    base64_digit (a / 4)
    ∷ base64_digit (a % 4 * 16 + b / 16)
    ∷ base64_digit (b % 16 * 4 + c / 64)
    ∷ base64_digit (c % 64)
    ∷ base64_url s

-- `generated` is what `ed25519.GenerateKey` gives: the public and the private key.
unfoldable pub create_device_identity : Crypto → Result (Text × Text) → Result DeviceIdentity
create_device_identity c (err why) = err why
create_device_identity c (ok (public, private)) = elim (c.marshal_public public) [
  | err why ↦ err why
  | ok public_der ↦ elim (c.marshal_private private) [
    | err why ↦ err why
    | ok private_der ↦ ok (record {
      device_id = hex (c.sum256 public);
      public_key_pem = c.pem_encode (lit "PUBLIC KEY") public_der;
      private_key_pem = c.pem_encode (lit "PRIVATE KEY") private_der;
    })
  ]
]

unfoldable pub sign_device_payload : Crypto → Text → Text → Result Text
sign_device_payload c private_key_pem payload = elim (c.pem_decode private_key_pem) [
  | none ↦ err (lit "decode private key pem")
  | some bytes ↦ elim (c.parse_private bytes) [
    | err why ↦ err why
    | ok key ↦ elim key [
      | other_kind ↦ err (lit "private key is not ed25519")
      | ed25519 private ↦ ok (base64_url (c.sign private payload))
    ]
  ]
]

unfoldable pub public_key_raw_base64_url_from_pem : Crypto → Text → Text
public_key_raw_base64_url_from_pem c public_key_pem = elim (c.pem_decode public_key_pem) [
  | none ↦ []
  | some bytes ↦ elim (c.parse_public bytes) [
    | err why ↦ []
    | ok key ↦ elim key [ other_kind ↦ [] | ed25519 public ↦ base64_url public ]
  ]
]

pub record DeviceAuthPayloadParams : Type 0 where
  pub device_id : Text
  pub client_id : Text
  pub client_mode : Text
  pub role : Text
  pub scopes : List Text
  pub signed_at_ms : ℤ
  pub token : Text
  pub nonce : Text
  pub platform : Text
  pub device_family : Text

unfoldable pub normalize_device_metadata_for_auth : Text → Text
normalize_device_metadata_for_auth value = to_lower (trim_space value)

unfoldable pub build_device_auth_payload_v3 : DeviceAuthPayloadParams → Text
build_device_auth_payload_v3 p = join (lit "|") (
    lit "v3"
    ∷ p.device_id
    ∷ p.client_id
    ∷ p.client_mode
    ∷ p.role
    ∷ join (lit ",") p.scopes
    ∷ decimal p.signed_at_ms
    ∷ p.token
    ∷ p.nonce
    ∷ normalize_device_metadata_for_auth p.platform
    ∷ normalize_device_metadata_for_auth p.device_family
    ∷ [])

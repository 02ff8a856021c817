-- ===== src/Gateway/Session/Keys.antt =====
-- An identity that the adapter has made can be used, and what it sends of it can be read back.
use mathlib.Core.Path.{ap₂, subst}
use ubuntu_daemon.Base.{
  ℕ, ◌+◌, ◌-◌, ◌*◌, ◌/◌, ◌%◌, ◌<◌, ◌≡◌, refl, ap, some, [], ◌∷◌, arith, Text, Result, ok, err, All,
  ltb, ◌==◌, if◌then◌else◌,
}
use ubuntu_daemon.Text.{lit}
use ubuntu_daemon.Store.{DeviceIdentity}
use ubuntu_daemon.Gateway.Session.Crypto.{
  ed25519, Crypto, base64_digit, base64_url, hex, create_device_identity, sign_device_payload,
  public_key_raw_base64_url_from_pem,
}

-- What pem and x509 promise: they read what they have written.
pub record IsFaithful (c : Crypto) : Type 0 where
  pub block : (kind bytes : Text) → c.pem_decode (c.pem_encode kind bytes) ≡ some bytes
  pub public :
      (key der : Text) → c.marshal_public key ≡ ok der → c.parse_public der ≡ ok (ed25519 key)
  pub private :
      (key der : Text) → c.marshal_private key ≡ ok der → c.parse_private der ≡ ok (ed25519 key)

-- What a base64 digit stands for.
abbrev digit_value : ℕ → ℕ
digit_value d =
    if d == b'-'
    then 62
    else if d == b'_'
    then 63
    else if ltb d b'A'
    then d - b'0' + 52
    else if ltb d b'a'
    then d - b'A'
    else d - b'a' + 26

unfoldable pub read_base64 : Text → Text
read_base64 [] = []
read_base64 (p ∷ []) = []
read_base64 (p ∷ q ∷ []) = (digit_value p * 4 + digit_value q / 16) ∷ []
read_base64 (p ∷ q ∷ r ∷ []) =
    (digit_value p * 4 + digit_value q / 16) ∷ (digit_value q % 16 * 16 + digit_value r / 4) ∷ []
read_base64 (p ∷ q ∷ r ∷ t ∷ s) =
    (digit_value p * 4 + digit_value q / 16)
    ∷ (digit_value q % 16 * 16 + digit_value r / 4)
    ∷ (digit_value r % 4 * 64 + digit_value t)
    ∷ read_base64 s

digit_value-base64_digit : (n : ℕ) → n < 64 → digit_value (base64_digit n) ≡ n
digit_value-base64_digit n h = ground arith

first_byte :
    (a q : ℕ)
    → a < 256
    → q < 16
    → digit_value (base64_digit (a / 4)) * 4 + digit_value (base64_digit (a % 4 * 16 + q)) / 16 ≡ a
first_byte a q h k = omega (
  arith,
  digit_value-base64_digit (a / 4) (omega arith),
  digit_value-base64_digit (a % 4 * 16 + q) (omega arith),
)

second_byte :
    (p b r : ℕ)
    → p < 4
    → b < 256
    → r < 4
    → digit_value (base64_digit (p * 16 + b / 16)) % 16 * 16
        + digit_value (base64_digit (b % 16 * 4 + r)) / 4
      ≡ b
second_byte p b r h k l = omega (
  arith,
  digit_value-base64_digit (p * 16 + b / 16) (omega arith),
  digit_value-base64_digit (b % 16 * 4 + r) (omega arith),
)

third_byte :
    (q c : ℕ)
    → q < 16
    → c < 256
    → digit_value (base64_digit (q * 4 + c / 64)) % 4 * 64 + digit_value (base64_digit (c % 64)) ≡ c
third_byte q c h k = omega (
  arith,
  digit_value-base64_digit (q * 4 + c / 64) (omega arith),
  digit_value-base64_digit (c % 64) (omega arith),
)

-- The text form of a key or a signature can be decoded again, whatever its bytes and their number.
pub read_base64-base64_url : (s : Text) → All (λ c. c < 256) s → read_base64 (base64_url s) ≡ s
unfolding read_base64 base64_url
read_base64-base64_url [] h = refl
read_base64-base64_url (a ∷ []) (ha, h) =
    ap (λ (x : ℕ). x ∷ [])
      (omega (
        arith,
        digit_value-base64_digit (a / 4) (omega arith),
        digit_value-base64_digit (a % 4 * 16) (omega arith),
      ))
read_base64-base64_url (a ∷ b ∷ []) (ha, (hb, h)) =
    ap₂ (λ (x y : ℕ). x ∷ y ∷ []) (first_byte a (b / 16) ha (omega arith))
      (omega (
        arith,
        digit_value-base64_digit (a % 4 * 16 + b / 16) (omega arith),
        digit_value-base64_digit (b % 16 * 4) (omega arith),
      ))
read_base64-base64_url (a ∷ b ∷ c ∷ s) (ha, (hb, (hc, h))) =
    ap₂ (λ (x : ℕ) (l : Text). x ∷ l) (first_byte a (b / 16) ha (omega arith))
      (ap₂ (λ (x : ℕ) (l : Text). x ∷ l)
        (second_byte (a % 4) b (c / 64) (omega arith) hb (omega arith))
        (ap₂ (λ (x : ℕ) (l : Text). x ∷ l) (third_byte (b % 16) c (omega arith) hc)
          (read_base64-base64_url s h)))

-- What an identity is to a pair of keys.
abbrev pub BelongsTo : Crypto → Text → Text → Text → DeviceIdentity → Type 0
BelongsTo c public private payload i =
    (sign_device_payload c i.private_key_pem payload ≡ ok (base64_url (c.sign private payload)))
    × (public_key_raw_base64_url_from_pem c i.public_key_pem ≡ base64_url public)
    × (i.device_id ≡ hex (c.sum256 public))

-- Of an identity that was made for a pair of keys: every payload is signed by that private key, the
-- public key that is sent is that public key, and the id is the hash of it; so the gateway can
-- check the signature. pem and x509 read what they have written.
pub create_device_identity-BelongsTo :
    (c : Crypto) (public private payload : Text) (i : DeviceIdentity)
    → IsFaithful c
    → create_device_identity c (ok (public, private)) ≡ ok i
    → BelongsTo c public private payload i
unfolding create_device_identity sign_device_payload public_key_raw_base64_url_from_pem
create_device_identity-BelongsTo c public private payload i f e =
    from (c.marshal_public public) (c.marshal_private private) refl refl
  where
    from :
        (r q : Result Text)
        → c.marshal_public public ≡ r
        → c.marshal_private private ≡ q
        → BelongsTo c public private payload i
    from (err why) q m n = absurd (cc (rw (m, create_device_identity) at e))
    from (ok der) (err why) m n = absurd (cc (rw (m, n, create_device_identity) at e))
    from (ok der) (ok der') m n =
        let made : DeviceIdentity = record {
          device_id = hex (c.sum256 public);
          public_key_pem = c.pem_encode (lit "PUBLIC KEY") der;
          private_key_pem = c.pem_encode (lit "PRIVATE KEY") der';
        } in
        let same : made ≡ i = cc (rw (m, n, create_device_identity) at e) in
        subst (BelongsTo c public private payload) same (
          rw (f.block (lit "PRIVATE KEY") der', sign_device_payload)
              (rw (f.private private der' n) refl),
          rw (f.block (lit "PUBLIC KEY") der, public_key_raw_base64_url_from_pem)
              (rw (f.public public der m) refl),
          refl,
        )

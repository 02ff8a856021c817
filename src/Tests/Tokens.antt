-- ===== src/Tests/Tokens.antt =====
-- The state file of a daemon, with a JSON that can be decoded again, over one connection and the
-- next.
use ubuntu_daemon.Base.{
  ◌≡◌, ◌≢◌, ◌⊎◌, refl, true, none, some, [], ◌∷◌, Text, Result, ok, err, Option, if◌then◌else◌,
  Bool, ◌&&◌, arith, ◌==◌, Bool-cases, inl, inr,
}
use ubuntu_daemon.Base.Int.{ℤ, pos, negsuc}
use ubuntu_daemon.Text
use ubuntu_daemon.Text.{lit, text_eq, text_eq_iff}
use ubuntu_daemon.Files
use ubuntu_daemon.Files.{Calls, all_succeed, Disk}
use ubuntu_daemon.Store
use ubuntu_daemon.Store.{DeviceIdentity, State, FileStore, zero_state, load}
use ubuntu_daemon.Gateway.Session.Tokens
use ubuntu_daemon.Gateway.Session.Tokens.{
  Adapter, StateAccess, auth_by, persist_gateway_device_token, load_or_create_gateway_identity,
  resolve_connect_auth, stored_identity,
}
use ubuntu_daemon.Gateway.Session.Crypto
use ubuntu_daemon.Gateway.Session.Wire.{Head, Codec, HelloAuth, Control, Wire, handle_control_frame}
use ubuntu_daemon.Gateway.Session.Chat.{chat}
use ubuntu_daemon.Gateway.Session.Requests.{complete_handshake}
use ubuntu_daemon.Gateway.Session.Keys.{IsFaithful, BelongsTo, create_device_identity-BelongsTo}
use ubuntu_daemon.Gateway.Session.Keeping.{RoundTrips}
use ubuntu_daemon.Gateway.Session.Keeping.Chats.{chat-KeepsState}
use ubuntu_daemon.Gateway.Session.Stored.{
  load_or_create_gateway_identity_twice, resolve_connect_auth-hello,
}
use ubuntu_daemon.Gateway.Session.Passed.{complete_handshake-greeting}
use ubuntu_daemon.Tests.Sessions.{
  access, adapter, codec, crypto, frame_of, identity, link, message, services, setting, wire,
}

-- The JSON knows one identity.
abbrev is_identity : DeviceIdentity → Bool
is_identity i =
    text_eq i.device_id identity.device_id
    && (text_eq i.public_key_pem identity.public_key_pem
        && text_eq i.private_key_pem identity.private_key_pem)

is_identity_only : (i : DeviceIdentity) → is_identity i ≡ true → i ≡ identity
is_identity_only i e = ground (
  arith,
  text_eq_iff i.device_id identity.device_id,
  text_eq_iff i.public_key_pem identity.public_key_pem,
  text_eq_iff i.private_key_pem identity.private_key_pem,
)

-- The version, whether there is the identity, and the token.
abbrev encoded : State → Result Text
encoded s = elim s.last_config_version [
  | negsuc n ↦ err (lit "negative")
  | pos n ↦ elim s.gateway_device_identity [
    | none ↦ ok (n ∷ 0 ∷ s.gateway_device_token)
    | some i ↦
        if is_identity i then ok (n ∷ 1 ∷ s.gateway_device_token) else err (lit "unknown identity")
  ]
]

abbrev decoded : Text → Result State
decoded [] = err (lit "syntax")
decoded (n ∷ []) = err (lit "syntax")
decoded (n ∷ k ∷ token) = ok (record {
  last_config_version = pos n;
  gateway_device_token = token;
  gateway_device_identity = if k == 0 then none else some identity;
})

abbrev pub token_store : FileStore
token_store = record { path = lit "a"; decode = decoded; encode = encoded }

abbrev state_of : ℤ → Text → Option DeviceIdentity → State
state_of version token i = record {
  last_config_version = version;
  gateway_device_token = token;
  gateway_device_identity = i;
}

decoded-encoded :
    (version : ℤ) (token : Text) (i : Option DeviceIdentity) (text : Text)
    → encoded (state_of version token i) ≡ ok text
    → decoded text ≡ ok (state_of version token i)
decoded-encoded (negsuc n) token i text e = absurd (cc)
decoded-encoded (pos n) token none text e = let same : text ≡ n ∷ 0 ∷ token = cc in rw same refl
decoded-encoded (pos n) token (some i) text e = elim (Bool-cases (is_identity i)) [
  | inr other ↦ absurd (cc (rw other at e))
  | inl mine ↦
      let same : text ≡ n ∷ 1 ∷ token = cc (rw mine at e) in rw (same, is_identity_only i mine) refl
]

token_store-RoundTrips : RoundTrips token_store
token_store-RoundTrips state text =
    decoded-encoded state.last_config_version state.gateway_device_token
      state.gateway_device_identity text

run_store : Unit {0}
unfolding lit Text.text_eq Text.trim_space Text.is_blank Text.drop_front Text.front_size
    Text.has_prefix Files.read Files.write Files.remove Files.write_atomically Store.load Store.save
    Tokens.load_or_create_gateway_identity Tokens.save_identity Tokens.is_complete
    Tokens.persist_gateway_device_token Crypto.hex
run_store = tt

t-ne-a : lit "t" ≢ lit "a"
unfolding lit
t-ne-a = cc

abbrev stored_adapter : Adapter
stored_adapter = record adapter { state_store = some token_store }

chat-KeepsState_example :
    (after : State) × (load token_store none
        (chat stored_adapter codec link setting services message wire).1.disk
      ≡ ok after)
    × (after.last_config_version ≡ zero_state.last_config_version)
    × ((stored_identity zero_state ≡ none) ⊎ (stored_identity after ≡ stored_identity zero_state))
unfolding run_store
chat-KeepsState_example =
    chat-KeepsState stored_adapter codec link setting services message token_store wire zero_state
      refl token_store-RoundTrips t-ne-a (t-ne-a, (t-ne-a, (t-ne-a, (t-ne-a, (t-ne-a, tt))))) refl

abbrev next_access : StateAccess
next_access = record { load_failure = none; calls = all_succeed (lit "u") }

load_or_create_gateway_identity_twice_example :
    let d' = (load_or_create_gateway_identity (some token_store) (ok identity) access []).1 in
    load_or_create_gateway_identity (some token_store) (err (lit "no entropy")) next_access d'
    ≡ (ok identity, d')
unfolding run_store
load_or_create_gateway_identity_twice_example =
    load_or_create_gateway_identity_twice token_store token_store-RoundTrips (ok identity)
      (err (lit "no entropy")) access next_access [] identity t-ne-a refl refl refl

abbrev greeting : HelloAuth
greeting = record {
  device_token = lit "dev";
  role = lit "operator";
  scopes = [];
  issued_at_ms = pos 1;
}

abbrev hello : Control
hello = record { kind = lit "hello-ok"; event = [] }

abbrev greeting_codec : Codec
greeting_codec = record codec { control = λ text. ok hello; hello = λ text. ok (some greeting) }

resolve_connect_auth-hello_example :
    resolve_connect_auth stored_adapter none
      (handle_control_frame stored_adapter greeting_codec (frame_of []) []).1
    ≡ ok (auth_by (lit "deviceToken") (lit "dev"))
unfolding run_store
resolve_connect_auth-hello_example =
    resolve_connect_auth-hello stored_adapter greeting_codec token_store (frame_of []) hello
      greeting [] refl token_store-RoundTrips t-ne-a refl refl refl refl refl refl

crypto-IsFaithful : IsFaithful crypto
crypto-IsFaithful = record {
  block = λ kind bytes. refl;
  public = λ key der e. cc;
  private = λ key der e. cc;
}

create_device_identity-BelongsTo_example :
    BelongsTo crypto (lit "pub") (lit "priv") (lit "payload") identity
unfolding run_store Crypto.create_device_identity
create_device_identity-BelongsTo_example =
    create_device_identity-BelongsTo crypto (lit "pub") (lit "priv") (lit "payload") identity
      crypto-IsFaithful refl

abbrev greeting_head : Head
greeting_head = record { kind = lit "hello-ok"; id = [] }

abbrev only_greetings : Codec
only_greetings = record greeting_codec { head = λ text. ok greeting_head }

abbrev greeted : Wire
greeted = record wire { incoming = frame_of (lit "challenge") ∷ frame_of (lit "hello") ∷ [] }

abbrev ungreeted : Wire
ungreeted = record wire { incoming = frame_of (lit "challenge") ∷ [] }

complete_handshake-greeting_example :
    ((complete_handshake stored_adapter only_greetings link setting identity
        (auth_by (lit "token") (lit "tok"))
        greeted).0
      ≡ (complete_handshake stored_adapter only_greetings link setting identity
          (auth_by (lit "token") (lit "tok"))
          ungreeted).0)
    × ((complete_handshake stored_adapter only_greetings link setting identity
          (auth_by (lit "token") (lit "tok"))
          greeted).1.disk
        ≡ [])
complete_handshake-greeting_example =
    complete_handshake-greeting stored_adapter only_greetings link setting identity
      (auth_by (lit "token") (lit "tok")) (frame_of (lit "hello")) (frame_of (lit "challenge"))
      greeting_head [] [] greeted ungreeted refl refl refl refl

-- ===== src/Gateway/Session/Requests.antt =====
-- `completeHandshake`, `connect`, `subscribeSessionMessages` and `sendChat`. A request waits for
-- the frame of type `res` with its own id.
use ubuntu_daemon.Base.{
  Bool, true, false, ◌&&◌, not, Option, none, some, List, [], ◌∷◌, ◌++◌, Text, Result, ok, err,
  is_nil, if◌then◌else◌,
}
use ubuntu_daemon.Text.{lit, text_eq, is_blank}
use ubuntu_daemon.Protocol.{ChatMessagePayload}
use ubuntu_daemon.Files.{Disk}
use ubuntu_daemon.Store.{DeviceIdentity}
use ubuntu_daemon.Gateway.Texts.{gateway_response_error}
use ubuntu_daemon.Gateway.Session.Tokens.{
  Adapter, StateAccess, ConnectAuth, resolve_connect_auth, load_or_create_gateway_identity,
}
use ubuntu_daemon.Gateway.Session.Crypto.{
  Crypto, sign_device_payload, create_device_identity, build_device_auth_payload_v3,
  public_key_raw_base64_url_from_pem,
}
use ubuntu_daemon.Gateway.Session.Wire.{
  GatewayRequest, GatewayResponse, GatewayChallenge, Head, Codec, Received, Ending, why_ended,
  Action, ◌>>=◌, ◌>>◌, return, write_json, read_json, handle_control_frame,
}
use ubuntu_daemon.Gateway.Session.Messages.{
  Times, device_payload, connect_request, subscribe_request, chat_request,
}

-- The connection: what its dial, its writes and its end give. `dial` is given the URL and the token
-- of the header, which is empty where there is no header.
pub record Link : Type 0 where
  pub dial : Text → Text → Option Text
  pub write_failure : GatewayRequest → Option Text
  pub ending : Ending

-- What creating an identity and the accesses to the state file give at each call.
pub record Setting : Type 0 where
  pub crypto : Crypto
  pub generated : Result (Text × Text)
  pub token_failure : Option Text
  pub identity_access : StateAccess
  pub times : Times

abbrev pub answers : Text → Head → Bool
answers id head = text_eq head.kind (lit "res") && text_eq head.id id

-- What the code makes of the frame that answers.
unfoldable pub accept_response : Text → Text → Result GatewayResponse → Result GatewayResponse
accept_response parsing rejected (err why) = err (parsing ++ why)
accept_response parsing rejected (ok r) =
    if not r.succeeded then err (gateway_response_error rejected r.error) else ok r

abbrev pub default_gateway_ws_url : Text
default_gateway_ws_url = lit "ws://127.0.0.1:18789"

module _ (a : Adapter) (c : Codec) (link : Link) where
  -- The loop of `completeHandshake`, which knows no control frames.
  unfoldable pub await_connect : Text → List Received → Result GatewayResponse × List Received
  await_connect id [] = (err (lit "read connect response: " ++ why_ended link.ending), [])
  await_connect id (f ∷ rest) = elim (c.head f.text) [
    | err why ↦ await_connect id rest
    | ok head ↦ elim (answers id head) [
      | false ↦ await_connect id rest
      | true ↦ (
        accept_response (lit "parse connect response: ") (lit "connect rejected")
            (c.response f.text),
        rest,
      )
    ]
  ]

  -- The loops of the two requests behind it, which differ in the method that they name.
  module _ (method id : Text) where
    unfoldable pub await_response :
        List Received → Disk → Result GatewayResponse × List Received × Disk
    await_response [] d =
        (err (lit "read " ++ (method ++ (lit " response: " ++ why_ended link.ending))), [], d)
    await_response (f ∷ rest) d = elim (c.head f.text) [
      | err why ↦ await_response rest d
      | ok head ↦ elim (handle_control_frame a c f d).0 [
        | true ↦ await_response rest (handle_control_frame a c f d).1
        | false ↦ elim (answers id head) [
          | false ↦ await_response rest (handle_control_frame a c f d).1
          | true ↦ (
            accept_response (lit "parse " ++ (method ++ lit " response: "))
                (method ++ lit " rejected") (c.response f.text),
            rest,
            (handle_control_frame a c f d).1,
          )
        ]
      ]
    ]

  unfoldable pub response_to : Text → Text → Action GatewayResponse
  response_to method id w =
      let (r, rest, d) = await_response method id w.incoming w.disk in
      (r, record w { incoming = rest; disk = d })

  unfoldable pub connected : Text → Action GatewayResponse
  connected id w = let (r, rest) = await_connect id w.incoming in (r, record w { incoming = rest })

  -- The challenge in the first frame.
  unfoldable pub challenge_of : Received → Result GatewayChallenge
  challenge_of f = elim (c.challenge f.text) [
    | err why ↦ err (lit "parse connect.challenge: " ++ why)
    | ok ch ↦
        if not (text_eq ch.kind (lit "event") && text_eq ch.event (lit "connect.challenge"))
        then err (
            lit "unexpected gateway handshake frame type="
            ++ (ch.kind ++ (lit " event=" ++ ch.event)))
        else ok ch
  ]

  module _ (s : Setting) (identity : DeviceIdentity) (auth : ConnectAuth) where
    unfoldable pub signature_for : Text → Result Text
    signature_for nonce =
        elim (sign_device_payload s.crypto identity.private_key_pem
          (build_device_auth_payload_v3 (device_payload a identity auth s.times.signed nonce))) [
            | err why ↦ err (lit "sign device payload: " ++ why)
            | ok signature ↦ ok signature
          ]

    abbrev pub signed_request : Text → Text → GatewayRequest
    signed_request nonce signature =
        connect_request a identity auth
          (public_key_raw_base64_url_from_pem s.crypto identity.public_key_pem) signature s.times
          nonce

    unfoldable pub complete_handshake : Action (Unit {0})
    complete_handshake = do
      first ← read_json link.ending (lit "read connect.challenge: ")
      challenge ← return (challenge_of first)
      signature ← return (signature_for challenge.nonce)
      let request = signed_request challenge.nonce signature
      write_json link.write_failure (lit "send connect request: ") request
      connected request.id
      return (ok tt)

  -- `connect` up to the dial: the token, the identity, and the connection.
  unfoldable pub prepare : Setting → Action (DeviceIdentity × ConnectAuth)
  prepare s w =
      let url =
        if is_blank a.cfg.gateway_ws_url then default_gateway_ws_url else a.cfg.gateway_ws_url in
      elim (resolve_connect_auth a s.token_failure w.disk) [
        | err why ↦ (err why, w)
        | ok auth ↦
            let (made, d) =
              load_or_create_gateway_identity a.state_store
                (create_device_identity s.crypto s.generated) s.identity_access w.disk in
            let w' = record w { disk = d } in
            elim made [
              | err why ↦ (err why, w')
              | ok identity ↦ elim (link.dial url auth.header_token) [
                | some why ↦ (err (lit "dial openclaw gateway: " ++ why), w')
                | none ↦ (ok (identity, auth), w')
              ]
            ]
      ]

  unfoldable pub connect : Setting → Action (Unit {0})
  connect s = do (identity, auth) ← prepare s; complete_handshake s identity auth

  unfoldable pub subscribe_session_messages : Setting → Text → Action (Unit {0})
  subscribe_session_messages s session = do
    let request = subscribe_request s.times.subscribe session
    write_json link.write_failure (lit "send sessions.messages.subscribe request: ") request
    response_to request.method request.id
    return (ok tt)

  -- The run's id, from the acknowledgement.
  unfoldable pub send_chat : Setting → ChatMessagePayload → Text → Action Text
  send_chat s p cloud_msg = do
    let request = chat_request s.times.chat p cloud_msg
    write_json link.write_failure (lit "send chat request: ") request
    r ← response_to request.method request.id
    return (ok (if is_nil r.payload then [] else c.run_id r.payload))

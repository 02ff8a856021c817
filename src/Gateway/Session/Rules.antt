-- ===== src/Gateway/Session/Rules.antt =====
-- What the requests of a chat keep, by rules for each of them: a condition before the request is
-- written, and one behind it.
use ubuntu_daemon.Base.{
  ◌≡◌, refl, List, [], ◌∷◌, ◌++◌, Text, Result, ok, err, is_nil, Option-cases, inl, inr,
  if◌then◌else◌,
}
use ubuntu_daemon.Text.{is_blank}
use ubuntu_daemon.Protocol.{ChatMessagePayload}
use ubuntu_daemon.Store.{DeviceIdentity}
use ubuntu_daemon.Files.{Disk}
use ubuntu_daemon.Gateway.Session.Crypto.{create_device_identity}
use ubuntu_daemon.Gateway.Session.Tokens.{
  Adapter, ConnectAuth, resolve_connect_auth, load_or_create_gateway_identity,
}
use ubuntu_daemon.Gateway.Session.Wire.{
  GatewayRequest, GatewayResponse, Codec, Received, Wire, ◌>>=◌, ◌>>◌, return, write_json,
}
use ubuntu_daemon.Gateway.Session.Messages.{subscribe_request, chat_request}
use ubuntu_daemon.Gateway.Session.Requests.{
  Link, Setting, await_connect, await_response, response_to, connected, challenge_of, signature_for,
  signed_request, complete_handshake, prepare, default_gateway_ws_url, subscribe_session_messages,
  send_chat,
}
use ubuntu_daemon.Gateway.Session.Triples.{
  Ends, Triple, bind-Triple, then-Triple, return-Triple, write_json-Triple, read_json-Triple,
  Ends_always,
}

module _ {κ} (a : Adapter) (c : Codec) (link : Link) (E : Text → Wire → Type κ) where
  module _ (Q : Wire → Type κ) (bad : (w : Wire) (why : Text) → Q w → E why w) where
    return-Same : {B : Type 0} (r : Result B) → Triple Q (return r) (λ _. Q) E
    return-Same r = return-Triple E Q (λ _. Q) r (λ w value e h. h) (λ w why e h. bad w why h)

    -- The preparations of `connect` write nothing and read nothing.
    module _ (s : Setting) where
      abbrev identified : Wire → Result DeviceIdentity × Disk
      identified w =
          load_or_create_gateway_identity a.state_store
            (create_device_identity s.crypto s.generated) s.identity_access w.disk

      abbrev ws_url : Text
      ws_url =
          if is_blank a.cfg.gateway_ws_url then default_gateway_ws_url else a.cfg.gateway_ws_url

      pub prepare-Triple :
          ((w : Wire) → Q w → Q (record w { disk = (identified w).1 }))
          → Triple Q (prepare a c link s) (λ _. Q) E
      unfolding prepare
      prepare-Triple keeps w h =
          from (resolve_connect_auth a s.token_failure w.disk) (identified w).0 refl refl
            (keeps w h)
        where
          from :
              (r : Result ConnectAuth) (made : Result DeviceIdentity)
              → resolve_connect_auth a s.token_failure w.disk ≡ r
              → (identified w).0 ≡ made
              → Q (record w { disk = (identified w).1 })
              → Ends E (λ _. Q) (prepare a c link s w)
          from (err why) made e q k = rw (e, prepare) (bad w why h)
          from (ok auth) (err why) e q k = rw (e, prepare) (rw q (bad _ why k))
          from (ok auth) (ok identity) e q k =
              elim (Option-cases (link.dial ws_url auth.header_token)) [
                | inl dialled ↦ rw (e, prepare) (rw (q, dialled) k)
                | inr (why, dialled) ↦ rw (e, prepare) (rw (q, dialled) (bad _ _ k))
              ]

    -- What a wait for the response of a request keeps.
    abbrev pub Waits : Text → Text → Type κ
    Waits method id =
        (w : Wire)
        → Q w
        → let out = await_response a c link method id w.incoming w.disk in
          Q (record w { incoming = out.1; disk = out.2 })

    pub response_to-Triple :
        (method id : Text) → Waits method id → Triple Q (response_to a c link method id) (λ _. Q) E
    unfolding response_to
    response_to-Triple method id waits w h =
        Ends_always E (λ _. Q) (response_to a c link method id w) (λ why. bad _ why (waits w h))
          (λ value. waits w h)

    pub connected-Triple :
        (id : Text)
        → ((w : Wire) → Q w → Q (record w { incoming = (await_connect a c link id w.incoming).1 }))
        → Triple Q (connected a c link id) (λ _. Q) E
    unfolding connected
    connected-Triple id waits w h =
        Ends_always E (λ _. Q) (connected a c link id w) (λ why. bad _ why (waits w h))
          (λ value. waits w h)

  -- `P` holds before a request is written, `Q` while its response is awaited, `R` behind that.
  module _ (P Q R : Wire → Type κ) (bad : (w : Wire) (why : Text) → P w → E why w)
      (last_bad : (w : Wire) (why : Text) → R w → E why w) where
    abbrev pub Writes : GatewayRequest → Type κ
    Writes request = (w : Wire) → P w → Q (record w { sent = w.sent ++ (request ∷ []) })

    abbrev pub Answers : GatewayRequest → Type κ
    Answers request = Triple Q (response_to a c link request.method request.id) (λ _. R) E

    -- A request that is written, its response, and what is made of that.
    request-Triple :
        {B : Type 0} (prefix : Text) (request : GatewayRequest) (made : GatewayResponse → Result B)
        → Writes request
        → Answers request
        → Triple P
            (write_json link.write_failure prefix request
              >> (response_to a c link request.method request.id >>= (λ r. return (made r))))
            (λ _. R)
            E
    request-Triple prefix request made writes answered =
        then-Triple E P Q (λ _. R) _ _
          (write_json-Triple E P Q link.write_failure prefix request writes bad)
          (bind-Triple E Q (λ _. R) (λ _. R) _ _ answered (λ r. return-Same R last_bad (made r)))

    pub subscribe-Triple :
        (s : Setting) (session : Text)
        → let request = subscribe_request s.times.subscribe session in
          Writes request
          → Answers request
          → Triple P (subscribe_session_messages a c link s session) (λ _. R) E
    unfolding subscribe_session_messages ◌>>◌
    subscribe-Triple s session writes answered =
        request-Triple _ (subscribe_request s.times.subscribe session) (λ r. ok tt) writes answered

    pub send_chat-Triple :
        (s : Setting) (p : ChatMessagePayload) (cloud_msg : Text)
        → let request = chat_request s.times.chat p cloud_msg in
          Writes request → Answers request → Triple P (send_chat a c link s p cloud_msg) (λ _. R) E
    unfolding send_chat
    send_chat-Triple s p cloud_msg writes answered =
        request-Triple _ (chat_request s.times.chat p cloud_msg)
          (λ r. ok (if is_nil r.payload then [] else c.run_id r.payload)) writes answered

  -- `Q` is indexed by the nonce and the signature of the request.
  module _ (P : Wire → Type κ) (Q : Text → Text → Wire → Type κ) (R : Wire → Type κ)
      (bad : (w : Wire) (why : Text) → P w → E why w)
      (last_bad : (w : Wire) (why : Text) → R w → E why w) (s : Setting) (identity : DeviceIdentity)
      (auth : ConnectAuth)
      (reads : (w : Wire) (f : Received) (rest : List Received)
        → w.incoming ≡ f ∷ rest
        → P w
        → P (record w { incoming = rest }))
      (writes : (nonce signature : Text)
        → Writes P
            (Q nonce signature)
            R
            bad
            last_bad
            (signed_request a c link s identity auth nonce signature))
      (answered : (nonce signature : Text)
        → Triple
            (Q nonce signature)
            (connected a c link (signed_request a c link s identity auth nonce signature).id)
            (λ _. R)
            E) where
    pub complete_handshake-Triple :
        Triple P (complete_handshake a c link s identity auth) (λ _. R) E
    unfolding complete_handshake
    complete_handshake-Triple =
        bind-Triple E P (λ _. P) (λ _. R) _ _ (read_json-Triple E P P link.ending _ reads bad)
          (λ first.
            bind-Triple E P (λ _. P) (λ _. R) _ _ (return-Same P bad (challenge_of a c link first))
              (λ challenge.
                bind-Triple E P (λ _. P) (λ _. R) _ _
                  (return-Same P bad (signature_for a c link s identity auth challenge.nonce))
                  (λ signature.
                    then-Triple E P (Q challenge.nonce signature) (λ _. R) _ _
                      (write_json-Triple E P (Q challenge.nonce signature) link.write_failure _ _
                        (writes challenge.nonce signature) bad)
                      (then-Triple E (Q challenge.nonce signature) R (λ _. R) _ _
                        (answered challenge.nonce signature) (return-Same R last_bad (ok tt))))))

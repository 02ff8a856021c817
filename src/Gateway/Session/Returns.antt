-- ===== src/Gateway/Session/Returns.antt =====
-- `Chat` returns once the gateway has answered its requests and has ended the turn.
use ubuntu_daemon.Base.{
  ◌≡◌, refl, ◌∙◌, true, Option, none, some, List, [], ◌∷◌, arith, Text, ok, is_nil, if◌then◌else◌,
}
use ubuntu_daemon.Text.{lit}
use ubuntu_daemon.Protocol.{ChatMessagePayload, ChatReplyPayload}
use ubuntu_daemon.Store.{DeviceIdentity}
use ubuntu_daemon.Gateway.Collect.{Services, Ids, done, collect_chat_replies, chat_result}
use ubuntu_daemon.Gateway.Collect.Closing.{collect_chat_replies-IsAnswer}
use ubuntu_daemon.Router.Turns.{IsTurn}
use ubuntu_daemon.Gateway.Session.Tokens.{Adapter, ConnectAuth}
use ubuntu_daemon.Gateway.Session.Wire.{
  GatewayRequest, GatewayResponse, GatewayChallenge, Codec, Received, Ending, Wire, Action, ◌>>=◌,
  ◌>>◌, write_json, read_json,
}
use ubuntu_daemon.Gateway.Session.Messages.{subscribe_request, chat_request, cloud_msg_id}
use ubuntu_daemon.Gateway.Session.Requests.{
  Link, Setting, accept_response, response_to, connected, challenge_of, signature_for,
  signed_request, complete_handshake, prepare, connect, subscribe_session_messages, send_chat,
}
use ubuntu_daemon.Gateway.Session.Chat.{reads, collect, chat}
use ubuntu_daemon.Gateway.Session.Triples.{Ends_either}
use ubuntu_daemon.Gateway.Session.Rules.{prepare-Triple}
use ubuntu_daemon.Gateway.Session.Responses.{
  Found, first_answer, AgreesOnType, await_connect_lem, await_response_lem,
}

-- Where these frames are to be read, the action succeeds with the value and leaves those.
abbrev Gives {ℓ} : {A : Type ℓ} → List Received → Action A → A → List Received → Type ℓ
Gives frames m value rest =
    (w : Wire) → w.incoming ≡ frames → ((m w).0 ≡ ok value) × ((m w).1.incoming ≡ rest)

write-Gives :
    (failure : GatewayRequest → Option Text) (prefix : Text) (request : GatewayRequest)
    (frames : List Received)
    → failure request ≡ none
    → Gives frames (write_json failure prefix request) tt frames
unfolding write_json
write-Gives failure prefix request frames e w q = rw (e, write_json) (refl, q)

read-Gives :
    (ending : Ending) (prefix : Text) (f : Received) (rest : List Received)
    → Gives (f ∷ rest) (read_json ending prefix) f rest
unfolding read_json
read-Gives ending prefix f rest w q = simp (q, read_json) (refl, refl)

-- The first frame that answers a request accepts it.
pub record IsAccepted (c : Codec) (id : Text) (frames : List Received) : Type 0 where
  pub found : Found
  pub first : first_answer c id frames ≡ some found
  pub response : GatewayResponse
  pub decoded : c.response found.answer.text ≡ ok response
  pub granted : response.succeeded ≡ true

accept_response_accepts :
    (parsing rejected : Text) (r : GatewayResponse)
    → r.succeeded ≡ true
    → accept_response parsing rejected (ok r) ≡ ok r
unfolding accept_response
accept_response_accepts parsing rejected r e = ground arith

module _ (a : Adapter) (c : Codec) (link : Link) where
  connected-Gives :
      (id : Text) (frames : List Received) (grant : IsAccepted c id frames)
      → Gives frames (connected a c link id) grant.response grant.found.rest
  unfolding connected
  connected-Gives id frames y w q =
      rw (await_connect_lem a c link id w.incoming, q, y.first, y.decoded)
        (accept_response_accepts _ _ y.response y.granted, refl)

  response-Gives :
      (method id : Text) (frames : List Received) (grant : IsAccepted c id frames)
      → AgreesOnType c
      → Gives frames (response_to a c link method id) grant.response grant.found.rest
  unfolding response_to
  response-Gives method id frames y agrees w q =
      rw (await_response_lem a c link id method w.incoming w.disk agrees, q, y.first, y.decoded)
        (accept_response_accepts _ _ y.response y.granted, refl)

  prepare_incoming : (s : Setting) (w : Wire) → (prepare a c link s w).1.incoming ≡ w.incoming
  prepare_incoming s w =
      let same : Wire → Type 0 = λ out. out.incoming ≡ w.incoming in
      Ends_either (λ why. same) (λ _. same) same (prepare a c link s w) (λ out why h. h)
        (λ out value h. h)
        (prepare-Triple a c link (λ why. same) same (λ out why h. h) s (λ out h. h) w refl)

-- The gateway grants what is asked, and the device can do its part: the preparations and the
-- writes succeed, the first frame is a challenge that can be signed, and behind it the first frame
-- that answers each request accepts it, with any other frames between.
pub record Cooperates (a : Adapter) (c : Codec) (link : Link) (s : Setting) (p : ChatMessagePayload)
    (w : Wire) : Type 0 where
  pub agrees : AgreesOnType c
  pub identity : DeviceIdentity
  pub auth : ConnectAuth
  pub prepared : (prepare a c link s w).0 ≡ ok (identity, auth)
  pub writes : (r : GatewayRequest) → link.write_failure r ≡ none
  pub greeting : Received
  pub behind : List Received
  pub begins : w.incoming ≡ greeting ∷ behind
  pub challenge : GatewayChallenge
  pub challenged : challenge_of a c link greeting ≡ ok challenge
  pub signature : Text
  pub signed : signature_for a c link s identity auth challenge.nonce ≡ ok signature
  pub connects :
      IsAccepted c (signed_request a c link s identity auth challenge.nonce signature).id behind
  pub subscribes :
      IsAccepted c (subscribe_request s.times.subscribe p.session_id).id connects.found.rest
  pub sends :
      IsAccepted c (chat_request s.times.chat p (cloud_msg_id s.times p)).id subscribes.found.rest

module _ (a : Adapter) (c : Codec) (link : Link) (s : Setting) (p : ChatMessagePayload) (w : Wire)
    (h : Cooperates a c link s p w) where
  open h use {
    agrees, identity, auth, prepared, writes, greeting, behind, begins, challenge, challenged,
    signature, signed, connects, subscribes, sends,
  }

  handshake-Gives :
      Gives (greeting ∷ behind) (complete_handshake a c link s identity auth) tt connects.found.rest
  unfolding complete_handshake ◌>>◌ ◌>>=◌
  handshake-Gives w' q =
      let (read, q₁) =
        read-Gives link.ending (lit "read connect.challenge: ") greeting behind w' q in
      let w₁ = (read_json link.ending (lit "read connect.challenge: ") w').1 in
      let request = signed_request a c link s identity auth challenge.nonce signature in
      let prefix = lit "send connect request: " in
      let (written, q₂) =
        write-Gives link.write_failure prefix request behind (writes request) w₁ q₁ in
      let w₂ = (write_json link.write_failure prefix request w₁).1 in
      let (granted, q₃) = connected-Gives a c link request.id behind connects w₂ q₂ in
      rw (read, challenged, signed, written, granted, complete_handshake, ◌>>=◌) (refl, q₃)

  connect-Gives :
      ((connect a c link s w).0 ≡ ok tt) × ((connect a c link s w).1.incoming ≡ connects.found.rest)
  unfolding connect ◌>>=◌
  connect-Gives =
      rw (prepared, ◌>>=◌)
        (handshake-Gives (prepare a c link s w).1 (prepare_incoming a c link s w ∙ begins))

  subscribe-Gives :
      Gives connects.found.rest
        (subscribe_session_messages a c link s p.session_id)
        tt
        subscribes.found.rest
  unfolding subscribe_session_messages ◌>>◌ ◌>>=◌
  subscribe-Gives w' q =
      let request = subscribe_request s.times.subscribe p.session_id in
      let prefix = lit "send sessions.messages.subscribe request: " in
      let (written, q₁) =
        write-Gives link.write_failure prefix request connects.found.rest (writes request) w' q in
      let w₁ = (write_json link.write_failure prefix request w').1 in
      let (granted, q₂) =
        response-Gives a c link request.method request.id connects.found.rest subscribes agrees w₁
          q₁ in
      rw (written, granted, subscribe_session_messages, ◌>>=◌) (refl, q₂)

  -- The run that the gateway has named.
  abbrev pub run_of : GatewayResponse → Text
  run_of r = if is_nil r.payload then [] else c.run_id r.payload

  send-Gives :
      Gives subscribes.found.rest
        (send_chat a c link s p (cloud_msg_id s.times p))
        (run_of sends.response)
        sends.found.rest
  unfolding send_chat ◌>>◌ ◌>>=◌
  send-Gives w' q =
      let request = chat_request s.times.chat p (cloud_msg_id s.times p) in
      let prefix = lit "send chat request: " in
      let (written, q₁) =
        write-Gives link.write_failure prefix request subscribes.found.rest (writes request) w' q in
      let w₁ = (write_json link.write_failure prefix request w').1 in
      let (granted, q₂) =
        response-Gives a c link request.method request.id subscribes.found.rest sends agrees w₁
          q₁ in
      rw (written, granted, send_chat, ◌>>=◌) (refl, q₂)

  abbrev pub ids_of : Ids
  ids_of = record {
    session = p.session_id;
    run = run_of sends.response;
    cloud_msg = cloud_msg_id s.times p;
  }

  chat_result-done :
      (rs : List ChatReplyPayload) → IsTurn rs → chat_result ids_of (done rs) ≡ some (ok rs)
  unfolding chat_result
  chat_result-done [] turn = absurd turn
  chat_result-done (r ∷ rs) turn = refl

  collect-Gives :
      (sv : Services) (rs : List ChatReplyPayload) (w' : Wire)
      → w'.incoming ≡ sends.found.rest
      → collect_chat_replies sv ids_of (reads a c link sends.found.rest) ≡ done rs
      → (collect a c link sv ids_of w').0 ≡ ok rs
  unfolding collect
  collect-Gives sv rs w' q e =
      let turn =
        (collect_chat_replies-IsAnswer sv ids_of (reads a c link sends.found.rest) rs e).turn in
      simp (q, e, collect, chat_result-done rs turn) refl

  -- If the preparations and the writes of the device succeed, the gateway begins with a challenge
  -- that can be signed, the first response to each of the three requests accepts it, whatever other
  -- frames come between, and the frames behind the last response end the loop of
  -- `collectChatReplies` with replies, then `Chat` returns those replies.
  pub chat-Returns :
      (sv : Services) (rs : List ChatReplyPayload)
      → collect_chat_replies sv ids_of (reads a c link sends.found.rest) ≡ done rs
      → (chat a c link s sv p w).0 ≡ ok rs
  unfolding chat ◌>>◌ ◌>>=◌
  chat-Returns sv rs e =
      let w₁ = (connect a c link s w).1 in
      let (subscribed, q₂) = subscribe-Gives w₁ connect-Gives.1 in
      let w₂ = (subscribe_session_messages a c link s p.session_id w₁).1 in
      let (sent, q₃) = send-Gives w₂ q₂ in
      rw (connect-Gives.0, subscribed, sent, chat, ◌>>=◌) (collect-Gives sv rs _ q₃ e)

-- ===== src/Gateway/Session/Answers.antt =====
-- What `Chat` answers, and in which order it asks.
use ubuntu_daemon.Base.{ℕ, ◌≡◌, refl, Option, none, some, List, [], ◌∷◌, Text, Result, ok, err, All}
use ubuntu_daemon.Protocol.{ChatMessagePayload, ChatReplyPayload}
use ubuntu_daemon.Router.Turns.{FailsOrTurn}
use ubuntu_daemon.Gateway.Collect.{
  Services, Ids, Collected, done, stopped, waiting, collect_chat_replies, chat_result,
}
use ubuntu_daemon.Gateway.Collect.Closing.{IsAnswer, collect_chat_replies-IsAnswer}
use ubuntu_daemon.Gateway.Session.Tokens.{Adapter}
use ubuntu_daemon.Gateway.Session.Wire.{Codec, Received, Wire}
use ubuntu_daemon.Gateway.Session.Messages.{
  connect_request, subscribe_request, chat_request, cloud_msg_id,
}
use ubuntu_daemon.Gateway.Session.Requests.{Link, Setting, signed_request, connect}
use ubuntu_daemon.Gateway.Session.Granted.{All-Among, Grants}
use ubuntu_daemon.Gateway.Session.Chat.{reads, collect, chat}
use ubuntu_daemon.Gateway.Session.Triples.{Ends, Triple, bind-Triple, then-Triple}
use ubuntu_daemon.Gateway.Session.Rules.{
  prepare-Triple, subscribe-Triple, send_chat-Triple, complete_handshake-Triple,
}
use ubuntu_daemon.Gateway.Session.Asked.{
  all_requests, methods, HasAsked, Awaits, FailedAsking, AllGranted-EarlierGranted, failed, asked,
  connected-HasAsked, response_to-HasAsked,
}

module _ (c : Codec) (all : List Received) where
  -- How an answer is left: behind all requests, each accepted, and complete, with the ids of the
  -- message.
  abbrev pub Answered : Setting → ChatMessagePayload → List ChatReplyPayload → Wire → Type 0
  Answered s p rs w =
      (methods w ≡ all_requests)
      × All (λ r. Grants c all r.id) w.sent
      × ((run : Text) × IsAnswer
            (record { session = p.session_id; run = run; cloud_msg = cloud_msg_id s.times p }) rs)

module _ (a : Adapter) (c : Codec) (link : Link) (all : List Received) where
  collected-IsAnswer :
      (ids : Ids) (out : Collected)
      → ((rs : List ChatReplyPayload) → out ≡ done rs → IsAnswer ids rs)
      → (r : List ChatReplyPayload) → chat_result ids out ≡ some (ok r)
      → IsAnswer ids r
  unfolding chat_result
  collected-IsAnswer ids (done []) h r e = absurd (h [] refl).turn
  collected-IsAnswer ids (done (x ∷ xs)) h r e = h r (cc)
  collected-IsAnswer ids (stopped rs why) h r e = absurd (cc)
  collected-IsAnswer ids (waiting t) h r e = absurd (cc)

  collect-Answered :
      (s : Setting) (sv : Services) (p : ChatMessagePayload) (run : Text)
      → let ids : Ids = record {
        session = p.session_id;
        run = run;
        cloud_msg = cloud_msg_id s.times p;
      } in
        Triple
          (HasAsked c all 3)
          (collect a c link sv ids)
          (Answered c all s p)
          (FailedAsking c all)
  unfolding collect
  collect-Answered s sv p run w (m, g, u) = from (chat_result ids out) refl
    where
      ids : Ids
      ids = record { session = p.session_id; run = run; cloud_msg = cloud_msg_id s.times p }

      out : Collected
      out = collect_chat_replies sv ids (reads a c link w.incoming)

      from :
          (o : Option (Result (List ChatReplyPayload)))
          → chat_result ids out ≡ o
          → Ends (FailedAsking c all) (Answered c all s p) (collect a c link sv ids w)
      from none e = rw (e, collect) (3, m, AllGranted-EarlierGranted c all w.sent g)
      from (some (err why)) e = rw (e, collect) (3, m, AllGranted-EarlierGranted c all w.sent g)
      from (some (ok rs)) e =
          rw (e, collect)
            (
              m,
              g,
              (
                run,
                collected-IsAnswer ids out
                    (collect_chat_replies-IsAnswer sv ids (reads a c link w.incoming)) rs e,
              ),
            )

  module _ (s : Setting) (sv : Services) (p : ChatMessagePayload) where
    chat-Triple :
        Triple (HasAsked c all 0) (chat a c link s sv p) (Answered c all s p) (FailedAsking c all)
    unfolding chat connect connect_request subscribe_request chat_request
    chat-Triple =
        let Asked : ℕ → Wire → Type 0 = HasAsked c all in
        let Failed : Text → Wire → Type 0 = FailedAsking c all in
        then-Triple Failed (Asked 0) (Asked 1) (Answered c all s p) _ _
          (bind-Triple Failed (Asked 0) (λ _. Asked 0) (λ _. Asked 1) _ _
            (prepare-Triple a c link Failed (Asked 0) (failed a c link all 0) s (λ w h. h))
            (λ x.
              complete_handshake-Triple a c link Failed (Asked 0)
                (λ nonce signature.
                  Awaits c all 1 (signed_request a c link s x.0 x.1 nonce signature))
                (Asked 1) (failed a c link all 0) (failed a c link all 1) s x.0 x.1
                (λ w f rest e h. (h.0, h.1, (rw e at (h.2)).1))
                (λ nonce signature w h. asked a c link all 0 _ w refl h)
                (λ nonce signature. connected-HasAsked a c link all 1 _)))
          (then-Triple Failed (Asked 1) (Asked 2) (Answered c all s p) _ _
            (subscribe-Triple a c link Failed (Asked 1)
              (Awaits c all 2 (subscribe_request s.times.subscribe p.session_id)) (Asked 2)
              (failed a c link all 1) (failed a c link all 2) s p.session_id
              (λ w h. asked a c link all 1 _ w refl h) (response_to-HasAsked a c link all 2 _))
            (bind-Triple Failed (Asked 2) (λ _. Asked 3) (Answered c all s p) _ _
              (send_chat-Triple a c link Failed (Asked 2)
                (Awaits c all 3 (chat_request s.times.chat p (cloud_msg_id s.times p))) (Asked 3)
                (failed a c link all 2) (failed a c link all 3) s p (cloud_msg_id s.times p)
                (λ w h. asked a c link all 2 _ w refl h) (response_to-HasAsked a c link all 3 _))
              (λ run. collect-Answered s sv p run)))

module _ (a : Adapter) (c : Codec) (link : Link) where
  module _ (s : Setting) (sv : Services) (p : ChatMessagePayload) where
    -- Whatever the gateway sends: `Chat` writes its requests in the order `connect`,
    -- `sessions.messages.subscribe`, `chat.send`, each at most once, and writes the second and the
    -- third only if each one before it has been accepted: by a frame, among those that the gateway
    -- sent, of type `res` with the request's id whose response has `ok` set. If it returns replies,
    -- it has written all three and each has been accepted, and the replies are one complete,
    -- numbered turn with the id of the cloud's message.
    pub chat-Answered :
        (w : Wire)
        → w.sent ≡ []
        → Ends (FailedAsking c w.incoming) (Answered c w.incoming s p) (chat a c link s sv p w)
    chat-Answered w fresh =
        chat-Triple a c link w.incoming s sv p w (rw fresh refl, rw fresh tt, All-Among w.incoming)

    Answered-FailsOrTurn :
        (all : List Received) (out : Result (List ChatReplyPayload) × Wire)
        → Ends (FailedAsking c all) (Answered c all s p) out
        → FailsOrTurn out.0
    Answered-FailsOrTurn all (err why, w) h = tt
    Answered-FailsOrTurn all (ok rs, w) h = h.2.1.turn

    -- What the router relies on.
    pub chat-FailsOrTurn : (w : Wire) → w.sent ≡ [] → FailsOrTurn (chat a c link s sv p w).0
    chat-FailsOrTurn w fresh =
        Answered-FailsOrTurn w.incoming (chat a c link s sv p w) (chat-Answered w fresh)

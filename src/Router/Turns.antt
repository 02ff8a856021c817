-- ===== src/Router/Turns.antt =====
-- A chat message is answered by one complete turn: replies of which exactly the last is final.
use ubuntu_daemon.Base.{
  ◌≡◌, refl, true, false, ◌&&◌, some, List, [], ◌∷◌, ◌++◌, Text, Result, ok, err, inl, inr,
  Bool-cases, Option-cases,
}
use ubuntu_daemon.Text.{lit}
use ubuntu_daemon.Protocol.{Envelope, ChatMessagePayload, ChatReplyPayload}
use ubuntu_daemon.Router.{
  Body, ack, result, chat, Sent, Replies, VideoService, ImageService, MessageRouter, error_reply,
  addressed, relay, video_notice, tagged, route_image, route_chat, handle_chat,
}

abbrev pub IsTurn : List ChatReplyPayload → Type 0
IsTurn [] = ⊥
IsTurn (r ∷ []) = (r.is_final ≡ true) × (r.is_end ≡ true)
IsTurn (r ∷ s ∷ rs) = (r.is_final ≡ false) × (r.is_end ≡ false) × IsTurn (s ∷ rs)

-- An error, or a complete turn.
abbrev pub FailsOrTurn : Replies → Type 0
FailsOrTurn (err why) = Unit
FailsOrTurn (ok rs) = IsTurn rs

abbrev pub chat_of : Body → List ChatReplyPayload
chat_of (ack a) = []
chat_of (result r) = []
chat_of (chat r) = r ∷ []

abbrev pub chats : List Sent → List ChatReplyPayload
chats [] = []
chats (s ∷ ss) = chat_of s.body ++ chats ss

-- What the router relies on: the chat back ends answer by an error or by complete turns.
pub record GivesTurns (r : MessageRouter) : Type 0 where
  pub by_gateway : (p : ChatMessagePayload) → FailsOrTurn (r.gateway p)
  pub by_video :
      (v : VideoService)
      → r.video_service ≡ some v
      → (id : Text) (p : ChatMessagePayload) → FailsOrTurn (v.generate id p)
  pub by_image :
      (s : ImageService)
      → r.image_service ≡ some s
      → (id : Text) (p : ChatMessagePayload) → FailsOrTurn (s.generate id p)

IsTurn-cons :
    (r : ChatReplyPayload) (rs : List ChatReplyPayload)
    → r.is_final ≡ false
    → r.is_end ≡ false
    → IsTurn rs
    → IsTurn (r ∷ rs)
IsTurn-cons r [] f e h = absurd h
IsTurn-cons r (s ∷ rs) f e h = (f, e, h)

error_reply-IsTurn : (id session code why : Text) → IsTurn (error_reply id session code why ∷ [])
unfolding error_reply
error_reply-IsTurn id session code why = (refl, refl)

relayed-IsTurn :
    (id session : Text) (rs : List ChatReplyPayload)
    → IsTurn rs
    → IsTurn (chats (relay id session (ok rs)))
unfolding relay addressed
relayed-IsTurn id session [] h = absurd h
relayed-IsTurn id session (r ∷ []) h = h
relayed-IsTurn id session (r ∷ s ∷ rs) (f, e, h) = (f, e, relayed-IsTurn id session (s ∷ rs) h)

relay-IsTurn :
    (id session : Text) (rs : Replies) → FailsOrTurn rs → IsTurn (chats (relay id session rs))
unfolding relay
relay-IsTurn id session (err why) h =
    error_reply-IsTurn id session (lit "CHAT_EXECUTION_FAILED") why
relay-IsTurn id session (ok rs) h = relayed-IsTurn id session rs h

module _ (r : MessageRouter) (turns : GivesTurns r) (id : Text) (p : ChatMessagePayload) where
  route_image-IsTurn : IsTurn (chats (route_image r id p))
  unfolding route_image
  route_image-IsTurn = elim (Option-cases r.image_service) [
    | inl e ↦ rw (e, route_image) (relay-IsTurn id p.session_id (r.gateway p) (turns.by_gateway p))
    | inr (s, e) ↦ elim (Bool-cases (s.can_handle p)) [
      | inl can ↦
          rw (e, route_image)
            (rw can (relay-IsTurn id p.session_id (s.generate id p) (turns.by_image s e id p)))
      | inr cannot ↦
          rw (e, route_image)
            (rw cannot (relay-IsTurn id p.session_id (r.gateway p) (turns.by_gateway p)))
    ]
  ]

  route_chat-IsTurn : IsTurn (chats (route_chat r id p))
  unfolding route_chat
  route_chat-IsTurn = elim (Option-cases r.video_service) [
    | inl e ↦ rw (e, route_chat) route_image-IsTurn
    | inr (v, e) ↦ elim (Bool-cases (v.enabled && v.is_video_request p.text)) [
      | inl made ↦
          rw (e, route_chat)
            (rw made (
              IsTurn-cons (video_notice id p.session_id) _ (unfold video_notice in refl)
                (unfold video_notice in refl)
                (relay-IsTurn id p.session_id (v.generate id p) (turns.by_video v e id p))))
      | inr not_made ↦ rw (e, route_chat) (rw not_made route_image-IsTurn)
    ]
  ]

-- If the back ends answer by errors or complete turns, then every chat message, one that cannot be
-- decoded included, is answered by one complete turn: at least one reply, the last of them and no
-- other marked as final and as the end, also behind the notice of a video.
pub handle_chat-IsTurn :
    (r : MessageRouter) (e : Envelope) → GivesTurns r → IsTurn (chats (handle_chat r e))
unfolding handle_chat
handle_chat-IsTurn r e turns = from (r.decode_chat e.payload) refl
  where
    from :
        (d : Result ChatMessagePayload)
        → r.decode_chat e.payload ≡ d
        → IsTurn (chats (handle_chat r e))
    from (err why) q =
        rw (q, handle_chat) (error_reply-IsTurn e.msg_id [] (lit "INVALID_PAYLOAD") why)
    from (ok p) q = rw (q, handle_chat) (route_chat-IsTurn r turns e.msg_id (tagged e.msg_id p))

-- ===== src/Router/Laws.antt =====
-- What the router sends back.
use ubuntu_daemon.Base.{
  ◌≡◌, ◌≢◌, inl, inr, refl, ◌&&◌, [], ◌∷◌, arith, Text, Result, ok, err, All, Bool-cases,
  Option-cases, if◌then◌else◌,
}
use ubuntu_daemon.Text.{lit, text_eq}
use ubuntu_daemon.Protocol.{
  Envelope, ChatMessagePayload, ChatReplyPayload, type_sys_config, type_sys_config_ack,
  type_chat_msg, type_chat_reply, type_remote_cmd, type_remote_cmd_result,
}
use ubuntu_daemon.Router.{
  Body, ack, result, chat, Sent, Replies, MessageRouter, handle_sys_config, handle_remote_cmd,
  error_reply, addressed, relay, video_notice, tagged, route_image, route_chat, handle_chat, handle,
}

-- The types of message that an incoming type is answered by.
abbrev pub answer_kind : Text → Text
answer_kind kind =
    if text_eq kind type_sys_config
    then type_sys_config_ack
    else if text_eq kind type_remote_cmd
    then type_remote_cmd_result
    else type_chat_reply

-- A chat reply is for the message with this id, from someone.
abbrev pub IsFor : Text → Body → Type 0
IsFor id (ack a) = Unit
IsFor id (result r) = Unit
IsFor id (chat r) = (r.request_msg_id ≡ id) × (r.role ≢ [])

abbrev pub AnswersWith : Envelope → Text → Sent → Type 0
AnswersWith e kind s = (s.msg_id ≡ e.msg_id) × (s.kind ≡ kind) × IsFor e.msg_id s.body

error_reply-IsFor : (id session code why : Text) → IsFor id (chat (error_reply id session code why))
unfolding error_reply lit
error_reply-IsFor id session code why = ground arith

addressed-IsFor :
    (id session : Text) (r : ChatReplyPayload) → IsFor id (chat (addressed id session r))
unfolding addressed lit
addressed-IsFor id session r = ground arith

abbrev IsReply : Text → Sent → Type 0
IsReply id s = (s.msg_id ≡ id) × (s.kind ≡ type_chat_reply) × IsFor id s.body

relay-IsReply : (id session : Text) (rs : Replies) → All (IsReply id) (relay id session rs)
unfolding relay
relay-IsReply id session (err why) =
    ((refl, refl, error_reply-IsFor id session (lit "CHAT_EXECUTION_FAILED") why), tt)
relay-IsReply id session (ok []) = tt
relay-IsReply id session (ok (r ∷ rs)) =
    ((refl, refl, addressed-IsFor id session r), relay-IsReply id session (ok rs))

video_notice-IsFor : (id session : Text) → IsFor id (chat (video_notice id session))
unfolding video_notice lit
video_notice-IsFor id session = ground arith

route_image-IsReply :
    (r : MessageRouter) (id : Text) (p : ChatMessagePayload) → All (IsReply id) (route_image r id p)
unfolding route_image
route_image-IsReply r id p = elim (Option-cases r.image_service) [
  | inl e ↦ rw (e, route_image) (relay-IsReply id p.session_id (r.gateway p))
  | inr (s, e) ↦
      rw (e, route_image)
        (relay-IsReply id p.session_id (if s.can_handle p then s.generate id p else r.gateway p))
]

route_chat-IsReply :
    (r : MessageRouter) (id : Text) (p : ChatMessagePayload) → All (IsReply id) (route_chat r id p)
unfolding route_chat
route_chat-IsReply r id p = elim (Option-cases r.video_service) [
  | inl e ↦ rw (e, route_chat) (route_image-IsReply r id p)
  | inr (v, e) ↦ elim (Bool-cases (v.enabled && v.is_video_request p.text)) [
    | inl made ↦
        rw (e, route_chat)
          (rw made (
            (refl, refl, video_notice-IsFor id p.session_id),
            relay-IsReply id p.session_id (v.generate id p),
          ))
    | inr not_made ↦ rw (e, route_chat) (rw not_made (route_image-IsReply r id p))
  ]
]

handle_chat-IsReply : (r : MessageRouter) (e : Envelope) → All (IsReply e.msg_id) (handle_chat r e)
unfolding handle_chat
handle_chat-IsReply r e = from (r.decode_chat e.payload) refl
  where
    from :
        (d : Result ChatMessagePayload)
        → r.decode_chat e.payload ≡ d
        → All (IsReply e.msg_id) (handle_chat r e)
    from (err why) q =
        rw (q, handle_chat)
          ((refl, refl, error_reply-IsFor e.msg_id [] (lit "INVALID_PAYLOAD") why), tt)
    from (ok p) q = rw (q, handle_chat) (route_chat-IsReply r e.msg_id (tagged e.msg_id p))

handle_sys_config-AnswersWith :
    (r : MessageRouter) (e : Envelope)
    → All (AnswersWith e type_sys_config_ack) (handle_sys_config r e)
unfolding handle_sys_config
handle_sys_config-AnswersWith r e = ground arith

handle_remote_cmd-AnswersWith :
    (r : MessageRouter) (e : Envelope)
    → All (AnswersWith e type_remote_cmd_result) (handle_remote_cmd r e)
unfolding handle_remote_cmd
handle_remote_cmd-AnswersWith r e = ground arith

-- Whatever arrives and whatever the services answer, each message that goes out carries the id of
-- the message that came in and the type that answers its type, and a chat reply names that id and
-- a role.
pub handle-AnswersWith :
    (r : MessageRouter) (e : Envelope) → All (AnswersWith e (answer_kind e.kind)) (handle r e)
unfolding handle
handle-AnswersWith r e = elim (Bool-cases (text_eq e.kind type_sys_config)) [
  | inl a ↦ rw (a, handle) (handle_sys_config-AnswersWith r e)
  | inr a ↦ elim (Bool-cases (text_eq e.kind type_remote_cmd)) [
    | inl b ↦ rw (a, b, handle) (handle_remote_cmd-AnswersWith r e)
    | inr b ↦ elim (Bool-cases (text_eq e.kind type_chat_msg)) [
      | inl c ↦ rw (a, b, c, handle) (handle_chat-IsReply r e)
      | inr c ↦ rw (a, b, c, handle) tt
    ]
  ]
]

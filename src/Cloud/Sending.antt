-- ===== src/Cloud/Sending.antt =====
-- internal/cloud/client.go: `SendEnvelope` and `sendAuth`, and the answers of the router over them.
-- `encoding/json` and the write of the web socket are arguments.
use ubuntu_daemon.Base.{
  ◌≡◌, refl, Bool, Option, none, some, List, [], ◌∷◌, ◌++◌, Text, Result, ok, err, All, All-append,
  Bool-cases, Option-cases, inl, inr, if◌then◌else◌,
}
use ubuntu_daemon.Base.Int.{ℤ}
use ubuntu_daemon.Text.{lit, decimal}
use ubuntu_daemon.Protocol.{Envelope, AuthRequest, type_auth_req}
use ubuntu_daemon.Router.{Body, Sent, MessageRouter, handle}
use ubuntu_daemon.Router.Laws.{AnswersWith, answer_kind, handle-AnswersWith}

-- What a send finds: whether `conn` is not nil, the time, and the error of the write, if any.
pub record Sending : Type 0 where
  pub connected : Bool
  pub now : ℤ
  pub write_failure : Envelope → Option Text

-- A payload that is nil is `none`; another is its JSON.
unfoldable pub envelope_of : ℤ → Text → Text → Option (Result Text) → Result Envelope
envelope_of now id kind none =
    ok (record { msg_id = id; kind = kind; timestamp = now; payload = [] })
envelope_of now id kind (some (err why)) = err why
envelope_of now id kind (some (ok raw)) =
    ok (record { msg_id = id; kind = kind; timestamp = now; payload = raw })

-- `writeJSON` of an envelope: the result, and what was written.
unfoldable pub write_envelope : Sending → Envelope → Result (Unit {0}) × List Envelope
write_envelope s body =
    if s.connected
    then elim (s.write_failure body) [ some why ↦ (err why, []) | none ↦ (ok tt, body ∷ []) ]
    else (err (lit "cloud websocket is not connected"), [])

unfoldable pub send_envelope :
    Sending → Text → Text → Option (Result Text) → Result (Unit {0}) × List Envelope
send_envelope s id kind payload = elim (envelope_of s.now id kind payload) [
  | err why ↦ (err why, [])
  | ok body ↦ write_envelope s body
]

unfoldable pub send_auth :
    (AuthRequest → Result Text) → AuthRequest → Sending → Result (Unit {0}) × List Envelope
send_auth marshal request s =
    send_envelope s (lit "auth-" ++ decimal s.now) type_auth_req (some (marshal request))

-- `reply`, once for each answer: a send that fails is only logged.
unfoldable pub reply_all : (Body → Result Text) → (Sent → Sending) → List Sent → List Envelope
reply_all marshal at [] = []
reply_all marshal at (m ∷ ms) =
    (send_envelope (at m) m.msg_id m.kind (some (marshal m.body))).1 ++ reply_all marshal at ms

-- The envelope is of the answer's message and type.
abbrev pub IsAnswer : Text → Text → Envelope → Type 0
IsAnswer id kind e = (e.msg_id ≡ id) × (e.kind ≡ kind)

write_envelope-All :
    (P : Envelope → Type 0) (s : Sending) (body : Envelope)
    → P body
    → All P (write_envelope s body).1
unfolding write_envelope
write_envelope-All P s body h = elim (Bool-cases s.connected) [
  | inr down ↦ rw (down, write_envelope) tt
  | inl up ↦ elim (Option-cases (s.write_failure body)) [
    | inl fine ↦ rw (up, write_envelope) (rw fine (h, tt))
    | inr (why, bad) ↦ rw (up, write_envelope) (rw bad tt)
  ]
]

send_envelope-All :
    (id kind : Text) (s : Sending) (payload : Option (Result Text))
    → All (IsAnswer id kind) (send_envelope s id kind payload).1
unfolding send_envelope envelope_of
send_envelope-All id kind s none = write_envelope-All (IsAnswer id kind) s _ (refl, refl)
send_envelope-All id kind s (some (err why)) = tt
send_envelope-All id kind s (some (ok raw)) = write_envelope-All (IsAnswer id kind) s _ (refl, refl)

module _ (e : Envelope) (kind : Text) (marshal : Body → Result Text) (at : Sent → Sending) where
  reply_all-All :
      (ms : List Sent)
      → All (AnswersWith e kind) ms
      → All (IsAnswer e.msg_id kind) (reply_all marshal at ms)
  unfolding reply_all
  reply_all-All [] h = tt
  reply_all-All (m ∷ ms) ((id, k, body), h) =
      All-append (IsAnswer e.msg_id kind) _ (reply_all marshal at ms)
        (simp (id, k) (send_envelope-All e.msg_id kind (at m) (some (marshal m.body))))
        (reply_all-All ms h)

-- Whatever of the router's answers reaches the cloud carries the id of the message that it answers,
-- and the type that answers the message's type, whichever of the sends fail.
pub reply_all-IsAnswer :
    (r : MessageRouter) (e : Envelope) (marshal : Body → Result Text) (at : Sent → Sending)
    → All (IsAnswer e.msg_id (answer_kind e.kind)) (reply_all marshal at (handle r e))
reply_all-IsAnswer r e marshal at =
    reply_all-All e (answer_kind e.kind) marshal at (handle r e) (handle-AnswersWith r e)

-- ===== src/Gateway/Collect/Closing.antt =====
-- The closed turn: what `collectChatReplies` and `Chat` return.
use mathlib.Core.Path.{subst}
use ubuntu_daemon.Base.{
  ℕ, suc, ◌≡◌, ◌≢◌, refl, true, some, List, [], ◌∷◌, arith, Result, ok, err, inl, inr, All,
  Bool-cases, Option-cases,
}
use ubuntu_daemon.Text.{lit, is_blank, text_eq_iff}
use ubuntu_daemon.Json.{Fields}
use ubuntu_daemon.Protocol.{ChatAttachment, ChatReplyPayload}
use ubuntu_daemon.Router.Turns.{IsTurn, FailsOrTurn}
use ubuntu_daemon.Gateway.Events.{is_terminal_chat_event, finish_reason}
use ubuntu_daemon.Gateway.Collect.{
  Read, cancelled, failed, garbled, frame, Services, Ids, Turn, new_turn, mark_failures, attach,
  mark_missing, event_errors, close_reply, on_last, settle, finish, matched, note_event, Collected,
  done, stopped, waiting, collect_from, collect_chat_replies, chat_result,
}
use ubuntu_daemon.Gateway.Collect.Numbering.{
  Numbered, IsOwn, IsOpen, IsOpenReply, settle-IsOpen, settle-ne-nil, note_event-IsOpen,
  new_turn-IsOpen,
}

-- The fields that closing a reply leaves alone, and the marks.
abbrev SameReply : ChatReplyPayload → ChatReplyPayload → Type 0
SameReply r s =
    (s.request_msg_id ≡ r.request_msg_id)
    × (s.run_id ≡ r.run_id)
    × (s.role ≡ r.role)
    × (s.chunk_seq ≡ r.chunk_seq)
    × (s.is_final ≡ r.is_final)
    × (s.is_end ≡ r.is_end)

mark_failures-SameReply :
    (uploaded : List ChatAttachment) (r : ChatReplyPayload) → SameReply r (mark_failures uploaded r)
unfolding mark_failures
mark_failures-SameReply uploaded r = ground arith

attach-SameReply :
    (uploaded : List ChatAttachment) (r : ChatReplyPayload) → SameReply r (attach uploaded r)
unfolding attach
attach-SameReply [] r = (refl, refl, refl, refl, refl, refl)
attach-SameReply (a ∷ rest) r = mark_failures-SameReply (a ∷ rest) _

mark_missing-SameReply : (r : ChatReplyPayload) → SameReply r (mark_missing r)
unfolding mark_missing
mark_missing-SameReply r = ground arith

event_errors-SameReply : (fs : Fields) (r : ChatReplyPayload) → SameReply r (event_errors fs r)
unfolding event_errors
event_errors-SameReply fs r = ground arith

mark_missing_lem :
    (s : ChatReplyPayload)
    → is_blank (mark_missing s).text ≡ true
    → (mark_missing s).attachments ≡ []
    → (mark_missing s).finish_reason ≢ lit "stop"
unfolding mark_missing lit
mark_missing_lem s b a e = ground (arith, text_eq_iff s.finish_reason (lit "stop"))

-- A reply that succeeds says something: a reply with no text and no attachment does not end with
-- the reason `stop`.
abbrev pub SaysSomething : ChatReplyPayload → Type 0
SaysSomething r = is_blank r.text ≡ true → r.attachments ≡ [] → r.finish_reason ≢ lit "stop"

event_errors-SaysSomething :
    (fs : Fields) (s : ChatReplyPayload) → SaysSomething s → SaysSomething (event_errors fs s)
unfolding event_errors
event_errors-SaysSomething fs s h b a e = h (ground arith) (ground arith) (ground arith)

module _ (fs : Fields) (uploaded : List ChatAttachment) (r : ChatReplyPayload) where
  abbrev marked : ChatReplyPayload
  marked = record r { is_final = true; is_end = true; finish_reason = finish_reason fs }

  close_reply-SameReply : SameReply marked (close_reply fs uploaded r)
  unfolding close_reply
  close_reply-SameReply = ground (
    arith,
    attach-SameReply uploaded marked,
    mark_missing-SameReply (attach uploaded marked),
    event_errors-SameReply fs (mark_missing (attach uploaded marked)),
  )

  close_reply-SaysSomething : SaysSomething (close_reply fs uploaded r)
  unfolding close_reply
  close_reply-SaysSomething =
      event_errors-SaysSomething fs (mark_missing (attach uploaded marked))
        (mark_missing_lem (attach uploaded marked))

-- The list on which closing the last reply gives a numbered, complete turn of the message's own.
module _ (ids : Ids) (fs : Fields) (uploaded : List ChatAttachment) where
  on_last-IsTurn :
      (rs : List ChatReplyPayload)
      → rs ≢ []
      → All (IsOpenReply ids) rs
      → IsTurn (on_last (close_reply fs uploaded) rs)
  unfolding on_last
  on_last-IsTurn [] ne h = absurd (ne refl)
  on_last-IsTurn (r ∷ []) ne h = ground (arith, close_reply-SameReply fs uploaded r)
  on_last-IsTurn (r ∷ s ∷ rs) ne ((f, e, o), h) = on_two (on_last-IsTurn (s ∷ rs) (λ q. cc) h)
    where
      on_two :
          IsTurn (on_last (close_reply fs uploaded) (s ∷ rs))
          → IsTurn (r ∷ on_last (close_reply fs uploaded) (s ∷ rs))
      on_two t = cons_turn _ t
        where
          cons_turn : (l : List ChatReplyPayload) → IsTurn l → IsTurn (r ∷ l)
          cons_turn [] t = absurd t
          cons_turn (a ∷ l) t = (f, e, t)

  on_last-Numbered :
      (k : ℕ) (rs : List ChatReplyPayload)
      → Numbered k rs
      → Numbered k (on_last (close_reply fs uploaded) rs)
  unfolding on_last
  on_last-Numbered k [] h = tt
  on_last-Numbered k (r ∷ []) h = (ground (arith, close_reply-SameReply fs uploaded r), tt)
  on_last-Numbered k (r ∷ s ∷ rs) (n, h) = (n, on_last-Numbered (suc k) (s ∷ rs) h)

  on_last-IsOwn :
      (rs : List ChatReplyPayload)
      → All (IsOpenReply ids) rs
      → All (IsOwn ids) (on_last (close_reply fs uploaded) rs)
  unfolding on_last
  on_last-IsOwn [] h = tt
  on_last-IsOwn (r ∷ []) h = ground (arith, close_reply-SameReply fs uploaded r)
  on_last-IsOwn (r ∷ s ∷ rs) ((f, e, o), h) = (o, on_last-IsOwn (s ∷ rs) h)

  on_last-SaysSomething :
      (rs : List ChatReplyPayload)
      → All (IsOpenReply ids) rs
      → All (λ r. r.is_final ≡ true → SaysSomething r) (on_last (close_reply fs uploaded) rs)
  unfolding on_last
  on_last-SaysSomething [] h = tt
  on_last-SaysSomething (r ∷ []) h = (λ _. close_reply-SaysSomething fs uploaded r, tt)
  on_last-SaysSomething (r ∷ s ∷ rs) ((f, e, o), h) =
      (λ q. absurd (cc), on_last-SaysSomething (s ∷ rs) h)

-- What is promised of the replies of a turn.
pub record IsAnswer (ids : Ids) (rs : List ChatReplyPayload) : Type 0 where
  pub turn : IsTurn rs
  pub numbered : Numbered 0 rs
  pub own : All (IsOwn ids) rs
  pub says : All (λ r. r.is_final ≡ true → SaysSomething r) rs

module _ (sv : Services) (ids : Ids) where
  finish-IsAnswer : (fs : Fields) (t : Turn) → IsOpen ids t → IsAnswer ids (finish sv ids fs t)
  unfolding finish
  finish-IsAnswer fs t h =
      let open_ = settle-IsOpen ids sv t h in
      let uploaded = sv.upload (settle sv ids t).attachments in
      let rs = (settle sv ids t).replies in
      record {
        turn = on_last-IsTurn ids fs uploaded rs (settle-ne-nil ids sv t) open_.own;
        numbered = on_last-Numbered ids fs uploaded 0 rs open_.numbered;
        own = on_last-IsOwn ids fs uploaded rs open_.own;
        says = on_last-SaysSomething ids fs uploaded rs open_.own;
      }

  collect_from-IsAnswer :
      (reads : List Read) (t : Turn) (rs : List ChatReplyPayload)
      → IsOpen ids t
      → collect_from sv ids t reads ≡ done rs
      → IsAnswer ids rs
  unfolding collect_from
  collect_from-IsAnswer [] t rs h e = absurd (cc)
  collect_from-IsAnswer (cancelled why ∷ reads) t rs h e = absurd (cc)
  collect_from-IsAnswer (failed why ∷ reads) t rs h e = absurd (cc)
  collect_from-IsAnswer (garbled ∷ reads) t rs h e = collect_from-IsAnswer reads t rs h e
  collect_from-IsAnswer (frame f ∷ reads) t rs h e = elim (Option-cases (matched ids f)) [
    | inl m ↦ collect_from-IsAnswer reads t rs h (rw (m, collect_from) at e)
    | inr (fs, m) ↦
        let t' = note_event sv ids fs t in
        let h' : IsOpen ids t' = note_event-IsOpen ids sv fs t h in
        elim (Bool-cases (is_terminal_chat_event f.event fs)) [
          | inl ends ↦
              let same : finish sv ids fs t' ≡ rs = cc (rw (m, ends, collect_from) at e) in
              subst (IsAnswer ids) same (finish-IsAnswer fs t' h')
          | inr goes_on ↦ collect_from-IsAnswer reads t' rs h' (rw (m, goes_on, collect_from) at e)
        ]
  ]

  -- Whatever the gateway sends, in whatever order, and whatever the transcript and the uploads give:
  -- if the loop returns replies, they are one complete turn, with the last reply and no other final,
  -- they are numbered 1, 2, … in order, each carries the ids of the request, and the final reply
  -- does not claim success with neither text nor attachment.
  pub collect_chat_replies-IsAnswer :
      (reads : List Read) (rs : List ChatReplyPayload)
      → collect_chat_replies sv ids reads ≡ done rs
      → IsAnswer ids rs
  unfolding collect_chat_replies
  collect_chat_replies-IsAnswer reads rs e =
      collect_from-IsAnswer reads new_turn rs (new_turn-IsOpen ids) e

chat_result_of_turns :
    (ids : Ids) (c : Collected) (r : Result (List ChatReplyPayload))
    → ((rs : List ChatReplyPayload) → c ≡ done rs → IsTurn rs)
    → chat_result ids c ≡ some r
    → FailsOrTurn r
unfolding chat_result
chat_result_of_turns ids (done []) r h e = absurd (h [] refl)
chat_result_of_turns ids (done (x ∷ xs)) r h e =
    let same : ok (x ∷ xs) ≡ r = cc in subst FailsOrTurn same (h (x ∷ xs) refl)
chat_result_of_turns ids (stopped rs why) r h e =
    let same : err why ≡ r = cc in subst FailsOrTurn same tt
chat_result_of_turns ids (waiting t) r h e = absurd (cc)

-- `Chat` answers by an error or by a complete turn, whatever it reads: this is what the router
-- relies on.
pub chat_result-FailsOrTurn :
    (sv : Services) (ids : Ids) (reads : List Read) (r : Result (List ChatReplyPayload))
    → chat_result ids (collect_chat_replies sv ids reads) ≡ some r
    → FailsOrTurn r
chat_result-FailsOrTurn sv ids reads r e =
    chat_result_of_turns ids (collect_chat_replies sv ids reads) r
      (λ rs q. (collect_chat_replies-IsAnswer sv ids reads rs q).turn) e

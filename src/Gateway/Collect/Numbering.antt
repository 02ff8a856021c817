-- ===== src/Gateway/Collect/Numbering.antt =====
-- The replies of a turn: numbered from 1, for the message that asked, and closed by the last one.
use ubuntu_daemon.Base.{
  ℕ, suc, ◌+◌, ◌≡◌, ◌≢◌, refl, ap, ◌∙◌, sym, Bool, true, false, List, [], ◌∷◌, ◌++◌, arith, Text,
  Result, ok, err, inl, inr, length, length-append, All, All-append, is_nil, Bool-cases,
  if◌then◌else◌,
}
use ubuntu_daemon.Base.Int.{pos}
use ubuntu_daemon.Text.{lit, is_blank}
use ubuntu_daemon.Json.{Fields}
use ubuntu_daemon.Protocol.{ChatAttachment, ChatReplyPayload}
use ubuntu_daemon.Gateway.Events.{ChatTextMode, nothing, delta, snapshot, extract_chat_text}
use ubuntu_daemon.Gateway.Collect.{
  Services, Ids, Turn, new_turn, reply_of, emit, emit_if_any, add_text, note_session, note_time,
  take_snapshot, note_text, note_attachments, note_event, needs_transcript, use_transcript,
  consult_transcript, flush_snapshot, ensure_reply, settle,
}

-- The chunk numbers count up by one from `suc k`.
abbrev pub Numbered : ℕ → List ChatReplyPayload → Type 0
Numbered k [] = Unit
Numbered k (r ∷ rs) = (r.chunk_seq ≡ pos (suc k)) × Numbered (suc k) rs

abbrev pub IsOwn : Ids → ChatReplyPayload → Type 0
IsOwn ids r = (r.request_msg_id ≡ ids.cloud_msg) × (r.run_id ≡ ids.run) × (r.role ≡ lit "assistant")

abbrev pub IsOpenReply : Ids → ChatReplyPayload → Type 0
IsOpenReply ids r = (r.is_final ≡ false) × (r.is_end ≡ false) × IsOwn ids r

-- What holds of the variables before the last reply is closed.
pub record IsOpen (ids : Ids) (t : Turn) : Type 0 where
  pub numbered : Numbered 0 t.replies
  pub counted : t.chunk_seq ≡ length t.replies
  pub own : All (IsOpenReply ids) t.replies

Numbered-concat :
    (k : ℕ) (rs : List ChatReplyPayload) (r : ChatReplyPayload)
    → Numbered k rs
    → r.chunk_seq ≡ pos (suc (k + length rs))
    → Numbered k (rs ++ (r ∷ []))
Numbered-concat k [] r h e = (ground arith, tt)
Numbered-concat k (s ∷ rs) r (e', h) e = (e', Numbered-concat (suc k) rs r h (ground arith))

module _ (ids : Ids) where
  emit-IsOpen : (text : Text) (t : Turn) → IsOpen ids t → IsOpen ids (emit ids text t)
  unfolding emit
  emit-IsOpen text t h = record {
    numbered =
        Numbered-concat 0 t.replies (reply_of ids text (suc t.chunk_seq)) h.numbered
          (ground (arith, h.counted));
    counted =
        omega
          (arith, h.counted, length-append t.replies (reply_of ids text (suc t.chunk_seq) ∷ []));
    own =
        All-append (IsOpenReply ids) t.replies (reply_of ids text (suc t.chunk_seq) ∷ []) h.own
          ((refl, refl, (refl, refl, refl)), tt);
  }

  emit_if_any-IsOpen : (text : Text) (t : Turn) → IsOpen ids t → IsOpen ids (emit_if_any ids text t)
  unfolding emit_if_any
  emit_if_any-IsOpen [] t h = h
  emit_if_any-IsOpen (c ∷ s) t h = emit-IsOpen (c ∷ s) t h

  -- A step that only touches other variables.
  same_replies-IsOpen :
      (t t' : Turn)
      → t'.replies ≡ t.replies
      → t'.chunk_seq ≡ t.chunk_seq
      → IsOpen ids t
      → IsOpen ids t'
  same_replies-IsOpen t t' e f h = record {
    numbered = rw e h.numbered;
    counted = f ∙ h.counted ∙ ap length (sym e);
    own = rw e h.own;
  }

  add_text-IsOpen :
      (base text : Text) (t : Turn) → IsOpen ids t → IsOpen ids (add_text ids base text t)
  unfolding add_text
  add_text-IsOpen base text t h = emit_if_any-IsOpen _ _ (same_replies-IsOpen t _ refl refl h)

  module _ (sv : Services) where
    take_snapshot-IsOpen :
        (fs : Fields) (raw : Text) (t : Turn)
        → IsOpen ids t
        → IsOpen ids (take_snapshot sv ids fs raw t)
    unfolding take_snapshot
    take_snapshot-IsOpen fs raw t h =
        same_replies-IsOpen t (take_snapshot sv ids fs raw t) (ground arith) (ground arith) h

    note_text-IsOpen : (fs : Fields) (t : Turn) → IsOpen ids t → IsOpen ids (note_text sv ids fs t)
    unfolding note_text
    note_text-IsOpen fs t h = from (extract_chat_text fs).1 refl
      where
        from :
            (m : ChatTextMode) → (extract_chat_text fs).1 ≡ m → IsOpen ids (note_text sv ids fs t)
        from delta e =
            rw (e, note_text) (add_text-IsOpen t.assembled_text (extract_chat_text fs).0 t h)
        from snapshot e = rw (e, note_text) (take_snapshot-IsOpen fs (extract_chat_text fs).0 t h)
        from nothing e = rw (e, note_text) h

    replies-note_session :
        (fs : Fields) (t : Turn)
        → ((note_session ids fs t).replies ≡ t.replies)
          × ((note_session ids fs t).chunk_seq ≡ t.chunk_seq)
    unfolding note_session
    replies-note_session fs t = ground arith

    replies-note_time :
        (fs : Fields) (t : Turn)
        → ((note_time sv fs t).replies ≡ t.replies) × ((note_time sv fs t).chunk_seq ≡ t.chunk_seq)
    unfolding note_time
    replies-note_time fs t = ground arith

    pub note_event-IsOpen :
        (fs : Fields) (t : Turn) → IsOpen ids t → IsOpen ids (note_event sv ids fs t)
    unfolding note_event note_attachments
    note_event-IsOpen fs t h =
        let t₁ = note_session ids fs t in
        let t₂ = note_time sv fs t₁ in
        let h₁ : IsOpen ids t₁ =
          same_replies-IsOpen t t₁ (replies-note_session fs t).0 (replies-note_session fs t).1 h in
        let h₂ : IsOpen ids t₂ =
          same_replies-IsOpen t₁ t₂ (replies-note_time fs t₁).0 (replies-note_time fs t₁).1 h₁ in
        same_replies-IsOpen (note_text sv ids fs t₂) _ refl refl (note_text-IsOpen fs t₂ h₂)

    use_transcript-IsOpen :
        (text : Text) (found : List ChatAttachment) (t : Turn)
        → IsOpen ids t
        → IsOpen ids (use_transcript ids text found t)
    unfolding use_transcript
    use_transcript-IsOpen text found t h =
        let base =
          if is_blank t.assembled_text then t.pending_snapshot_text else t.assembled_text in
        elim (Bool-cases (is_blank base)) [
          | inl e ↦ rw e (same_replies-IsOpen t _ refl refl h)
          | inr e ↦ rw e (add_text-IsOpen base text _ (same_replies-IsOpen t _ refl refl h))
        ]

    consult_transcript-IsOpen : (t : Turn) → IsOpen ids t → IsOpen ids (consult_transcript sv ids t)
    unfolding consult_transcript
    consult_transcript-IsOpen t h =
        from (needs_transcript t) (sv.transcript t.openclaw_session_id t.min_assistant_after_ms)
          refl refl
      where
        from :
            (needed : Bool) (found : Result (Text × List ChatAttachment))
            → needs_transcript t ≡ needed
            → sv.transcript t.openclaw_session_id t.min_assistant_after_ms ≡ found
            → IsOpen ids (consult_transcript sv ids t)
        from false found n e = rw (n, consult_transcript) h
        from true (err why) n e = rw (n, e, consult_transcript) h
        from true (ok (text, found)) n e =
            rw (n, e, consult_transcript)
              (elim (Bool-cases (is_blank text)) [
                | inl b ↦ rw b h
                | inr b ↦ rw b (use_transcript-IsOpen text found t h)
              ])

    flush_snapshot-IsOpen : (t : Turn) → IsOpen ids t → IsOpen ids (flush_snapshot ids t)
    unfolding flush_snapshot
    flush_snapshot-IsOpen t h = elim (Bool-cases (is_nil t.pending_snapshot_text)) [
      | inl p ↦ rw (p, flush_snapshot) h
      | inr p ↦ elim (Bool-cases (is_nil t.replies)) [
        | inl n ↦
            rw (p, n, flush_snapshot)
              (record {
                numbered = (refl, tt);
                counted = omega arith;
                own = ((refl, refl, (refl, refl, refl)), tt);
              })
        | inr n ↦ elim (Bool-cases (is_blank t.assembled_text)) [
          | inl b ↦ rw (p, n, b, flush_snapshot) h
          | inr b ↦
              rw (p, n, b, flush_snapshot)
                (add_text-IsOpen t.assembled_text t.pending_snapshot_text t h)
        ]
      ]
    ]

    ensure_reply-IsOpen : (t : Turn) → IsOpen ids t → IsOpen ids (ensure_reply ids t)
    unfolding ensure_reply
    ensure_reply-IsOpen t h = elim (Bool-cases (is_nil t.replies)) [
      | inl n ↦ rw (n, ensure_reply) (emit-IsOpen [] t h)
      | inr n ↦ rw (n, ensure_reply) h
    ]

    ensure_reply-ne-nil : (t : Turn) → (ensure_reply ids t).replies ≢ []
    unfolding ensure_reply emit
    ensure_reply-ne-nil t = ground arith

    pub settle-IsOpen : (t : Turn) → IsOpen ids t → IsOpen ids (settle sv ids t)
    unfolding settle
    settle-IsOpen t h =
        ensure_reply-IsOpen _ (flush_snapshot-IsOpen _ (consult_transcript-IsOpen t h))

    pub settle-ne-nil : (t : Turn) → (settle sv ids t).replies ≢ []
    unfolding settle
    settle-ne-nil t = ensure_reply-ne-nil (flush_snapshot ids (consult_transcript sv ids t))

pub new_turn-IsOpen : (ids : Ids) → IsOpen ids new_turn
new_turn-IsOpen ids = record { numbered = tt; counted = omega arith; own = tt }

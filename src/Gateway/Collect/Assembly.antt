-- ===== src/Gateway/Collect/Assembly.antt =====
-- The texts of the replies put together against `assembledText`, the text that the loop keeps.
use mathlib.Core.Path.{subst}
use ubuntu_daemon.Base.{
  suc, ◌≡◌, refl, sym, ap, ◌∙◌, ◌⊎◌, inl, inr, Bool, true, false, List, [], ◌∷◌, ◌++◌, Option, none,
  some, if◌then◌else◌, append_assoc, append-nil, arith, Text, Result, ok, err, is_nil, Bool-cases,
  Option-cases,
}
use ubuntu_daemon.Text.{
  is_blank, trim, is_newline, has_prefix, has_prefix-append, append-after, text_eq_iff,
}
use ubuntu_daemon.Json.{Fields}
use ubuntu_daemon.Protocol.{ChatAttachment, ChatReplyPayload}
use ubuntu_daemon.Gateway.Texts.{incremental_reply_text, incremental_reply_text-append}
use ubuntu_daemon.Gateway.Events.{
  ChatTextMode, nothing, delta, snapshot, extract_chat_text, is_terminal_chat_event,
}
use ubuntu_daemon.Gateway.Collect.{
  Read, cancelled, failed, garbled, frame, Services, Ids, Turn, new_turn, reply_of, emit,
  emit_if_any, add_text, note_session, note_time, take_snapshot, note_text, note_attachments,
  note_event, needs_transcript, use_transcript, consult_transcript, flush_snapshot, ensure_reply,
  settle, matched, waiting, collect_from, collect_chat_replies,
}

-- The texts of the replies, put together.
abbrev pub texts : List ChatReplyPayload → Text
texts [] = []
texts (r ∷ rs) = r.text ++ texts rs

abbrev pub IsAssembled : Turn → Type 0
IsAssembled t = texts t.replies ≡ t.assembled_text

-- What a text makes of the text before it.
abbrev pub merge : Text → Text → Text
merge base current =
    let text = trim is_newline current in if has_prefix text base then text else base ++ text

abbrev pub merged : Text → Option Text → Text
merged base none = base
merged base (some text) = merge base text

abbrev pub delta_text : Fields → Option Text
delta_text fs = elim (extract_chat_text fs).1 [
  | delta ↦ some (extract_chat_text fs).0
  | snapshot ↦ none
  | nothing ↦ none
]

-- What the delta texts of the turn's events make of the text before them.
unfoldable pub spelled : Ids → Text → List Read → Text
spelled ids base [] = base
spelled ids base (cancelled why ∷ reads) = spelled ids base reads
spelled ids base (failed why ∷ reads) = spelled ids base reads
spelled ids base (garbled ∷ reads) = spelled ids base reads
spelled ids base (frame f ∷ reads) = elim (matched ids f) [
  | none ↦ spelled ids base reads
  | some fs ↦ spelled ids (merged base (delta_text fs)) reads
]

merge_lem : (base current : Text) → (incremental_reply_text base current).1 ≡ merge base current
unfolding incremental_reply_text
merge_lem [] current = ground (arith, has_prefix-append [] (trim is_newline current))
merge_lem (c ∷ s) current =
    let text = trim is_newline current in
    ground (
      arith,
      text_eq_iff text (c ∷ s),
      append-nil s,
      append-after text (c ∷ s),
      has_prefix-append (c ∷ s) [],
    )

texts-append : (rs ss : List ChatReplyPayload) → texts (rs ++ ss) ≡ texts rs ++ texts ss
texts-append [] ss = refl
texts-append (r ∷ rs) ss = simp (texts-append rs ss, append_assoc)

module _ (ids : Ids) where
  pub texts-emit :
      (text : Text) (t : Turn) → texts (emit ids text t).replies ≡ texts t.replies ++ text
  unfolding emit
  texts-emit text t =
      texts-append t.replies (reply_of ids text (suc t.chunk_seq) ∷ [])
      ∙ ap (λ (s : Text). texts t.replies ++ s) (append-nil text)

  texts-emit_if_any :
      (text : Text) (t : Turn) → texts (emit_if_any ids text t).replies ≡ texts t.replies ++ text
  unfolding emit_if_any
  texts-emit_if_any [] t = sym (append-nil (texts t.replies))
  texts-emit_if_any (c ∷ s) t = texts-emit (c ∷ s) t

  assembled-emit_if_any :
      (text : Text) (t : Turn) → (emit_if_any ids text t).assembled_text ≡ t.assembled_text
  unfolding emit_if_any emit
  assembled-emit_if_any text t = ground arith

  pub texts-add_text :
      (base text : Text) (t : Turn)
      → texts (add_text ids base text t).replies
        ≡ texts t.replies ++ (incremental_reply_text base text).0
  unfolding add_text
  texts-add_text base text t = texts-emit_if_any (incremental_reply_text base text).0 _

  pub assembled-add_text :
      (base text : Text) (t : Turn)
      → (add_text ids base text t).assembled_text ≡ base ++ (incremental_reply_text base text).0
  unfolding add_text
  assembled-add_text base text t =
      assembled-emit_if_any (incremental_reply_text base text).0 _
      ∙ incremental_reply_text-append base text

  add_text-IsAssembled :
      (text : Text) (t : Turn) → IsAssembled t → IsAssembled (add_text ids t.assembled_text text t)
  add_text-IsAssembled text t h =
      texts-add_text t.assembled_text text t
      ∙ ap (λ (s : Text). s ++ (incremental_reply_text t.assembled_text text).0) h
      ∙ sym (assembled-add_text t.assembled_text text t)

  module _ (sv : Services) where
    take_snapshot-IsAssembled :
        (fs : Fields) (raw : Text) (t : Turn)
        → IsAssembled t
        → IsAssembled (take_snapshot sv ids fs raw t)
    unfolding take_snapshot
    take_snapshot-IsAssembled fs raw t h = ground arith

    note_text-IsAssembled :
        (fs : Fields) (t : Turn) → IsAssembled t → IsAssembled (note_text sv ids fs t)
    unfolding note_text
    note_text-IsAssembled fs t h = from (extract_chat_text fs).1 refl
      where
        from :
            (m : ChatTextMode) → (extract_chat_text fs).1 ≡ m → IsAssembled (note_text sv ids fs t)
        from delta e = rw (e, note_text) (add_text-IsAssembled (extract_chat_text fs).0 t h)
        from snapshot e =
            rw (e, note_text) (take_snapshot-IsAssembled fs (extract_chat_text fs).0 t h)
        from nothing e = rw (e, note_text) h

    note_session-IsAssembled :
        (fs : Fields) (t : Turn) → IsAssembled t → IsAssembled (note_session ids fs t)
    unfolding note_session
    note_session-IsAssembled fs t h = ground arith

    note_time-IsAssembled :
        (fs : Fields) (t : Turn) → IsAssembled t → IsAssembled (note_time sv fs t)
    unfolding note_time
    note_time-IsAssembled fs t h = ground arith

    note_event-IsAssembled :
        (fs : Fields) (t : Turn) → IsAssembled t → IsAssembled (note_event sv ids fs t)
    unfolding note_event note_attachments
    note_event-IsAssembled fs t h =
        note_text-IsAssembled fs _ (note_time-IsAssembled fs _ (note_session-IsAssembled fs t h))

    collect_from-IsAssembled :
        (reads : List Read) (t t' : Turn)
        → IsAssembled t
        → collect_from sv ids t reads ≡ waiting t'
        → IsAssembled t'
    unfolding collect_from
    collect_from-IsAssembled [] t t' h e = let same : t ≡ t' = cc in subst IsAssembled same h
    collect_from-IsAssembled (cancelled why ∷ reads) t t' h e = absurd (cc)
    collect_from-IsAssembled (failed why ∷ reads) t t' h e = absurd (cc)
    collect_from-IsAssembled (garbled ∷ reads) t t' h e = collect_from-IsAssembled reads t t' h e
    collect_from-IsAssembled (frame f ∷ reads) t t' h e = elim (Option-cases (matched ids f)) [
      | inl m ↦ collect_from-IsAssembled reads t t' h (rw (m, collect_from) at e)
      | inr (fs, m) ↦ elim (Bool-cases (is_terminal_chat_event f.event fs)) [
        | inl ends ↦ absurd (cc (rw (m, ends, collect_from) at e))
        | inr goes_on ↦
            collect_from-IsAssembled reads (note_event sv ids fs t) t'
              (note_event-IsAssembled fs t h) (rw (m, goes_on, collect_from) at e)
      ]
    ]

    assembled-take_snapshot :
        (fs : Fields) (raw : Text) (t : Turn)
        → (take_snapshot sv ids fs raw t).assembled_text ≡ t.assembled_text
    unfolding take_snapshot
    assembled-take_snapshot fs raw t = ground arith

    assembled-noted :
        (fs : Fields) (t : Turn)
        → (note_time sv fs (note_session ids fs t)).assembled_text ≡ t.assembled_text
    unfolding note_time note_session
    assembled-noted fs t = ground arith

    note_text-Merged :
        (fs : Fields) (t : Turn)
        → (note_text sv ids fs t).assembled_text ≡ merged t.assembled_text (delta_text fs)
    unfolding note_text
    note_text-Merged fs t = from (extract_chat_text fs).1 refl
      where
        from :
            (m : ChatTextMode)
            → (extract_chat_text fs).1 ≡ m
            → (note_text sv ids fs t).assembled_text ≡ merged t.assembled_text (delta_text fs)
        from delta e =
            rw (e, note_text, delta_text)
              (assembled-add_text t.assembled_text (extract_chat_text fs).0 t
                ∙ sym (incremental_reply_text-append t.assembled_text (extract_chat_text fs).0)
                ∙ merge_lem t.assembled_text (extract_chat_text fs).0)
        from snapshot e =
            rw (e, note_text, delta_text) (assembled-take_snapshot fs (extract_chat_text fs).0 t)
        from nothing e = rw (e, note_text, delta_text) refl

    note_event-Merged :
        (fs : Fields) (t : Turn)
        → (note_event sv ids fs t).assembled_text ≡ merged t.assembled_text (delta_text fs)
    unfolding note_event note_attachments note_session note_time
    note_event-Merged fs t =
        note_text-Merged fs (note_time sv fs (note_session ids fs t))
        ∙ ap (λ (s : Text). merged s (delta_text fs)) (assembled-noted fs t)

    collect_from-Spelled :
        (reads : List Read) (t t' : Turn)
        → collect_from sv ids t reads ≡ waiting t'
        → t'.assembled_text ≡ spelled ids t.assembled_text reads
    unfolding collect_from spelled
    collect_from-Spelled [] t t' e =
        let same : t ≡ t' = cc in ap (λ (u : Turn). u.assembled_text) (sym same)
    collect_from-Spelled (cancelled why ∷ reads) t t' e = absurd (cc)
    collect_from-Spelled (failed why ∷ reads) t t' e = absurd (cc)
    collect_from-Spelled (garbled ∷ reads) t t' e = collect_from-Spelled reads t t' e
    collect_from-Spelled (frame f ∷ reads) t t' e = elim (Option-cases (matched ids f)) [
      | inl m ↦ rw (m, spelled) (collect_from-Spelled reads t t' (rw (m, collect_from) at e))
      | inr (fs, m) ↦ elim (Bool-cases (is_terminal_chat_event f.event fs)) [
        | inl ends ↦ absurd (cc (rw (m, ends, collect_from) at e))
        | inr goes_on ↦
            rw (m, spelled)
              (collect_from-Spelled reads (note_event sv ids fs t) t'
                  (rw (m, goes_on, collect_from) at e)
                ∙ ap (λ (s : Text). spelled ids s reads) (note_event-Merged fs t))
      ]
    ]

    -- As long as no terminal event has come, the texts of the replies, put together, are the text
    -- that the loop has assembled, and that is what the delta texts of the turn's events give, in
    -- their order and without the line breaks around them: a text that begins with all that came
    -- before it takes its place, and any other is put behind it.
    pub collect_chat_replies-IsAssembled :
        (reads : List Read) (t : Turn)
        → collect_chat_replies sv ids reads ≡ waiting t
        → (texts t.replies ≡ t.assembled_text) × (t.assembled_text ≡ spelled ids [] reads)
    unfolding collect_chat_replies
    collect_chat_replies-IsAssembled reads t e =
        (collect_from-IsAssembled reads new_turn t refl e, collect_from-Spelled reads new_turn t e)

    flush_snapshot-IsAssembled : (t : Turn) → IsAssembled t → IsAssembled (flush_snapshot ids t)
    unfolding flush_snapshot
    flush_snapshot-IsAssembled t h = elim (Bool-cases (is_nil t.pending_snapshot_text)) [
      | inl p ↦ rw (p, flush_snapshot) h
      | inr p ↦ elim (Bool-cases (is_nil t.replies)) [
        | inl n ↦ rw (p, n, flush_snapshot) (append-nil t.pending_snapshot_text)
        | inr n ↦ elim (Bool-cases (is_blank t.assembled_text)) [
          | inl b ↦ rw (p, n, b, flush_snapshot) h
          | inr b ↦ rw (p, n, b, flush_snapshot) (add_text-IsAssembled t.pending_snapshot_text t h)
        ]
      ]
    ]

    ensure_reply-IsAssembled : (t : Turn) → IsAssembled t → IsAssembled (ensure_reply ids t)
    unfolding ensure_reply emit
    ensure_reply-IsAssembled t h = ground (arith, texts-emit [] t, append-nil (texts t.replies))

    use_transcript-IsAssembled :
        (text : Text) (found : List ChatAttachment) (t : Turn)
        → (is_blank t.assembled_text ≡ false) ⊎ (is_blank t.pending_snapshot_text ≡ true)
        → IsAssembled t
        → IsAssembled (use_transcript ids text found t)
    unfolding use_transcript
    use_transcript-IsAssembled text found t (inl a) h = rw a (rw a (add_text-IsAssembled text _ h))
    use_transcript-IsAssembled text found t (inr p) h =
        elim (Bool-cases (is_blank t.assembled_text)) [
          | inl a ↦ rw a (rw p h)
          | inr a ↦ rw a (rw a (add_text-IsAssembled text _ h))
        ]

    consult_transcript-IsAssembled :
        (t : Turn)
        → (is_blank t.assembled_text ≡ false) ⊎ (is_blank t.pending_snapshot_text ≡ true)
        → IsAssembled t
        → IsAssembled (consult_transcript sv ids t)
    unfolding consult_transcript
    consult_transcript-IsAssembled t safe h =
        from (needs_transcript t) (sv.transcript t.openclaw_session_id t.min_assistant_after_ms)
          refl refl
      where
        from :
            (needed : Bool) (found : Result (Text × List ChatAttachment))
            → needs_transcript t ≡ needed
            → sv.transcript t.openclaw_session_id t.min_assistant_after_ms ≡ found
            → IsAssembled (consult_transcript sv ids t)
        from false found n e = rw (n, consult_transcript) h
        from true (err why) n e = rw (n, e, consult_transcript) h
        from true (ok (text, found)) n e =
            rw (n, e, consult_transcript)
              (elim (Bool-cases (is_blank text)) [
                | inl b ↦ rw b h
                | inr b ↦ rw b (use_transcript-IsAssembled text found t safe h)
              ])

    -- At the terminal event, before the last reply is closed, the replies still spell the assembled
    -- text, with the transcript and the pending snapshot taken in, if some text that is not blank
    -- had been sent before or no snapshot is pending.
    pub settle-IsAssembled :
        (t : Turn)
        → (is_blank t.assembled_text ≡ false) ⊎ (is_blank t.pending_snapshot_text ≡ true)
        → IsAssembled t
        → IsAssembled (settle sv ids t)
    unfolding settle
    settle-IsAssembled t safe h =
        ensure_reply-IsAssembled _
          (flush_snapshot-IsAssembled _ (consult_transcript-IsAssembled t safe h))

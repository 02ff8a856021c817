-- ===== src/Gateway/Collect/Losses.antt =====
-- Turns whose replies do not spell the answer: the transcript extends a snapshot that was never
-- sent, or differs from the text that was.
use ubuntu_daemon.Base.{
  ◌≡◌, ◌≢◌, refl, ap, ◌∙◌, true, false, inl, inr, Bool-cases, List, [], ◌∷◌, ◌++◌, append-nil,
  arith, Text, ok, is_nil, length, length-append, if◌then◌else◌,
}
use ubuntu_daemon.Text.{
  is_blank, is_newline, trim, text_eq_iff, has_prefix, has_prefix-append, after, append-after,
  is_blank-nil,
}
use ubuntu_daemon.Protocol.{ChatAttachment, ChatReplyPayload}
use ubuntu_daemon.Gateway.Attachments.{deduplicate_attachments}
use ubuntu_daemon.Gateway.Texts.{incremental_reply_text}
use ubuntu_daemon.Gateway.Collect.{
  Services, Ids, Turn, emit, emit_if_any, add_text, needs_transcript, use_transcript,
  consult_transcript, flush_snapshot, ensure_reply, settle,
}
use ubuntu_daemon.Gateway.Collect.Assembly.{
  IsAssembled, texts, texts-emit, texts-add_text, assembled-add_text,
}

has_prefix_self : (s : Text) → has_prefix s s ≡ true
has_prefix_self s = rw append-nil at (has_prefix-append s [])

-- A longer text is no prefix of a shorter one.
has_prefix_longer : (s base : Text) → base ≢ [] → has_prefix s (base ++ s) ≡ false
has_prefix_longer s [] b = absurd (b refl)
has_prefix_longer s (c ∷ base) b = elim (Bool-cases (has_prefix s (c ∷ (base ++ s)))) [
  | inr no_prefix ↦ no_prefix
  | inl whole ↦ absurd (
      omega (
        arith,
        ap (λ (t : Text). length t) (append-after s (c ∷ (base ++ s)) whole),
        length-append (c ∷ (base ++ s)) (after s (c ∷ (base ++ s))),
        length-append base s,
      ))
]

ne_of_is_blank : (s : Text) → is_blank s ≡ false → s ≢ []
ne_of_is_blank [] h e = cc (is_blank-nil)
ne_of_is_blank (c ∷ s) h e = cc

is_nil_of_is_blank : (s : Text) → is_blank s ≡ false → is_nil s ≡ false
is_nil_of_is_blank [] h = cc (is_blank-nil)
is_nil_of_is_blank (c ∷ s) h = refl

append_ne_nil : (s t : Text) → s ≢ [] → s ++ t ≢ []
append_ne_nil [] t h e = h refl
append_ne_nil (c ∷ s) t h e = cc

incremental_reply_text_other :
    (base text : Text)
    → base ≢ []
    → text ≢ []
    → trim is_newline text ≡ text
    → has_prefix text base ≡ false
    → (incremental_reply_text base text).0 ≡ text
unfolding incremental_reply_text
incremental_reply_text_other [] text b m e p = absurd (b refl)
incremental_reply_text_other (c ∷ s) [] b m e p = absurd (m refl)
incremental_reply_text_other (c ∷ s) (d ∷ r) b m e p =
    rw e (ground (arith, text_eq_iff (d ∷ r) (c ∷ s), has_prefix_self (c ∷ s)))

module _ (ids : Ids) where
  pending-add_text :
      (base text : Text) (t : Turn)
      → (add_text ids base text t).pending_snapshot_text ≡ t.pending_snapshot_text
  unfolding add_text emit_if_any emit
  pending-add_text base text t = ground arith

  replies_of_texts : (rs : List ChatReplyPayload) → texts rs ≢ [] → is_nil rs ≡ false
  replies_of_texts [] h = absurd (h refl)
  replies_of_texts (r ∷ rs) h = refl

  texts-ensure_reply : (t : Turn) → texts (ensure_reply ids t).replies ≡ texts t.replies
  unfolding ensure_reply
  texts-ensure_reply t = ground (arith, texts-emit ids [] t, append-nil (texts t.replies))

  -- Behind the transcript the pending snapshot is the transcript's text: it is added once more.
  texts-flushed :
      (u : Turn)
      → is_nil u.pending_snapshot_text ≡ false
      → texts u.replies ≢ []
      → is_blank u.assembled_text ≡ false
      → texts (ensure_reply ids (flush_snapshot ids u)).replies
        ≡ texts u.replies ++ (incremental_reply_text u.assembled_text u.pending_snapshot_text).0
  unfolding flush_snapshot
  texts-flushed u p r a =
      texts-ensure_reply (flush_snapshot ids u)
      ∙ rw (p, replies_of_texts u.replies r, a, flush_snapshot)
          (texts-add_text ids u.assembled_text u.pending_snapshot_text u)

  module _ (sv : Services) where
    consulted :
        (t : Turn) (text : Text) (found : List ChatAttachment)
        → needs_transcript t ≡ true
        → sv.transcript t.openclaw_session_id t.min_assistant_after_ms ≡ ok (text, found)
        → is_blank text ≡ false
        → consult_transcript sv ids t ≡ use_transcript ids text found t
    unfolding consult_transcript
    consulted t text found n e b = rw (n, e, consult_transcript) (rw b)

    -- The replies of a settled turn whose transcript was taken over a base that is not blank.
    texts-settled :
        (t : Turn) (base text : Text) (found : List ChatAttachment)
        → needs_transcript t ≡ true
        → sv.transcript t.openclaw_session_id t.min_assistant_after_ms ≡ ok (text, found)
        → is_blank text ≡ false
        → (if is_blank t.assembled_text then t.pending_snapshot_text else t.assembled_text) ≡ base
        → is_blank base ≡ false
        → is_blank (base ++ (incremental_reply_text base text).0) ≡ false
        → texts t.replies ++ (incremental_reply_text base text).0 ≢ []
        → texts (settle sv ids t).replies
          ≡ (texts t.replies ++ (incremental_reply_text base text).0)
            ++ (incremental_reply_text (base ++ (incremental_reply_text base text).0) text).0
    unfolding settle use_transcript
    texts-settled t base text found n e b q nb na ne =
        let start = record t {
          attachments = deduplicate_attachments (t.attachments ++ found);
          pending_snapshot_text = text;
          pending_snapshot_verified = true;
        } in
        let u = add_text ids base text start in
        let taken : consult_transcript sv ids t ≡ u = consulted t text found n e b ∙ rw q (rw nb) in
        let said : texts u.replies ≡ texts t.replies ++ (incremental_reply_text base text).0 =
          texts-add_text ids base text start in
        let kept : u.assembled_text ≡ base ++ (incremental_reply_text base text).0 =
          assembled-add_text ids base text start in
        let waits : u.pending_snapshot_text ≡ text = pending-add_text base text start in
        rw taken (
          texts-flushed u (rw waits (is_nil_of_is_blank text b)) (rw said ne) (rw kept na)
          ∙ rw (said, kept, waits))

    -- The replies of a turn spell a text that is not blank; the transcript is consulted at the
    -- terminal event, and its text is not blank, has no line breaks around it, and does not begin
    -- with the text that was sent. Then the transcript's text is sent twice.
    pub repeated_transcript :
        (t : Turn) (text : Text) (found : List ChatAttachment)
        → IsAssembled t
        → is_blank t.assembled_text ≡ false
        → needs_transcript t ≡ true
        → sv.transcript t.openclaw_session_id t.min_assistant_after_ms ≡ ok (text, found)
        → is_blank text ≡ false
        → is_blank (t.assembled_text ++ text) ≡ false
        → trim is_newline text ≡ text
        → has_prefix text t.assembled_text ≡ false
        → texts (settle sv ids t).replies ≡ (t.assembled_text ++ text) ++ text
    repeated_transcript t text found h a n e b w trimmed p =
        let base = t.assembled_text in
        let once : (incremental_reply_text base text).0 ≡ text =
          incremental_reply_text_other base text (ne_of_is_blank base a) (ne_of_is_blank text b)
            trimmed p in
        let twice : (incremental_reply_text (base ++ text) text).0 ≡ text =
          incremental_reply_text_other (base ++ text) text
            (append_ne_nil base text (ne_of_is_blank base a)) (ne_of_is_blank text b) trimmed
            (has_prefix_longer text base (ne_of_is_blank base a)) in
        texts-settled t base text found n e b (rw a) a (rw once w)
          (rw (once, h) (append_ne_nil base text (ne_of_is_blank base a)))
        ∙ rw (once, h) (ap (λ (s : Text). (base ++ text) ++ s) twice)

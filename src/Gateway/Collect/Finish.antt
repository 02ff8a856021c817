-- ===== src/Gateway/Collect/Finish.antt =====
-- What the terminal event does: the transcript, the pending snapshot, and the closing of the last
-- reply.
use ubuntu_daemon.Base.{
  Bool, true, ◌&&◌, ◌||◌, not, none, some, List, [], ◌∷◌, ◌++◌, Text, ok, err, is_nil,
  if◌then◌else◌,
}
use ubuntu_daemon.Base.Int.{pos, ltb_ℤ}
use ubuntu_daemon.Text.{lit, text_eq, is_blank}
use ubuntu_daemon.Json.{Fields}
use ubuntu_daemon.Protocol.{ChatAttachment, ChatReplyPayload}
use ubuntu_daemon.Gateway.Texts.{append_attachment_failure_notice}
use ubuntu_daemon.Gateway.Values.{first_string}
use ubuntu_daemon.Gateway.Events.{finish_reason}
use ubuntu_daemon.Gateway.Attachments.{deduplicate_attachments, summarize_attachment_failures}
use ubuntu_daemon.Gateway.Images.{rewrite_markdown_image_urls}
use ubuntu_daemon.Gateway.Collect.State.{Services, Ids, Turn, reply_of, emit, add_text}

unfoldable pub needs_transcript : Turn → Bool
needs_transcript t =
    not (is_blank t.openclaw_session_id)
    && (ltb_ℤ (pos 0) t.min_assistant_after_ms
        || (is_blank t.assembled_text
            || (is_blank t.pending_snapshot_text || not t.pending_snapshot_verified)))

-- The text of the transcript, which is not blank, over what has been collected.
unfoldable pub use_transcript : Ids → Text → List ChatAttachment → Turn → Turn
use_transcript ids text found t =
    let base = if is_blank t.assembled_text then t.pending_snapshot_text else t.assembled_text in
    let t' = record t {
      attachments = deduplicate_attachments (t.attachments ++ found);
      pending_snapshot_text = text;
      pending_snapshot_verified = true;
    } in
    if is_blank base then t' else add_text ids base text t'

unfoldable pub flush_snapshot : Ids → Turn → Turn
flush_snapshot ids t =
    let only = record t {
      replies = reply_of ids t.pending_snapshot_text 1 ∷ [];
      chunk_seq = 1;
      assembled_text = t.pending_snapshot_text;
    } in
    if is_nil t.pending_snapshot_text
    then t
    else if is_nil t.replies
    then only
    else if is_blank t.assembled_text
    then t
    else add_text ids t.assembled_text t.pending_snapshot_text t

unfoldable pub ensure_reply : Ids → Turn → Turn
ensure_reply ids t = if is_nil t.replies then emit ids [] t else t

abbrev unless_set : Text → Text → Text
unless_set old new = if is_blank old then new else old

-- The failure of every attachment, in the last reply.
unfoldable pub mark_failures : List ChatAttachment → ChatReplyPayload → ChatReplyPayload
mark_failures uploaded r = elim (summarize_attachment_failures uploaded) [
  | none ↦ r
  | some (code, message) ↦ record r {
    finish_reason = lit "error";
    error_code = unless_set r.error_code code;
    error_message = unless_set r.error_message message;
    text = append_attachment_failure_notice r.text message;
  }
]

unfoldable pub attach : List ChatAttachment → ChatReplyPayload → ChatReplyPayload
attach uploaded r =
    if is_nil uploaded
    then r
    else mark_failures uploaded
        (record r { text = rewrite_markdown_image_urls r.text uploaded; attachments = uploaded })

unfoldable pub mark_missing : ChatReplyPayload → ChatReplyPayload
mark_missing r =
    if is_blank r.text && (is_nil r.attachments && text_eq r.finish_reason (lit "stop"))
    then (record r {
      finish_reason = lit "error";
      error_code = lit "ASSISTANT_REPLY_MISSING";
      error_message = lit "assistant reply not available before resolve timeout";
    })
    else r

-- The code and the message of the event itself, in a reply that is an error.
unfoldable pub event_errors : Fields → ChatReplyPayload → ChatReplyPayload
event_errors fs r =
    let code = first_string fs (lit "errorCode" ∷ lit "code" ∷ []) in
    let message = first_string fs (lit "errorMessage" ∷ lit "message" ∷ lit "error" ∷ []) in
    if text_eq r.finish_reason (lit "error")
    then (record r {
      error_code = if is_nil code then r.error_code else code;
      error_message = if is_nil message then r.error_message else message;
    })
    else r

unfoldable pub close_reply : Fields → List ChatAttachment → ChatReplyPayload → ChatReplyPayload
close_reply fs uploaded r = event_errors fs (
    mark_missing (
      attach uploaded
        (record r { is_final = true; is_end = true; finish_reason = finish_reason fs })))

unfoldable pub on_last :
    (ChatReplyPayload → ChatReplyPayload) → List ChatReplyPayload → List ChatReplyPayload
on_last f [] = []
on_last f (r ∷ []) = f r ∷ []
on_last f (r ∷ s ∷ rs) = r ∷ on_last f (s ∷ rs)

module _ (sv : Services) where
  unfoldable pub consult_transcript : Ids → Turn → Turn
  consult_transcript ids t =
      if needs_transcript t
      then elim (sv.transcript t.openclaw_session_id t.min_assistant_after_ms) [
        | err why ↦ t
        | ok (text, found) ↦ if is_blank text then t else use_transcript ids text found t
      ]
      else t

  unfoldable pub settle : Ids → Turn → Turn
  settle ids t = ensure_reply ids (flush_snapshot ids (consult_transcript ids t))

  -- What the terminal event does, behind `note_event`.
  unfoldable pub finish : Ids → Fields → Turn → List ChatReplyPayload
  finish ids fs t =
      on_last (close_reply fs (sv.upload (settle ids t).attachments)) (settle ids t).replies

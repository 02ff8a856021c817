-- ===== src/Gateway/Collect/Notes.antt =====
-- What every event of the turn does to the variables of the loop, before the terminal ones.
use ubuntu_daemon.Base.{true, ◌++◌, Text, is_nil, if◌then◌else◌}
use ubuntu_daemon.Base.Int.{ltb_ℤ}
use ubuntu_daemon.Text.{trim, is_newline}
use ubuntu_daemon.Json.{Fields}
use ubuntu_daemon.Gateway.Events.{
  nothing, delta, snapshot, extract_transcript_session_id,
  extract_transcript_min_assistant_after_ms, extract_chat_text, snapshot_belongs_to_current_turn,
}
use ubuntu_daemon.Gateway.Attachments.{deduplicate_attachments}
use ubuntu_daemon.Gateway.Images.{extract_media_attachments}
use ubuntu_daemon.Gateway.Collect.State.{Services, Ids, Turn, add_text}

unfoldable pub note_session : Ids → Fields → Turn → Turn
note_session ids fs t =
    let found = extract_transcript_session_id fs ids.session in
    if is_nil found then t else record t { openclaw_session_id = found }

module _ (sv : Services) where
  unfoldable pub note_time : Fields → Turn → Turn
  note_time fs t =
      let candidate = extract_transcript_min_assistant_after_ms sv.parse_time fs in
      if ltb_ℤ t.min_assistant_after_ms candidate
      then record t { min_assistant_after_ms = candidate }
      else t

  unfoldable pub take_snapshot : Ids → Fields → Text → Turn → Turn
  take_snapshot ids fs raw t =
      let text = trim is_newline raw in
      if is_nil text
      then t
      else if snapshot_belongs_to_current_turn sv.parse_time fs ids.run t.min_assistant_after_ms
      then record t { pending_snapshot_text = text; pending_snapshot_verified = true }
      else t

  unfoldable pub note_text : Ids → Fields → Turn → Turn
  note_text ids fs t =
      let (text, mode) = extract_chat_text fs in
      elim mode [
        | delta ↦ add_text ids t.assembled_text text t
        | snapshot ↦ take_snapshot ids fs text t
        | nothing ↦ t
      ]

  unfoldable pub note_attachments : Fields → Turn → Turn
  note_attachments fs t =
      let text =
        if is_nil t.pending_snapshot_text then t.assembled_text else t.pending_snapshot_text in
      record t {
        attachments =
            deduplicate_attachments
              (t.attachments ++ extract_media_attachments sv.url_scheme fs text);
      }

  -- What every event of the turn does.
  unfoldable pub note_event : Ids → Fields → Turn → Turn
  note_event ids fs t =
      note_attachments fs (note_text ids fs (note_time fs (note_session ids fs t)))

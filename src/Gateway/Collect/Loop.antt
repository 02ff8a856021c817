-- ===== src/Gateway/Collect/Loop.antt =====
-- The loop of `collectChatReplies` over the frames, and `Chat` behind it.
use ubuntu_daemon.Base.{
  true, ◌&&◌, Option, none, some, List, [], ◌∷◌, ◌++◌, Text, Result, ok, err, is_nil, if◌then◌else◌,
}
use ubuntu_daemon.Base.Int.{pos}
use ubuntu_daemon.Text.{lit, text_eq, contains_text}
use ubuntu_daemon.Json.{Fields, end}
use ubuntu_daemon.Protocol.{ChatReplyPayload, zero_reply}
use ubuntu_daemon.Gateway.Events.{matches_chat_event, is_terminal_chat_event}
use ubuntu_daemon.Gateway.Collect.State.{
  Payload, absent, broken, fields, Frame, Read, cancelled, failed, garbled, frame, Services, Ids,
  Turn, new_turn,
}
use ubuntu_daemon.Gateway.Collect.Notes.{note_event}
use ubuntu_daemon.Gateway.Collect.Finish.{finish}

-- Frames that end the loop, go on with the turn, or are passed over.
abbrev chat_events : List Text
chat_events = lit "chat" ∷ lit "session.message" ∷ lit "agent" ∷ []

abbrev payload_map : Payload → Option Fields
payload_map absent = some end
payload_map broken = none
payload_map (fields fs) = some fs

-- The event and the map of a frame that belongs to the turn.
unfoldable pub matched : Ids → Frame → Option Fields
matched ids f = elim (payload_map f.payload) [
  | none ↦ none
  | some fs ↦
      if text_eq f.kind (lit "event")
        && (contains_text chat_events f.event && matches_chat_event fs ids.session ids.run)
      then some fs
      else none
]

-- How the loop ends: with the replies, with an error and the replies so far, or not yet, when it
-- waits for another frame.
pub data Collected : Type 0 where
  done : List ChatReplyPayload → Collected
  stopped : List ChatReplyPayload → Text → Collected
  waiting : Turn → Collected

-- The frames for which `handleControlFrame` is true, and those of another kind, are no events of
-- the turn, so `matched` passes them over too; what a control frame stores is left out.
module _ (sv : Services) (ids : Ids) where
  unfoldable pub collect_from : Turn → List Read → Collected
  collect_from t [] = waiting t
  collect_from t (cancelled why ∷ reads) = stopped [] why
  collect_from t (failed why ∷ reads) = stopped t.replies (lit "read chat event: " ++ why)
  collect_from t (garbled ∷ reads) = collect_from t reads
  collect_from t (frame f ∷ reads) = elim (matched ids f) [
    | none ↦ collect_from t reads
    | some fs ↦
        if is_terminal_chat_event f.event fs
        then done (finish sv ids fs (note_event sv ids fs t))
        else collect_from (note_event sv ids fs t) reads
  ]

  unfoldable pub collect_chat_replies : List Read → Collected
  collect_chat_replies = collect_from new_turn

-- The one reply of `Chat` where none was collected.
unfoldable pub no_events_reply : Ids → ChatReplyPayload
no_events_reply ids = record zero_reply {
  request_msg_id = ids.cloud_msg;
  run_id = ids.run;
  role = lit "assistant";
  chunk_seq = pos 1;
  is_final = true;
  is_end = true;
  finish_reason = lit "error";
  error_code = lit "CHAT_EXECUTION_FAILED";
  error_message = lit "gateway returned no chat events";
}

-- The result of `Chat` behind `collectChatReplies`; `none` while it still waits.
unfoldable pub chat_result : Ids → Collected → Option (Result (List ChatReplyPayload))
chat_result ids (done replies) =
    some (ok (if is_nil replies then no_events_reply ids ∷ [] else replies))
chat_result ids (stopped replies why) = some (err why)
chat_result ids (waiting t) = none

-- ===== src/Gateway/Collect/State.antt =====
-- The variables of `collectChatReplies`, the frames that it reads, and the appending of replies.
use ubuntu_daemon.Base.{
  ℕ, suc, Bool, false, Option, List, [], ◌∷◌, ◌++◌, Text, Result, is_nil, if◌then◌else◌,
}
use ubuntu_daemon.Base.Int.{ℤ, pos}
use ubuntu_daemon.Text.{lit}
use ubuntu_daemon.Json.{Fields}
use ubuntu_daemon.Protocol.{ChatAttachment, ChatReplyPayload, zero_reply}
use ubuntu_daemon.Gateway.Texts.{incremental_reply_text}

-- The payload of an event: left out, not a JSON object, or a map.
pub data Payload : Type 0 where
  absent broken : Payload
  fields : Fields → Payload

pub record Frame : Type 0 where
  pub kind : Text  -- Type
  pub event : Text
  pub payload : Payload

-- What `readJSON` gives: an error of the context, another error, or the bytes of a frame.
pub data Read : Type 0 where
  cancelled failed : Text → Read
  garbled : Read
  frame : Frame → Read

pub record Services : Type 0 where
  pub parse_time : Text → Option ℤ
  pub url_scheme : Text → Option Text
  pub transcript : Text → ℤ → Result (Text × List ChatAttachment)
  pub upload : List ChatAttachment → List ChatAttachment

-- The ids of the turn.
pub record Ids : Type 0 where
  pub session : Text
  pub run : Text
  pub cloud_msg : Text

pub record Turn : Type 0 where
  pub replies : List ChatReplyPayload
  pub chunk_seq : ℕ
  pub assembled_text : Text
  pub pending_snapshot_text : Text
  pub attachments : List ChatAttachment
  pub openclaw_session_id : Text
  pub min_assistant_after_ms : ℤ
  pub pending_snapshot_verified : Bool

abbrev pub new_turn : Turn
new_turn = record {
  replies = [];
  chunk_seq = 0;
  assembled_text = [];
  pending_snapshot_text = [];
  attachments = [];
  openclaw_session_id = [];
  min_assistant_after_ms = pos 0;
  pending_snapshot_verified = false;
}

abbrev pub reply_of : Ids → Text → ℕ → ChatReplyPayload
reply_of ids text seq = record zero_reply {
  request_msg_id = ids.cloud_msg;
  run_id = ids.run;
  role = lit "assistant";
  text = text;
  chunk_seq = pos seq;
}

-- `chunkSeq++` and one more reply.
unfoldable pub emit : Ids → Text → Turn → Turn
emit ids text t = record t {
  replies = t.replies ++ (reply_of ids text (suc t.chunk_seq) ∷ []);
  chunk_seq = suc t.chunk_seq;
}

unfoldable pub emit_if_any : Ids → Text → Turn → Turn
emit_if_any ids text t = if is_nil text then t else emit ids text t

-- The text of an event after `base` has been assembled.
unfoldable pub add_text : Ids → Text → Text → Turn → Turn
add_text ids base text t =
    emit_if_any ids (incremental_reply_text base text).0
      (record t { assembled_text = (incremental_reply_text base text).1 })

-- ===== src/Router.antt =====
-- internal/router/router.go: `MessageRouter.Handle`. The handlers behind it are a record of
-- functions (the interfaces `Sender`, `ChatGateway`, `VideoService`, `ImageService`, and the
-- decoding of payloads by `encoding/json`); what is sent to the cloud is a list. Log lines are left
-- out, and so is a failure of the sender, which is only logged.
pub mod Laws
pub mod Turns
use ubuntu_daemon.Base.{
  Bool, true, false, ◌&&◌, Option, none, some, List, [], ◌∷◌, ◌++◌, map, Text, Result, ok, err,
  is_nil, if◌then◌else◌,
}
use ubuntu_daemon.Base.Int.{ℤ, pos}
use ubuntu_daemon.Text.{lit, text_eq}
use ubuntu_daemon.Json.{Fields, end, str, put}
use ubuntu_daemon.Protocol.{
  Envelope, SysConfigPayload, SysConfigAckPayload, ChatMessagePayload, ChatReplyPayload,
  RemoteCmdPayload, RemoteCmdResultPayload, zero_ack, zero_reply, zero_result, type_auth_resp,
  type_pong, type_sys_config, type_sys_config_ack, type_chat_msg, type_chat_reply, type_remote_cmd,
  type_remote_cmd_result,
}

-- A message that `sender.SendEnvelope` is given: the id, and the payload, which fixes the type.
pub data Body : Type 0 where
  ack : SysConfigAckPayload → Body
  result : RemoteCmdResultPayload → Body
  chat : ChatReplyPayload → Body

pub record Sent : Type 0 where
  pub msg_id : Text
  pub kind : Text
  pub body : Body

abbrev pub Replies : Type 0
Replies = Result (List ChatReplyPayload)

pub record VideoService : Type 0 where
  pub enabled : Bool
  pub is_video_request : Text → Bool
  pub generate : Text → ChatMessagePayload → Replies

pub record ImageService : Type 0 where
  pub can_handle : ChatMessagePayload → Bool
  pub generate : Text → ChatMessagePayload → Replies

pub record MessageRouter : Type 0 where
  pub decode_sys_config : Text → Result SysConfigPayload
  pub decode_remote_cmd : Text → Result RemoteCmdPayload
  pub decode_chat : Text → Result ChatMessagePayload
  pub apply_config : SysConfigPayload → SysConfigAckPayload
  pub run_remote : RemoteCmdPayload → RemoteCmdResultPayload
  pub gateway : ChatMessagePayload → Replies
  pub video_service : Option VideoService
  pub image_service : Option ImageService
  pub daemon_version : Text

abbrev reply_chat : Text → ChatReplyPayload → Sent
reply_chat id r = record { msg_id = id; kind = type_chat_reply; body = chat r }

unfoldable pub handle_sys_config : MessageRouter → Envelope → List Sent
handle_sys_config r e = elim (r.decode_sys_config e.payload) [
  | err why ↦
      record {
        msg_id = e.msg_id;
        kind = type_sys_config_ack;
        body = ack (record zero_ack {
          status = lit "failed";
          daemon_version = r.daemon_version;
          error_code = lit "INVALID_PAYLOAD";
          error_message = why;
          message = lit "invalid sys_config payload";
        });
      }
      ∷ []
  | ok p ↦
      record { msg_id = e.msg_id; kind = type_sys_config_ack; body = ack (r.apply_config p) } ∷ []
]

unfoldable pub handle_remote_cmd : MessageRouter → Envelope → List Sent
handle_remote_cmd r e = elim (r.decode_remote_cmd e.payload) [
  | err why ↦
      record {
        msg_id = e.msg_id;
        kind = type_remote_cmd_result;
        body = result (record zero_result {
          status = lit "rejected";
          message = lit "invalid remote_cmd payload";
          error_code = lit "INVALID_PAYLOAD";
          error_message = why;
        });
      }
      ∷ []
  | ok p ↦
      record { msg_id = e.msg_id; kind = type_remote_cmd_result; body = result (r.run_remote p) }
      ∷ []
]

-- The one reply to a chat message that failed.
unfoldable pub error_reply : Text → Text → Text → Text → ChatReplyPayload
error_reply id session code why = record zero_reply {
  request_msg_id = id;
  session_id = session;
  role = lit "assistant";
  chunk_seq = pos 1;
  is_final = true;
  is_end = true;
  finish_reason = lit "error";
  error_code = code;
  error_message = why;
}

-- What the loops over the replies set in each of them.
unfoldable pub addressed : Text → Text → ChatReplyPayload → ChatReplyPayload
addressed id session r = record r {
  request_msg_id = id;
  session_id = session;
  role = if is_nil r.role then lit "assistant" else r.role;
}

unfoldable pub relay : Text → Text → Replies → List Sent
relay id session (err why) =
    reply_chat id (error_reply id session (lit "CHAT_EXECUTION_FAILED") why) ∷ []
relay id session (ok replies) = map (λ r. reply_chat id (addressed id session r)) replies

-- The notice that a video is being made.
unfoldable pub video_notice : Text → Text → ChatReplyPayload
video_notice id session = record zero_reply {
  request_msg_id = id;
  session_id = session;
  role = lit "assistant";
  text = lit "正在生成视频，预计需要几十秒，请稍候";
  chunk_seq = pos 1;
}

abbrev fields_of : Option Fields → Fields
fields_of none = end
fields_of (some fs) = fs

-- The payload with the cloud's message id in its metadata.
unfoldable pub tagged : Text → ChatMessagePayload → ChatMessagePayload
tagged id p = record p {
  metadata = some (put (fields_of p.metadata) (lit "cloud_msg_id") (str id));
}

unfoldable pub route_image : MessageRouter → Text → ChatMessagePayload → List Sent
route_image r id p = elim r.image_service [
  | none ↦ relay id p.session_id (r.gateway p)
  | some s ↦ relay id p.session_id (if s.can_handle p then s.generate id p else r.gateway p)
]

unfoldable pub route_chat : MessageRouter → Text → ChatMessagePayload → List Sent
route_chat r id p = elim r.video_service [
  | none ↦ route_image r id p
  | some v ↦
      if v.enabled && v.is_video_request p.text
      then reply_chat id (video_notice id p.session_id) ∷ relay id p.session_id (v.generate id p)
      else route_image r id p
]

unfoldable pub handle_chat : MessageRouter → Envelope → List Sent
handle_chat r e = elim (r.decode_chat e.payload) [
  | err why ↦ reply_chat e.msg_id (error_reply e.msg_id [] (lit "INVALID_PAYLOAD") why) ∷ []
  | ok p ↦ route_chat r e.msg_id (tagged e.msg_id p)
]

unfoldable pub handle : MessageRouter → Envelope → List Sent
handle r e =
    if text_eq e.kind type_sys_config
    then handle_sys_config r e
    else if text_eq e.kind type_remote_cmd
    then handle_remote_cmd r e
    else if text_eq e.kind type_chat_msg
    then handle_chat r e
    else []

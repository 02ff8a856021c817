-- ===== src/Protocol.antt =====
-- internal/protocol/messages.go: the messages between the cloud gateway and the daemon. A payload
-- that is still raw JSON is its bytes; `omitempty` is not modelled.
use ubuntu_daemon.Base.{Bool, false, Option, none, List, [], Text}
use ubuntu_daemon.Base.Int.{ℤ, pos}
use ubuntu_daemon.Json.{Fields}
use ubuntu_daemon.Text.{lit}

abbrev pub type_auth_req : Text
type_auth_req = lit "auth_req"

abbrev pub type_auth_resp : Text
type_auth_resp = lit "auth_resp"

abbrev pub type_ping : Text
type_ping = lit "ping"

abbrev pub type_pong : Text
type_pong = lit "pong"

abbrev pub type_sys_config : Text
type_sys_config = lit "sys_config"

abbrev pub type_sys_config_ack : Text
type_sys_config_ack = lit "sys_config_ack"

abbrev pub type_chat_msg : Text
type_chat_msg = lit "chat_msg"

abbrev pub type_chat_reply : Text
type_chat_reply = lit "chat_reply"

abbrev pub type_remote_cmd : Text
type_remote_cmd = lit "remote_cmd"

abbrev pub type_remote_cmd_result : Text
type_remote_cmd_result = lit "remote_cmd_result"

pub record Envelope : Type 0 where
  pub msg_id : Text
  pub kind : Text  -- Type
  pub timestamp : ℤ
  pub payload : Text

pub record AuthRequest : Type 0 where
  pub device_id : Text
  pub version : Text

pub record AuthResponse : Type 0 where
  pub code : ℤ
  pub msg : Text

pub record SysConfigPayload : Type 0 where
  pub action : Text
  pub config_version : ℤ
  pub config : List (Text × Text)

pub record SysConfigAckPayload : Type 0 where
  pub config_version : ℤ
  pub status : Text
  pub applied : Bool
  pub applied_at : ℤ
  pub daemon_version : Text
  pub message : Text
  pub error_code : Text
  pub error_message : Text

abbrev pub zero_ack : SysConfigAckPayload
zero_ack = record {
  config_version = pos 0;
  status = [];
  applied = false;
  applied_at = pos 0;
  daemon_version = [];
  message = [];
  error_code = [];
  error_message = [];
}

pub record ChatInputAttachment : Type 0 where
  pub media_id : Text
  pub media_type : Text
  pub preview_url : Text
  pub role : Text

pub record ChatMessagePayload : Type 0 where
  pub session_id : Text
  pub user_id : Text
  pub role : Text
  pub text : Text
  pub stream : Bool
  pub metadata : Option Fields  -- `none` is the nil map
  pub input_attachments : List ChatInputAttachment

pub record ChatAttachment : Type 0 where
  pub media_id : Text
  pub media_type : Text
  pub mime_type : Text
  pub preview_url : Text
  pub thumbnail_url : Text
  pub local_path : Text
  pub file_size : ℤ
  pub error_code : Text
  pub error_message : Text

abbrev pub zero_attachment : ChatAttachment
zero_attachment = record {
  media_id = [];
  media_type = [];
  mime_type = [];
  preview_url = [];
  thumbnail_url = [];
  local_path = [];
  file_size = pos 0;
  error_code = [];
  error_message = [];
}

pub record ChatReplyPayload : Type 0 where
  pub request_msg_id : Text
  pub run_id : Text
  pub session_id : Text
  pub role : Text
  pub text : Text
  pub chunk_seq : ℤ
  pub is_final : Bool
  pub is_end : Bool
  pub finish_reason : Text
  pub error_code : Text
  pub error_message : Text
  pub attachments : List ChatAttachment

abbrev pub zero_reply : ChatReplyPayload
zero_reply = record {
  request_msg_id = [];
  run_id = [];
  session_id = [];
  role = [];
  text = [];
  chunk_seq = pos 0;
  is_final = false;
  is_end = false;
  finish_reason = [];
  error_code = [];
  error_message = [];
  attachments = [];
}

pub record RemoteCmdPayload : Type 0 where
  pub command_id : Text
  pub command : Text
  pub args : List Text
  pub timeout_sec : ℤ
  pub work_dir : Text
  pub operator : Text
  pub reason : Text

pub record RemoteCmdResultPayload : Type 0 where
  pub command_id : Text
  pub status : Text
  pub exit_code : Option ℤ
  pub stdout : Text
  pub stderr : Text
  pub stdout_truncated : Bool
  pub stderr_truncated : Bool
  pub started_at : ℤ
  pub finished_at : ℤ
  pub duration_ms : ℤ
  pub message : Text
  pub error_code : Text
  pub error_message : Text

abbrev pub zero_result : RemoteCmdResultPayload
zero_result = record {
  command_id = [];
  status = [];
  exit_code = none;
  stdout = [];
  stderr = [];
  stdout_truncated = false;
  stderr_truncated = false;
  started_at = pos 0;
  finished_at = pos 0;
  duration_ms = pos 0;
  message = [];
  error_code = [];
  error_message = [];
}

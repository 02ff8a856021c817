-- ===== src/Video/Generate.antt =====
-- `Generate` and `generate`.
use ubuntu_daemon.Base.{
  ℕ, true, ◌||◌, Option, none, some, List, [], ◌∷◌, ◌++◌, Text, Result, ok, err, is_nil,
  if◌then◌else◌,
}
use ubuntu_daemon.Base.Int.{ℤ, pos, leb_ℤ, ltb_ℤ}
use ubuntu_daemon.Text.{lit, is_blank, decimal}
use ubuntu_daemon.Protocol.{
  ChatMessagePayload, ChatReplyPayload, ChatAttachment, zero_reply, zero_attachment,
}
use ubuntu_daemon.Config.{Environment, VideoConfig, join_paths}
use ubuntu_daemon.Video.Words.{normalize_prompt, is_failed_status}
use ubuntu_daemon.Video.Runtime.{RuntimeConfig, resolve_runtime_config}
use ubuntu_daemon.Video.Task.{GenerationRequest, TaskStatus, Poll, poll_task, first_reference_image}

-- What `downloadVideo` finds: the errors of its calls, and the status code of the answer.
pub record Download : Type 0 where
  pub mkdir_failure : Option Text
  pub request_failure : Option Text
  pub response : Result ℤ
  pub create_failure : Option Text
  pub copy_failure : Option Text

pub record Backend : Type 0 where
  pub environment : Environment
  pub env_file : Result Text
  pub create : GenerationRequest → Result Text
  pub started : ℕ
  pub polls : Text → List Poll
  pub retrieve : Text → Result Text
  pub download : Text → Download
  pub upload : ChatAttachment → Result ChatAttachment

unfoldable pub final_error_reply : Text → ℤ → Text → Text → ChatReplyPayload
final_error_reply session seq code why = record zero_reply {
  session_id = session;
  role = lit "assistant";
  chunk_seq = seq;
  is_final = true;
  is_end = true;
  finish_reason = lit "error";
  error_code = code;
  error_message = why;
}

unfoldable pub download_video : Download → Text → VideoConfig → Result Text
download_video d id cfg = elim d.mkdir_failure [
  | some why ↦ err (lit "create video temp dir: " ++ why)
  | none ↦ elim d.request_failure [
    | some why ↦ err (lit "build video download request: " ++ why)
    | none ↦ elim d.response [
      | err why ↦ err (lit "download video file: " ++ why)
      | ok status ↦
          if ltb_ℤ status (pos 200) || leb_ℤ (pos 300) status
          then err (lit "download video file failed http=" ++ decimal status)
          else elim d.create_failure [
            | some why ↦ err (lit "create local video file: " ++ why)
            | none ↦ elim d.copy_failure [
              | some why ↦ err (lit "write local video file: " ++ why)
              | none ↦ ok (join_paths cfg.temp_dir (id ++ lit ".mp4"))
            ]
          ]
    ]
  ]
]

-- The one reply of `generate`.
unfoldable pub success_reply : Text → ChatAttachment → ChatReplyPayload
success_reply session uploaded = record zero_reply {
  session_id = session;
  role = lit "assistant";
  text = lit "视频已生成，请查看";
  chunk_seq = pos 2;
  is_final = true;
  is_end = true;
  finish_reason = lit "stop";
  attachments = uploaded ∷ [];
}

module _ (b : Backend) (cfg : VideoConfig) (id session : Text) where
  abbrev failed : Text → Text → ChatReplyPayload
  failed code why = final_error_reply session (pos 2) code why

  unfoldable pub upload_video : Text → ChatReplyPayload
  upload_video path =
      elim (b.upload (record zero_attachment {
        media_type = lit "video";
        mime_type = lit "video/mp4";
        local_path = path;
      })) [
        | err why ↦ failed (lit "VIDEO_UPLOAD_FAILED") why
        | ok uploaded ↦
            if is_blank uploaded.preview_url || is_blank uploaded.media_id
            then failed (lit "VIDEO_UPLOAD_FAILED")
                (lit "uploaded video missing media_id or preview_url")
            else success_reply session uploaded
      ]

  unfoldable pub fetch_video : Text → ChatReplyPayload
  fetch_video file_id = elim (b.retrieve file_id) [
    | err why ↦ failed (lit "VIDEO_FILE_RETRIEVE_FAILED") why
    | ok url ↦ elim (download_video (b.download url) id cfg) [
      | err why ↦ failed (lit "VIDEO_DOWNLOAD_FAILED") why
      | ok path ↦ upload_video path
    ]
  ]

  unfoldable pub after_poll : Result TaskStatus → ChatReplyPayload
  after_poll (err why) = failed (lit "VIDEO_TASK_TIMEOUT") why
  after_poll (ok s) =
      if is_failed_status s.status
      then failed (lit "VIDEO_TASK_FAILED") (
          if is_nil s.task_id
          then lit "video task failed"
          else lit "video task " ++ (s.task_id ++ lit " failed"))
      else if is_blank s.file_id
      then failed (lit "VIDEO_FILE_RETRIEVE_FAILED")
          (lit "video task succeeded but file_id is empty")
      else fetch_video s.file_id

  abbrev request_of : RuntimeConfig → ChatMessagePayload → GenerationRequest
  request_of r p = record {
    model = r.model;
    prompt = normalize_prompt p.text;
    first_frame_image = first_reference_image p.input_attachments;
    duration = r.duration;
    resolution = r.resolution;
    prompt_optimizer = r.prompt_optimizer;
  }

  -- `none` while the task is polled.
  unfoldable pub submit : GenerationRequest → Option ChatReplyPayload
  submit request = elim (b.create request) [
    | err why ↦ some (failed (lit "VIDEO_TASK_CREATE_FAILED") why)
    | ok task_id ↦ elim (poll_task cfg task_id b.started (b.polls task_id)) [
      | none ↦ none
      | some polled ↦ some (after_poll polled)
    ]
  ]

  abbrev unsupported : Text → ChatReplyPayload
  unsupported why = final_error_reply session (pos 1) (lit "VIDEO_REQUEST_UNSUPPORTED") why

  unfoldable pub generate : ChatMessagePayload → Option ChatReplyPayload
  generate p = elim (resolve_runtime_config b.environment b.env_file cfg) [
    | err why ↦ some (unsupported why)
    | ok r ↦
        if is_nil (normalize_prompt p.text)
        then some (unsupported (lit "video prompt is empty"))
        else submit (request_of r p)
  ]

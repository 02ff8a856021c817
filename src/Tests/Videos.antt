-- ===== src/Tests/Videos.antt =====
-- A task that is polled twice and succeeds, its reply, and two calls for one request.
use ubuntu_daemon.Base.{◌≡◌, refl, true, none, some, [], ◌∷◌, Result, ok, err, arith}
use ubuntu_daemon.Base.Int
use ubuntu_daemon.Base.Int.{ℤ, pos, ◌≤ℤ◌}
use ubuntu_daemon.Text
use ubuntu_daemon.Text.{lit, is_blank}
use ubuntu_daemon.Protocol.{ChatMessagePayload, ChatAttachment}
use ubuntu_daemon.Config
use ubuntu_daemon.Config.{VideoConfig, default_config, second}
use ubuntu_daemon.Manager
use ubuntu_daemon.Video
use ubuntu_daemon.Video.{
  Backend, RuntimeConfig, TaskStatus, Poll, poll_task, generate, success_reply,
  resolve_runtime_config, called, finished, steps, no_requests,
}
use ubuntu_daemon.Video.Polling.{IsDecided, poll_task_ends}
use ubuntu_daemon.Video.Replies.{IsOutcome, generate-IsOutcome}
use ubuntu_daemon.Video.Once.{IsOnce, steps_lem}

-- All that a task computes with.
unfoldable pub run_video : Unit {0}
unfolding lit Int.signed64 Int.mul64 Text.text_eq Text.contains_text Text.has_prefix Text.has_suffix
    Text.after Text.trim_space Text.is_blank Text.drop_front Text.front_size Text.to_lower Text.cut
    Text.equal_fold Config.join_paths Config.clean Video.load_env_file Video.resolve_env_reference
    Video.first_non_empty Video.normalize_model_name Video.parse_int_or_default
    Video.resolve_runtime_config Video.first_reference_image Video.is_success_status
    Video.is_failed_status Int.add_time Video.poll_from Video.poll_task Video.download_video
    Video.upload_video Video.fetch_video Video.after_poll Video.atoi Video.unsigned
    Video.digits_value Video.submit Video.generate Video.success_reply Manager.value_at Manager.find
run_video = tt

abbrev cfg : VideoConfig
cfg = record default_config.video { task_timeout_sec = pos 4 }

abbrev pending : Poll
pending = record { time = 0; answer = err (lit "unreachable"); context_error = none }

abbrev succeeded : Poll
succeeded = record {
  time = 5000000000;
  answer = ok (record { task_id = lit "t"; status = lit "Success"; file_id = lit "f" });
  context_error = none;
}

poll_task_ends_example :
    (r : Result TaskStatus) × (poll_task cfg (lit "t") 0 (pending ∷ succeeded ∷ []) ≡ some r)
    × IsDecided r
poll_task_ends_example =
    poll_task_ends cfg 4 5 0 (lit "t") pending (succeeded ∷ []) refl (omega arith)
      (omega arith, (omega arith, tt)) (omega arith)

abbrev uploaded : ChatAttachment
uploaded = record {
  media_id = lit "m";
  media_type = lit "video";
  mime_type = lit "video/mp4";
  preview_url = lit "https://v";
  thumbnail_url = [];
  file_size = pos 1;
  local_path = [];
  error_code = [];
  error_message = [];
}

abbrev in_time : Poll
in_time = record succeeded { time = 3000000000 }

abbrev pub backend : Backend
backend = record {
  environment = λ k. lit "k";
  env_file = err (lit "missing");
  create = λ r. ok (lit "t");
  started = 0;
  polls = λ t. in_time ∷ [];
  retrieve = λ f. ok (lit "https://f");
  download = λ u. record {
    mkdir_failure = none;
    request_failure = none;
    response = ok (pos 200);
    create_failure = none;
    copy_failure = none;
  };
  upload = λ a. ok uploaded;
}

abbrev asked : ChatMessagePayload
asked = record {
  session_id = lit "s";
  user_id = [];
  role = [];
  text = lit "video";
  stream = true;
  metadata = none;
  input_attachments = [];
}

generate-IsOutcome_example : IsOutcome (lit "s") (success_reply (lit "s") uploaded)
unfolding run_video
generate-IsOutcome_example =
    generate-IsOutcome backend cfg (lit "r") (lit "s") asked (success_reply (lit "s") uploaded) refl

steps_lem_example : IsOnce (
    steps
      (called (lit "r") ∷ called (lit "r") ∷ finished (lit "r") (ok []) ∷ called (lit "r") ∷ [])
      no_requests)
steps_lem_example =
    steps_lem
      (called (lit "r") ∷ called (lit "r") ∷ finished (lit "r") (ok []) ∷ called (lit "r") ∷ [])

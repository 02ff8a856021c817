-- ===== src/Tests/Clients.antt =====
-- Two connections of the cloud client, and what the HTTP clients send.
use ubuntu_daemon.Base.{◌≡◌, ◌≢◌, refl, true, false, none, some, [], ◌++◌, Text, Result, ok, err}
use ubuntu_daemon.Base.Int.{pos}
use ubuntu_daemon.Text
use ubuntu_daemon.Text.{lit, is_blank, trim_space}
use ubuntu_daemon.Json.{str}
use ubuntu_daemon.Protocol.{ChatAttachment, zero_attachment}
use ubuntu_daemon.Http.{HttpResponse, HttpClient}
use ubuntu_daemon.Cloud.Goroutines
use ubuntu_daemon.Cloud.Goroutines.{
  dialling, greeting, serving, pinging, handling, writing, auth, reply, Shared, start, begin_,
  moves, wrote, goes, down, notes, dialled, greeted, received, noted, not_pinged, stopped, Reach,
  here, next,
}
use ubuntu_daemon.Cloud.Goroutines.Sound
use ubuntu_daemon.Cloud.Goroutines.Sound.{IsSound, first_on, Reach-IsSound}
use ubuntu_daemon.Cloud.Goroutines.Orderly.{OwnReach, begun, after, auth_first}
use ubuntu_daemon.Cloud.Goroutines.Races.{reply_before_auth, concurrent_writes}
use ubuntu_daemon.Gateway.Session.Tokens.{auth_by}
use ubuntu_daemon.Gateway.Session.Crypto
use ubuntu_daemon.Gateway.Session.Crypto.{
  base64_url, build_device_auth_payload_v3, normalize_device_metadata_for_auth,
}
use ubuntu_daemon.Gateway.Session.Messages.{device_payload}
use ubuntu_daemon.Probe.{probe_payload}
use ubuntu_daemon.Probe.Payload.{build_device_auth_payload_v3-probe_payload}
use ubuntu_daemon.Gateway.Uploads.{Stat, upload_attachment_file}
use ubuntu_daemon.Gateway.Uploads
use ubuntu_daemon.Gateway.UploadCalls
use ubuntu_daemon.Gateway.UploadCalls.{UploadBackend}
use ubuntu_daemon.Video.{GenerationRequest}
use ubuntu_daemon.Video.MiniMax
use ubuntu_daemon.Video.MiniMax.{
  BaseResp, MiniMaxJson, MiniMaxClient, create_text_to_video, query_escape,
}
use ubuntu_daemon.Video.MiniMax.Sent.{Made, create_text_to_video-IsTask}
use ubuntu_daemon.Tests.Sessions.{adapter, identity}

-- A connection is greeted, its reader is in a handler, and the connection is given up.
abbrev first_greeted : Shared
first_greeted = wrote 0 auth (moves 0 Goroutines.reading (goes (serving 0) (begin_ start)))

abbrev in_handler : Shared
in_handler = notes true (moves 0 handling (moves 0 (Goroutines.holding true) first_greeted))

run_client : Unit {0}
unfolding Goroutines.put Goroutines.down Goroutines.begin_ Goroutines.wrote Goroutines.moves
    Goroutines.goes Goroutines.notes Sound.first_on
run_client = tt

greeted-Reach : Reach start first_greeted
unfolding run_client
greeted-Reach = next (next here (dialled refl)) (greeted 0 refl)

in_handler-Reach : Reach start in_handler
unfolding run_client
in_handler-Reach = next (next greeted-Reach (received 0 true refl refl)) (noted 0 true refl)

Reach-IsSound_example : IsSound in_handler
Reach-IsSound_example = Reach-IsSound in_handler-Reach

reply_before_auth_example :
    (t : Shared) × Reach start t × (t.main ≡ greeting 1) × (first_on 1 t.log ≡ some reply)
unfolding run_client
reply_before_auth_example =
    reply_before_auth {s = down in_handler} 0 (next in_handler-Reach (stopped 0 refl)) refl refl

concurrent_writes_example :
    (t : Shared) × Reach start t × (t.main ≡ pinging 0) × (t.reader 0 ≡ writing 0)
unfolding run_client
concurrent_writes_example = concurrent_writes {s = in_handler} 0 0 in_handler-Reach refl refl

greeted-OwnReach : OwnReach first_greeted
unfolding run_client
greeted-OwnReach = after (after begun (dialled refl) tt) (greeted 0 refl) tt

auth_first_example : auth ≡ auth
unfolding run_client
auth_first_example = auth_first greeted-OwnReach 0 auth refl

linux_is_normal : normalize_device_metadata_for_auth (lit "linux") ≡ lit "linux"
unfolding lit Crypto.normalize_device_metadata_for_auth Text.to_lower Text.trim_space
    Text.drop_front Text.front_size Text.has_prefix
linux_is_normal = refl

build_device_auth_payload_v3-probe_payload_example :
    let by_adapter =
      build_device_auth_payload_v3
        (device_payload adapter identity (auth_by (lit "token") (lit "tok")) (pos 1) (lit "n")) in
    let by_probe = probe_payload identity.device_id (pos 1) (lit "tok") (lit "n") (lit "linux") in
    (by_adapter ≡ lit "v3|" ++ by_probe) × (by_adapter ≢ by_probe)
build_device_auth_payload_v3-probe_payload_example =
    build_device_auth_payload_v3-probe_payload adapter identity (auth_by (lit "token") (lit "tok"))
      (pos 1) (lit "n") linux_is_normal

abbrev answered : HttpResponse
answered = record { status_code = pos 200; body = lit "{}" }

abbrev pub http : HttpClient
http = record { build = λ method url. none; send = λ request. ok answered }

abbrev fine : BaseResp
fine = record { status_code = pos 0; status_msg = [] }

abbrev pub mini_max_json : MiniMaxJson
mini_max_json = record {
  marshal = λ r. ok (lit "{}");
  created = λ s. ok (record { task_id = str (lit "t1"); base_resp = fine });
  queried = λ s. err (lit "syntax");
  retrieved = λ s. err (lit "syntax");
}

abbrev mini_max : MiniMaxClient
mini_max = record { base_url = lit "https://v"; api_key = lit "k"; http_client = http }

abbrev request : GenerationRequest
request = record {
  model = lit "m";
  prompt = lit "a cat";
  first_frame_image = [];
  duration = pos 6;
  resolution = lit "768P";
  prompt_optimizer = true;
}

run_http : Unit {0}
unfolding lit Text.trim_space Text.is_blank Text.drop_front Text.front_size Text.has_prefix
    Text.trim_right Text.trim_left MiniMax.create_text_to_video MiniMax.task_of MiniMax.refused
    MiniMax.normalize_string Uploads.upload_attachment_file Uploads.transfer
    UploadCalls.call_upload_init UploadCalls.init_data UploadCalls.accepted
    UploadCalls.put_file_to_presigned_url UploadCalls.call_upload_complete UploadCalls.complete_data
    UploadCalls.upload_headers
run_http = tt

create_text_to_video-IsTask_example : Made mini_max mini_max_json request (lit "t1")
unfolding run_http
create_text_to_video-IsTask_example =
    create_text_to_video-IsTask mini_max mini_max_json request (lit "t1") refl

abbrev pub upload_backend : UploadBackend
upload_backend = record {
  client = http;
  media = record { backend_base_url = lit "https://m/"; upload_token = [] };
  marshal_init = λ r. ok (lit "{}");
  decode_init = λ s. ok (record {
    code = pos 200;
    message = [];
    error_code = [];
    payload = record { media_id = lit "m1"; upload_url = lit "https://u"; preview_url = [] };
  });
  marshal_complete = λ r. ok (lit "{}");
  decode_complete = λ s. ok (record {
    code = pos 200;
    message = [];
    error_code = [];
    payload = record { media_id = lit "m1"; preview_url = lit "https://p"; status = [] };
  });
  open_file = λ path. ok (lit "png");
}

abbrev pub stat : Text → Result Stat
stat path = ok (record { is_dir = false; size = pos 3 })

abbrev local_image : ChatAttachment
local_image = record zero_attachment { local_path = lit "/a.png"; mime_type = lit "image/png" }

abbrev uploaded_image : ChatAttachment
uploaded_image = record local_image {
  local_path = [];
  media_id = lit "m1";
  preview_url = lit "https://p";
  file_size = pos 3;
}

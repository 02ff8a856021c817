-- ===== src/Tests/Wiring.antt =====
-- A daemon with all its parts, whose provider of videos has no key.
use ubuntu_daemon.Base.{◌≡◌, refl, none, some, [], Text, ok, err}
use ubuntu_daemon.Base.Int.{pos}
use ubuntu_daemon.Text.{lit}
use ubuntu_daemon.Protocol.{
  Envelope, ChatMessagePayload, ChatReplyPayload, zero_reply, type_chat_msg,
}
use ubuntu_daemon.Config.{default_config}
use ubuntu_daemon.Store.{FileStore}
use ubuntu_daemon.Manager.{World}
use ubuntu_daemon.Router.{handle_chat}
use ubuntu_daemon.Router.Turns.{IsTurn, chats}
use ubuntu_daemon.Video.{Backend}
use ubuntu_daemon.App
use ubuntu_daemon.App.{Machine, make_video, new_router}
use ubuntu_daemon.App.Answers.{new_router-IsTurn}
use ubuntu_daemon.Tests.Sessions.{codec, link, message, services, setting, wire}
use ubuntu_daemon.Tests.Tokens.{token_store}
use ubuntu_daemon.Tests.Management.{world, live}
use ubuntu_daemon.Tests.Videos.{run_video, backend}
use ubuntu_daemon.Tests.Clients.{upload_backend, stat, http, mini_max_json}

abbrev world_of : FileStore → World
world_of store = record world { store = store }

abbrev without_key : Backend
without_key = record backend { environment = λ k. [] }

abbrev machine : Machine
machine = record {
  config = default_config;
  environment = λ k. lit "tok";
  goos = lit "linux";
  missing = lit "no file";
  quote = λ s. s;
  file_store = λ path. token_store;
  codec = codec;
  conversation =
      λ p. record { link = link; setting = setting; services = services; frames = wire.incoming };
  upload_backend = upload_backend;
  stat = stat;
  http = http;
  mini_max_json = mini_max_json;
  backend = λ id. without_key;
  world = world_of;
  live = live;
  run_command = world.run;
  run_times = record { started = 0; finished = 1 };
  image_service = none;
  decode_sys_config = λ s. err (lit "syntax");
  decode_remote_cmd = λ s. err (lit "syntax");
  decode_chat = λ s. ok message;
}

-- What making a video ends with.
abbrev refusal : Text → ChatMessagePayload → ChatReplyPayload
refusal id p = elim (make_video machine id p) [ none ↦ zero_reply | some reply ↦ reply ]

machine_ends : (id : Text) (p : ChatMessagePayload) → make_video machine id p ≡ some (refusal id p)
unfolding run_video App.make_video App.video_backend
machine_ends id p = refl

abbrev envelope : Envelope
envelope = record { msg_id = lit "m"; kind = type_chat_msg; timestamp = pos 1; payload = [] }

new_router-IsTurn_example :
    IsTurn (chats (handle_chat (new_router machine refusal (err (lit "missing"))) envelope))
new_router-IsTurn_example =
    new_router-IsTurn machine refusal (err (lit "missing")) envelope machine_ends
      (λ s e id p. absurd (cc))

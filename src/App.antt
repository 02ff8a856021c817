-- ===== src/App.antt =====
-- internal/app/app.go: `New` puts the parts together. The image service (internal/imagegen) is not
-- in the repository and stays an argument, as does what each connection, file and process gives.
pub mod Answers
use ubuntu_daemon.Base.{
  ◌≡◌, Option, none, some, List, [], ◌∷◌, Text, Result, ok, err, if◌then◌else◌,
}
use ubuntu_daemon.Protocol.{
  SysConfigPayload, RemoteCmdPayload, ChatMessagePayload, ChatReplyPayload,
}
use ubuntu_daemon.Config.{Config, Environment, Live}
use ubuntu_daemon.Http.{HttpClient}
use ubuntu_daemon.Store.{FileStore}
use ubuntu_daemon.Runner.{Times, Invocation, Ran, execute}
use ubuntu_daemon.Manager.{World, apply}
use ubuntu_daemon.Router.{Replies, VideoService, ImageService, MessageRouter}
use ubuntu_daemon.Gateway.Collect.{Services}
use ubuntu_daemon.Gateway.Uploads.{
  Stat, Uploader, upload_local_attachments, upload_local_attachment,
}
use ubuntu_daemon.Gateway.UploadCalls.{UploadBackend, uploader}
use ubuntu_daemon.Gateway.Session.Tokens.{Adapter}
use ubuntu_daemon.Gateway.Session.Wire.{Codec, Received, Wire}
use ubuntu_daemon.Gateway.Session.Messages.{cloud_msg_id}
use ubuntu_daemon.Gateway.Session.Requests.{Link, Setting}
use ubuntu_daemon.Gateway.Session.Chat.{chat}
use ubuntu_daemon.Video.{
  Backend, RuntimeConfig, resolve_runtime_config, enabled, is_video_request, generate,
  disabled_replies,
}
use ubuntu_daemon.Video.MiniMax.{
  MiniMaxJson, new_mini_max_client, create_text_to_video, retrieve_file,
}

-- What one chat finds: the connection, the frames on it, and the disk.
pub record Conversation : Type 0 where
  pub link : Link
  pub setting : Setting
  pub services : Services  -- but for the uploads
  pub frames : List Received

-- The machine that the daemon runs on. `file_store` is `store.NewFileStore`.
pub record Machine : Type 0 where
  pub config : Config
  pub environment : Environment
  pub goos : Text
  pub missing : Text
  pub quote : Text → Text
  pub file_store : Text → FileStore
  pub codec : Codec
  pub conversation : ChatMessagePayload → Conversation
  pub upload_backend : UploadBackend
  pub stat : Text → Result Stat
  pub http : HttpClient
  pub mini_max_json : MiniMaxJson
  pub backend : Text → Backend  -- but for the provider's requests and the upload
  pub world : FileStore → World
  pub live : Live
  pub run_command : Invocation → Ran
  pub run_times : Times
  pub image_service : Option ImageService
  pub decode_sys_config : Text → Result SysConfigPayload
  pub decode_remote_cmd : Text → Result RemoteCmdPayload
  pub decode_chat : Text → Result ChatMessagePayload

module _ (m : Machine) where
  -- One store, which the manager and the adapter share.
  abbrev pub state_store : FileStore
  state_store = m.file_store m.config.store.state_file

  unfoldable pub new_adapter : Adapter
  new_adapter = record {
    cfg = m.config.openclaw;
    daemon_version = m.config.daemon_version;
    state_store = some state_store;
    environment = m.environment;
    goos = m.goos;
    missing = m.missing;
    quote = m.quote;
  }

  abbrev uploads : Uploader
  uploads = uploader m.upload_backend m.config.device_id m.stat

  -- The adapter's `Chat`, on the connection that the message finds.
  unfoldable pub gateway_chat : ChatMessagePayload → Replies
  gateway_chat p =
      let talk = m.conversation p in
      let services = record talk.services {
        upload = upload_local_attachments uploads p.session_id (cloud_msg_id talk.setting.times p);
      } in
      (chat new_adapter m.codec talk.link talk.setting services p
        (record { incoming = talk.frames; sent = []; disk = m.live.disk })).0

  abbrev api_key : Backend → Text
  api_key b = elim (resolve_runtime_config b.environment b.env_file m.config.video) [
    | err why ↦ []
    | ok r ↦ r.api_key
  ]

  -- The video service behind the provider's client and the adapter's upload.
  unfoldable pub video_backend : Text → ChatMessagePayload → Backend
  video_backend id p =
      let b = m.backend id in
      let client = new_mini_max_client m.http m.config.video.api_base_url (api_key b) in
      record b {
        create = create_text_to_video client m.mini_max_json;
        retrieve = retrieve_file client m.mini_max_json;
        upload = upload_local_attachment uploads p.session_id id;
      }

  unfoldable pub make_video : Text → ChatMessagePayload → Option ChatReplyPayload
  make_video id p = generate (video_backend id p) m.config.video id p.session_id p

  -- `answer` is what the polling of a video ends with.
  unfoldable pub new_video_service :
      (Text → ChatMessagePayload → ChatReplyPayload) → Result Text → VideoService
  new_video_service answer env_file =
      let on = enabled m.environment env_file m.config.video in
      record {
        enabled = on;
        is_video_request = is_video_request;
        generate = λ id p. if on then ok (answer id p ∷ []) else disabled_replies p.session_id;
      }

  unfoldable pub new_router :
      (Text → ChatMessagePayload → ChatReplyPayload) → Result Text → MessageRouter
  new_router answer env_file = record {
    decode_sys_config = m.decode_sys_config;
    decode_remote_cmd = m.decode_remote_cmd;
    decode_chat = m.decode_chat;
    apply_config = λ p. (apply (m.world state_store) p m.config.daemon_version m.live).0;
    run_remote = λ p. (execute m.quote m.run_command m.run_times m.config.remote_command p).0;
    gateway = gateway_chat;
    video_service = some (new_video_service answer env_file);
    image_service = m.image_service;
    daemon_version = m.config.daemon_version;
  }

-- ===== src/Config/Default.antt =====
-- `defaultConfig`: the values that a configuration file overrides.
use ubuntu_daemon.Base.{◌*◌, true, false, [], ◌∷◌}
use ubuntu_daemon.Base.Int.{pos}
use ubuntu_daemon.Text.{lit}
use ubuntu_daemon.Config.Types.{CloudConfig, OpenClawConfig, RemoteCmdConfig, VideoConfig, Config}

abbrev default_cloud : CloudConfig
default_cloud = record {
  ws_url = lit "ws://43.156.161.7:18080/ws/device";
  connect_timeout_sec = pos 10;
  ping_interval_sec = pos 30;
  reconnect_min_sec = pos 1;
  reconnect_max_sec = pos 30;
}

abbrev default_openclaw : OpenClawConfig
default_openclaw = record {
  work_dir = lit "/root/.openclaw";
  env_file = lit "/root/.openclaw/.env";
  json_config_file = lit "/root/.openclaw/openclaw.json";
  gateway_ws_url = lit "ws://127.0.0.1:18789";
  gateway_health_url = lit "http://127.0.0.1:18789/__openclaw__/canvas/";
  gateway_token_env_key = lit "OPENCLAW_GATEWAY_TOKEN";
  reply_resolve_timeout_sec = pos 120;
  restart_command = lit "pm2";
  restart_args = lit "restart" ∷ lit "openclaw" ∷ [];
  restart_timeout_sec = pos 20;
  health_check_timeout_sec = pos 5;
}

abbrev default_video : VideoConfig
default_video = record {
  enabled = false;
  provider = lit "minimax";
  api_base_url = lit "https://api.minimaxi.com";
  create_timeout_sec = pos 10;
  query_timeout_sec = pos 10;
  poll_interval_sec = pos 5;
  task_timeout_sec = pos 180;
  download_timeout_sec = pos 120;
  temp_dir = lit "/root/.openclaw/media/video-generation";
  default_model = lit "MiniMax-Hailuo-2.3";
  default_duration = pos 6;
  default_resolution = lit "768P";
  prompt_optimizer = true;
}

abbrev default_remote : RemoteCmdConfig
default_remote = record {
  default_timeout_sec = pos 30;
  max_timeout_sec = pos 300;
  max_output_bytes = pos (64 * 1024);
  allow_all = true;
  whitelist = [];
}

abbrev pub default_config : Config
default_config = record {
  path = [];
  device_id = [];
  daemon_version = lit "0.1.0";
  cloud = default_cloud;
  openclaw = default_openclaw;
  media = record { backend_base_url = lit "http://43.156.161.7:8080"; upload_token = [] };
  video = default_video;
  remote_command = default_remote;
  store = record { state_file = lit "/root/.openclaw/daemon-state.json" };
  chat_reply_on_unsupported = true;
}

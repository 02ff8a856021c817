-- ===== src/Config/Normalize.antt =====
-- `normalize`: required fields, paths made absolute, defaults for what is missing or not positive.
use ubuntu_daemon.Base.{ℕ, ◌*◌, Text, Result, ok, err, is_nil, if◌then◌else◌}
use ubuntu_daemon.Base.Int.{ℤ, pos, leb_ℤ, ltb_ℤ}
use ubuntu_daemon.Text.{lit}
use ubuntu_daemon.Config.Types.{CloudConfig, OpenClawConfig, RemoteCmdConfig, VideoConfig, Config}
use ubuntu_daemon.Config.Paths.{abs_path, dir}

-- `if v <= 0 { v = d }`.
abbrev pub positive_or : ℤ → ℕ → ℤ
positive_or v d = if leb_ℤ v (pos 0) then pos d else v

-- `if v < low { v = low }`.
abbrev pub at_least : ℤ → ℤ → ℤ
at_least low v = if ltb_ℤ v low then low else v

-- `if v == "" { v = d }`.
abbrev pub text_or : Text → Text → Text
text_or v d = if is_nil v then d else v

unfoldable pub normalize_cloud : CloudConfig → CloudConfig
normalize_cloud c =
    let low = positive_or c.reconnect_min_sec 1 in
    record {
      ws_url = c.ws_url;
      connect_timeout_sec = positive_or c.connect_timeout_sec 10;
      ping_interval_sec = positive_or c.ping_interval_sec 30;
      reconnect_min_sec = low;
      reconnect_max_sec = at_least low c.reconnect_max_sec;
    }

unfoldable pub normalize_openclaw : Text → OpenClawConfig → OpenClawConfig
normalize_openclaw base_dir c = record c {
  work_dir = abs_path base_dir c.work_dir;
  env_file = abs_path base_dir c.env_file;
  json_config_file = abs_path base_dir c.json_config_file;
  restart_timeout_sec = positive_or c.restart_timeout_sec 20;
  reply_resolve_timeout_sec = positive_or c.reply_resolve_timeout_sec 120;
  health_check_timeout_sec = positive_or c.health_check_timeout_sec 5;
}

unfoldable pub normalize_remote : RemoteCmdConfig → RemoteCmdConfig
normalize_remote c =
    let low = positive_or c.default_timeout_sec 30 in
    record c {
      default_timeout_sec = low;
      max_timeout_sec = at_least low c.max_timeout_sec;
      max_output_bytes = positive_or c.max_output_bytes (64 * 1024);
    }

unfoldable pub normalize_video : Text → VideoConfig → VideoConfig
normalize_video base_dir c = record c {
  temp_dir = abs_path base_dir c.temp_dir;
  provider = text_or c.provider (lit "minimax");
  api_base_url = text_or c.api_base_url (lit "https://api.minimaxi.com");
  create_timeout_sec = positive_or c.create_timeout_sec 10;
  query_timeout_sec = positive_or c.query_timeout_sec 10;
  poll_interval_sec = positive_or c.poll_interval_sec 5;
  task_timeout_sec = positive_or c.task_timeout_sec 180;
  download_timeout_sec = positive_or c.download_timeout_sec 120;
  default_model = text_or c.default_model (lit "MiniMax-Hailuo-2.3");
  default_duration = positive_or c.default_duration 6;
  default_resolution = text_or c.default_resolution (lit "768P");
}

-- The configuration behind the two required fields.
unfoldable pub normalized : Text → Config → Config
normalized path c =
    let base_dir = dir path in
    record c {
      cloud = normalize_cloud c.cloud;
      openclaw = normalize_openclaw base_dir c.openclaw;
      video = normalize_video base_dir c.video;
      store = record { state_file = abs_path base_dir c.store.state_file };
      remote_command = normalize_remote c.remote_command;
    }

unfoldable pub normalize : Text → Config → Result Config
normalize path c =
    if is_nil c.device_id
    then err (lit "device_id is required")
    else if is_nil c.cloud.ws_url
    then err (lit "cloud.ws_url is required")
    else ok (normalized path c)

-- ===== src/Config/Types.antt =====
-- The records of internal/config/config.go, and the durations that are read off them. The mutex is
-- left out: each getter and setter holds it for its whole body.
use ubuntu_daemon.Base.{ℕ, ◌^◌, Bool, List, Text}
use ubuntu_daemon.Base.Int.{ℤ, mul64}

pub record CloudConfig : Type 0 where
  pub ws_url : Text
  pub connect_timeout_sec : ℤ
  pub ping_interval_sec : ℤ
  pub reconnect_min_sec : ℤ
  pub reconnect_max_sec : ℤ

pub record OpenClawConfig : Type 0 where
  pub work_dir : Text
  pub env_file : Text
  pub json_config_file : Text
  pub gateway_ws_url : Text
  pub gateway_health_url : Text
  pub gateway_token_env_key : Text
  pub reply_resolve_timeout_sec : ℤ
  pub restart_command : Text
  pub restart_args : List Text
  pub restart_timeout_sec : ℤ
  pub health_check_timeout_sec : ℤ

pub record RemoteCmdConfig : Type 0 where
  pub default_timeout_sec : ℤ
  pub max_timeout_sec : ℤ
  pub max_output_bytes : ℤ
  pub allow_all : Bool
  pub whitelist : List Text

pub record MediaConfig : Type 0 where
  pub backend_base_url : Text
  pub upload_token : Text

pub record VideoConfig : Type 0 where
  pub enabled : Bool
  pub provider : Text
  pub api_base_url : Text
  pub create_timeout_sec : ℤ
  pub query_timeout_sec : ℤ
  pub poll_interval_sec : ℤ
  pub task_timeout_sec : ℤ
  pub download_timeout_sec : ℤ
  pub temp_dir : Text
  pub default_model : Text
  pub default_duration : ℤ
  pub default_resolution : Text
  pub prompt_optimizer : Bool

pub record StoreConfig : Type 0 where
  pub state_file : Text

pub record Config : Type 0 where
  pub path : Text
  pub device_id : Text
  pub daemon_version : Text
  pub cloud : CloudConfig
  pub openclaw : OpenClawConfig
  pub media : MediaConfig
  pub video : VideoConfig
  pub remote_command : RemoteCmdConfig
  pub store : StoreConfig
  pub chat_reply_on_unsupported : Bool

-- `time.Second`, in nanoseconds.
abbrev pub second : ℕ
second = 10 ^ 9

unfoldable pub connect_timeout : CloudConfig → ℤ
connect_timeout c = mul64 c.connect_timeout_sec second

unfoldable pub ping_interval : CloudConfig → ℤ
ping_interval c = mul64 c.ping_interval_sec second

unfoldable pub reconnect_min : CloudConfig → ℤ
reconnect_min c = mul64 c.reconnect_min_sec second

unfoldable pub reconnect_max : CloudConfig → ℤ
reconnect_max c = mul64 c.reconnect_max_sec second

-- ===== src/Video/Settings.antt =====
-- The settings that a task is made with are complete.
use ubuntu_daemon.Base.{◌≡◌, ◌≢◌, false, [], arith, Text, Result, ok}
use ubuntu_daemon.Base.Int.{ℤ}
use ubuntu_daemon.Text.{lit, is_blank}
use ubuntu_daemon.Config.{Environment, VideoConfig}
use ubuntu_daemon.Config.Laws.Normal.{IsPositive}
use ubuntu_daemon.Video.{RuntimeConfig, resolve_runtime_config, parse_int_or_default}

parse_int_or_default_pos :
    (raw : Text) (d : ℤ) → IsPositive d → IsPositive (parse_int_or_default raw d)
unfolding parse_int_or_default
parse_int_or_default_pos raw d h = ground arith

-- Whatever the environment and the file hold: settings that are found have a key that is not
-- blank, a model, a resolution, and a positive duration if the configured one is positive.
pub resolve_runtime_config_lem :
    (env : Environment) (file : Result Text) (cfg : VideoConfig) (r : RuntimeConfig)
    → IsPositive cfg.default_duration
    → resolve_runtime_config env file cfg ≡ ok r
    → (is_blank r.api_key ≡ false) × (r.model ≢ []) × (r.resolution ≢ []) × IsPositive r.duration
unfolding resolve_runtime_config lit
resolve_runtime_config_lem env file cfg r d h =
    grind (arith, λ (raw : Text). parse_int_or_default_pos raw cfg.default_duration d)

-- ===== src/Manager/Apply.antt =====
-- `Apply` as the sequence of its steps, on the configuration in memory and the disk.
use ubuntu_daemon.Base.{
  true, Option, none, some, ◌++◌, Text, Result, ok, err, is_nil, if◌then◌else◌,
}
use ubuntu_daemon.Base.Int.{ℤ, pos, leb_ℤ, eqb_ℤ, mul64}
use ubuntu_daemon.Text.{lit, trim_space, decimal}
use ubuntu_daemon.Json.{Fields, end}
use ubuntu_daemon.Protocol.{SysConfigPayload, SysConfigAckPayload, zero_ack}
use ubuntu_daemon.Files.{Calls, Disk, read, store_write_file}
use ubuntu_daemon.Config.{Config, OpenClawConfig, Environment, Live, second, update_cloud_ws_url}
use ubuntu_daemon.Store.{State, FileStore, load, save}
use ubuntu_daemon.Runner.{Invocation, Ran}
use ubuntu_daemon.Manager.Env.{Values, value_at, write_env, load_gateway_token_from_env_file}
use ubuntu_daemon.Manager.Json.{configure}

-- What the steps of one call find: the answers of the operating system to each of them, and what
-- other programs give.
pub record World : Type 0 where
  pub store : FileStore
  pub state_failure : Option Text
  pub work_dir_failure : Option Text
  pub url_calls : Calls
  pub env_calls : Calls
  pub json_calls : Calls
  pub state_calls : Calls
  pub encode_config : Config → Result Text
  pub decode_json : Text → Result Fields
  pub encode_json : Fields → Result Text
  pub run : Invocation → Ran
  pub environment : Environment
  pub health : Text → Option Text → Result ℤ  -- the URL, the bearer token, and the status code
  pub now : ℤ

unfoldable pub failed_ack : ℤ → Text → Text → Text → SysConfigAckPayload
failed_ack version daemon code why = record zero_ack {
  config_version = version;
  status = lit "failed";
  daemon_version = daemon;
  message = lit "failed to apply configuration";
  error_code = code;
  error_message = why;
}

-- An error with its code, if a step failed, and what the steps have left behind.
abbrev pub Stage : Type 0
Stage = Option (Text × Text) × Live

abbrev pub stage : Text → Result (Unit {0}) → Live → Stage
stage code (ok _) s = (none, s)
stage code (err why) s = (some (code, why), s)

abbrev pub next : Stage → (Live → Stage) → Stage
next (some e, s) step = (some e, s)
next (none, s) step = step s

abbrev apply_failed : Text
apply_failed = lit "CONFIG_APPLY_FAILED"

unfoldable pub make_work_dir : World → Live → Stage
make_work_dir w s = elim w.work_dir_failure [
  | none ↦ (none, s)
  | some why ↦ (some (apply_failed, why), s)
]

unfoldable pub update_daemon_cloud_ws_url : World → Values → Live → Stage
update_daemon_cloud_ws_url w vs s =
    let first = trim_space (value_at vs (lit "CLOUD_WS_URL")) in
    let url =
      if is_nil first then trim_space (value_at vs (lit "EDGE_GATEWAY_WS_URL")) else first in
    let out = update_cloud_ws_url w.encode_config w.url_calls url s in
    if is_nil url then (none, s) else stage apply_failed out.0 out.1

unfoldable pub env_stage : World → OpenClawConfig → Values → Live → Stage
env_stage w cfg vs s =
    let out = write_env w.env_calls cfg vs s.disk in
    stage apply_failed out.result (record s { disk = out.disk })

-- What was read of the file: an empty object if it could not be read or is empty.
unfoldable pub current_json : World → OpenClawConfig → Disk → Result Fields
current_json w cfg d = elim (read d cfg.json_config_file) [
  | none ↦ ok end
  | some f ↦ if is_nil f.content then ok end else w.decode_json f.content
]

unfoldable pub ensure_json_config : World → OpenClawConfig → Values → Live → Stage
ensure_json_config w cfg vs s = elim (current_json w cfg s.disk) [
  | err why ↦ (some (apply_failed, lit "parse openclaw json config: " ++ why), s)
  | ok current ↦ elim (w.encode_json (configure cfg vs current)) [
    | err why ↦ (some (apply_failed, lit "marshal openclaw json config: " ++ why), s)
    | ok text ↦
        let out =
          store_write_file w.json_calls cfg.json_config_file (text ++ lit "\n") 0o644 s.disk in
        stage apply_failed out.result (record s { disk = out.disk })
  ]
]

unfoldable pub restart_open_claw : World → Live → Stage
restart_open_claw w s =
    let cfg = s.config.openclaw in
    let ran = w.run (record {
      timeout = mul64 cfg.restart_timeout_sec second;
      command = cfg.restart_command;
      args = cfg.restart_args;
      work_dir = cfg.work_dir;
    }) in
    if is_nil cfg.restart_command then (none, s) else elim ran.error [
      | some why ↦ (some (apply_failed, lit "restart openclaw: " ++ why), s)
      | none ↦ if eqb_ℤ ran.exit_code (pos 0) then (none, s) else (
        some (
          apply_failed,
          lit "restart openclaw exit code="
              ++ (decimal ran.exit_code
                  ++ (lit " stdout=" ++ (ran.stdout ++ (lit " stderr=" ++ ran.stderr)))),
        ),
        s,
      )
    ]

-- The token that the request carries, if there is one.
unfoldable pub bearer : World → Live → Option Text
bearer w s = elim (load_gateway_token_from_env_file w.environment s.config.openclaw s.disk) [
  | none ↦ none
  | some token ↦ if is_nil token then none else some token
]

unfoldable pub check_gateway_health : World → Live → Stage
check_gateway_health w s =
    let cfg = s.config.openclaw in
    let unavailable : Text → Stage = λ why. (some (lit "GATEWAY_UNAVAILABLE", why), s) in
    if is_nil cfg.gateway_health_url
    then (none, s)
    else elim (w.health cfg.gateway_health_url (bearer w s)) [
      | err why ↦ unavailable why
      | ok status ↦
          if leb_ℤ (pos 400) status
          then unavailable (lit "gateway healthcheck status=" ++ decimal status)
          else (none, s)
    ]

-- The steps between the look at the state and its update; `openClawCfg` is read once before them.
unfoldable pub apply_steps : World → Values → Live → Stage
apply_steps w vs s =
    let cfg = s.config.openclaw in
    next (make_work_dir w s) (λ s1. next (update_daemon_cloud_ws_url w vs s1) (λ s2.
      next (env_stage w cfg vs s2) (λ s3.
        next (ensure_json_config w cfg vs s3)
          (λ s4. next (restart_open_claw w s4) (λ s5. check_gateway_health w s5)))))

unfoldable pub save_version : World → ℤ → State → Live → Stage
save_version w version state s =
    let out = save w.store w.state_calls (record state { last_config_version = version }) s.disk in
    stage (lit "INTERNAL_ERROR") out.0 (record s { disk = out.1 })

unfoldable pub ignored_ack : ℤ → Text → SysConfigAckPayload
ignored_ack version daemon = record zero_ack {
  config_version = version;
  status = lit "ignored";
  daemon_version = daemon;
  message = lit "config version " ++ (decimal version ++ lit " already applied");
}

unfoldable pub success_ack : ℤ → Text → ℤ → SysConfigAckPayload
success_ack version daemon now = record zero_ack {
  config_version = version;
  status = lit "success";
  applied = true;
  applied_at = now;
  daemon_version = daemon;
  message = lit "configuration applied and gateway is healthy";
}

-- The acknowledgement of a sequence of steps.
unfoldable pub acknowledge : World → ℤ → Text → Stage → SysConfigAckPayload × Live
acknowledge w version daemon (some (code, why), s) = (failed_ack version daemon code why, s)
acknowledge w version daemon (none, s) = (success_ack version daemon w.now, s)

unfoldable pub apply : World → SysConfigPayload → Text → Live → SysConfigAckPayload × Live
apply w p daemon s = elim (load w.store w.state_failure s.disk) [
  | err why ↦ (failed_ack p.config_version daemon (lit "INTERNAL_ERROR") why, s)
  | ok state ↦
      if leb_ℤ p.config_version state.last_config_version
      then (ignored_ack p.config_version daemon, s)
      else acknowledge w p.config_version daemon
          (next (apply_steps w p.config s) (λ t. save_version w p.config_version state t))
]

-- ===== src/Tests/Management.antt =====
-- A pushed configuration that is applied, and delivered again; the environment file; the settings.
use ubuntu_daemon.Base.{◌≡◌, refl, false, none, some, [], ◌∷◌, Text, Result, ok, err, if◌then◌else◌}
use ubuntu_daemon.Base.Int.{pos}
use ubuntu_daemon.Text
use ubuntu_daemon.Text.{lit, text_eq, contains_text}
use ubuntu_daemon.Json
use ubuntu_daemon.Json.{Value, str, obj, Fields, end, field, get}
use ubuntu_daemon.Protocol.{SysConfigPayload}
use ubuntu_daemon.Files
use ubuntu_daemon.Files.{Calls, all_succeed, Disk}
use ubuntu_daemon.Config
use ubuntu_daemon.Config.{Config, OpenClawConfig, Live, default_config}
use ubuntu_daemon.Store
use ubuntu_daemon.Store.{State, FileStore, zero_state, load}
use ubuntu_daemon.Manager
use ubuntu_daemon.Manager.{
  Values, World, apply, find, effective, env_keys, sort_keys, is_daemon_only_config_key,
  shell_escape, trim_env_value, configure, gateway_defaults, map_at, reference, token_key,
}
use ubuntu_daemon.Manager.Quoting.{bare, read_word, read_word-shell_escape}
use ubuntu_daemon.Manager.Steps.{KeepsState}
use ubuntu_daemon.Manager.Versions.{apply-Advances, apply-twice}

-- All that a call of `Apply` computes with.
run_apply : Unit {0}
unfolding lit Text.text_eq Text.contains_text Text.has_prefix Text.trim_space Text.drop_front
    Text.front_size Text.join Text.replace_byte Text.split_from Text.split Text.cut Text.decimal
    Text.digits_from Json.get Json.put Json.delete Files.read Files.write Files.remove
    Files.write_atomically Files.store_write_file Config.update_cloud_ws_url Config.persist
    Store.load Store.save Manager.find Manager.value_at Manager.is_daemon_only_config_key
    Manager.with_fallback Manager.effective Manager.env_keys Manager.text_le Manager.insert_key
    Manager.sort_keys Manager.shell_escape Manager.env_lines Manager.env_content Manager.write_env
    Manager.make_work_dir Manager.update_daemon_cloud_ws_url Manager.env_stage Manager.current_json
    Manager.ensure_json_config Manager.restart_open_claw Manager.bearer Manager.check_gateway_health
    Manager.apply_steps Manager.save_version Manager.failed_ack Manager.ignored_ack
    Manager.success_ack Manager.acknowledge Manager.apply Manager.load_gateway_token_from_env_file
    Manager.is_quoted_by Manager.trim_env_value Manager.token_in
run_apply = tt

abbrev third_state : State
third_state = record zero_state { last_config_version = pos 3 }

abbrev decode_three : Text → Result State
decode_three text = if text_eq text (lit "3") then ok third_state else err (lit "unexpected")

abbrev pub world : World
world = record {
  store = record { path = lit "state"; decode = decode_three; encode = λ s. ok (lit "3") };
  state_failure = none;
  work_dir_failure = none;
  url_calls = all_succeed (lit "t");
  env_calls = all_succeed (lit "t");
  json_calls = all_succeed (lit "t");
  state_calls = all_succeed (lit "t");
  encode_config = λ c. ok (lit "{}");
  decode_json = λ s. ok end;
  encode_json = λ fs. ok (lit "{}");
  run = λ i. record { stdout = []; stderr = []; exit_code = pos 0; error = none; deadline = false };
  environment = λ k. [];
  health = λ url token. ok (pos 200);
  now = pos 9;
}

abbrev openclaw : OpenClawConfig
openclaw = record default_config.openclaw { env_file = lit "env"; json_config_file = lit "json" }

abbrev pub live : Live
live = record { config = record default_config { path = lit "c"; openclaw = openclaw }; disk = [] }

abbrev pushed : SysConfigPayload
pushed = record {
  action = lit "set";
  config_version = pos 3;
  config = (lit "API_KEY", lit "k") ∷ (lit "CLOUD_WS_URL", lit "ws://c") ∷ [];
}

world-KeepsState : KeepsState world live.config
unfolding lit
world-KeepsState = record {
  url_temp = cc;
  env_temp = cc;
  json_temp = cc;
  state_temp = cc;
  config_path = cc;
  env_path = cc;
  json_path = cc;
}

apply-Advances_example :
    load world.store none (apply world pushed (lit "1") live).1.disk ≡ ok third_state
unfolding run_apply
apply-Advances_example =
    apply-Advances world pushed (lit "1") (lit "3") zero_state live world-KeepsState refl refl refl
      refl

apply-twice_example :
    ((apply world pushed (lit "1") (apply world pushed (lit "1") live).1).1
      ≡ (apply world pushed (lit "1") live).1)
    × ((apply world pushed (lit "1") (apply world pushed (lit "1") live).1).0.status
        ≡ lit "ignored")
    × ((apply world pushed (lit "1") (apply world pushed (lit "1") live).1).0.applied ≡ false)
unfolding run_apply
apply-twice_example =
    apply-twice world world pushed (lit "1") (lit "3") zero_state live world-KeepsState refl refl
      refl refl refl refl refl

read_word-shell_escape_example :
    read_word bare (shell_escape (lit "it's $1")) ≡ some (lit "it's $1")
read_word-shell_escape_example = read_word-shell_escape (lit "it's $1")

-- ===== src/Manager/Steps.antt =====
-- The steps of `Apply` before the last leave the state file as it is.
use mathlib.Core.Path.{subst}
use ubuntu_daemon.Base.{◌≡◌, ◌≢◌, sym, ap, ◌∙◌, none, some, arith, Text}
use ubuntu_daemon.Files.{read}
use ubuntu_daemon.Files.Laws.{store_write_file-elsewhere}
use ubuntu_daemon.Config.{Config, OpenClawConfig, Live, persist, update_cloud_ws_url}
use ubuntu_daemon.Manager.{
  World, Values, Stage, next, make_work_dir, update_daemon_cloud_ws_url, write_env, env_stage,
  ensure_json_config, restart_open_claw, check_gateway_health, apply_steps,
}

-- No step but the last writes to the state file, and none uses its name for a temporary file.
pub record KeepsState (w : World) (c : Config) : Type 0 where
  pub url_temp : w.url_calls.temp_name ≢ w.store.path
  pub env_temp : w.env_calls.temp_name ≢ w.store.path
  pub json_temp : w.json_calls.temp_name ≢ w.store.path
  pub state_temp : w.state_calls.temp_name ≢ w.store.path
  pub config_path : c.path ≢ w.store.path
  pub env_path : c.openclaw.env_file ≢ w.store.path
  pub json_path : c.openclaw.json_config_file ≢ w.store.path

module _ (w : World) where
  -- A step that leaves the state file as it is.
  abbrev pub Keeps : Live → Stage → Type 0
  Keeps s r = read r.1.disk w.store.path ≡ read s.disk w.store.path

  update-Keeps :
      (vs : Values) (s : Live)
      → w.url_calls.temp_name ≢ w.store.path
      → s.config.path ≢ w.store.path
      → Keeps s (update_daemon_cloud_ws_url w vs s)
  unfolding update_daemon_cloud_ws_url update_cloud_ws_url persist
  update-Keeps vs s t p = grind (
    arith,
    λ (content : Text).
        store_write_file-elsewhere w.url_calls s.config.path content 0o644 s.disk w.store.path t p,
  )

  env_stage-Keeps :
      (cfg : OpenClawConfig) (vs : Values) (s : Live)
      → w.env_calls.temp_name ≢ w.store.path
      → cfg.env_file ≢ w.store.path
      → Keeps s (env_stage w cfg vs s)
  unfolding env_stage write_env
  env_stage-Keeps cfg vs s t p = grind (
    arith,
    λ (content : Text).
        store_write_file-elsewhere w.env_calls cfg.env_file content 0o600 s.disk w.store.path t p,
  )

  ensure_json_config-Keeps :
      (cfg : OpenClawConfig) (vs : Values) (s : Live)
      → w.json_calls.temp_name ≢ w.store.path
      → cfg.json_config_file ≢ w.store.path
      → Keeps s (ensure_json_config w cfg vs s)
  unfolding ensure_json_config
  ensure_json_config-Keeps cfg vs s t p = grind (
    arith,
    λ (content : Text).
        store_write_file-elsewhere w.json_calls cfg.json_config_file content 0o644 s.disk
          w.store.path t p,
  )

  restart_open_claw-Keeps : (s : Live) → Keeps s (restart_open_claw w s)
  unfolding restart_open_claw
  restart_open_claw-Keeps s = ground arith

  check_gateway_health-Keeps : (s : Live) → Keeps s (check_gateway_health w s)
  unfolding check_gateway_health
  check_gateway_health-Keeps s = ground arith

  next-Keeps :
      (s : Live) (r : Stage) (step : Live → Stage)
      → Keeps s r
      → ((t : Live) → Keeps t (step t))
      → Keeps s (next r step)
  next-Keeps s (some e, t) step h k = h
  next-Keeps s (none, t) step h k = k t ∙ h

  next-Keeps_same :
      (s : Live) (r : Stage) (step : Live → Stage)
      → r.1 ≡ s
      → Keeps s (step s)
      → Keeps s (next r step)
  next-Keeps_same s (some e, t) step h k = ap (λ (u : Live). read u.disk w.store.path) h
  next-Keeps_same s (none, t) step h k = subst (λ (u : Live). Keeps s (step u)) (sym h) k

  make_work_dir_same : (s : Live) → (make_work_dir w s).1 ≡ s
  unfolding make_work_dir
  make_work_dir_same s = ground arith

  file_steps-Keeps :
      (cfg : OpenClawConfig) (vs : Values) (s : Live)
      → w.env_calls.temp_name ≢ w.store.path
      → w.json_calls.temp_name ≢ w.store.path
      → cfg.env_file ≢ w.store.path
      → cfg.json_config_file ≢ w.store.path
      → Keeps s (
          next (env_stage w cfg vs s) (λ s3.
            next
              (ensure_json_config w cfg vs s3)
              (λ s4. next (restart_open_claw w s4) (λ s5. check_gateway_health w s5))))
  file_steps-Keeps cfg vs s et jt ep jp =
      next-Keeps s (env_stage w cfg vs s)
        (λ s3.
          next (ensure_json_config w cfg vs s3)
            (λ s4. next (restart_open_claw w s4) (λ s5. check_gateway_health w s5)))
        (env_stage-Keeps cfg vs s et ep)
        (λ s3.
          next-Keeps s3 (ensure_json_config w cfg vs s3)
            (λ s4. next (restart_open_claw w s4) (λ s5. check_gateway_health w s5))
            (ensure_json_config-Keeps cfg vs s3 jt jp)
            (λ s4.
              next-Keeps s4 (restart_open_claw w s4) (λ s5. check_gateway_health w s5)
                (restart_open_claw-Keeps s4) check_gateway_health-Keeps))

  pub apply_steps-Keeps :
      (vs : Values) (s : Live) → KeepsState w s.config → Keeps s (apply_steps w vs s)
  unfolding apply_steps
  apply_steps-Keeps vs s k =
      let cfg = s.config.openclaw in
      let files : Live → Stage = λ s2. next (env_stage w cfg vs s2) (λ s3.
        next (ensure_json_config w cfg vs s3)
          (λ s4. next (restart_open_claw w s4) (λ s5. check_gateway_health w s5))) in
      next-Keeps_same s (make_work_dir w s) (λ s1. next (update_daemon_cloud_ws_url w vs s1) files)
        (make_work_dir_same s)
        (next-Keeps s (update_daemon_cloud_ws_url w vs s) files
          (update-Keeps vs s k.url_temp k.config_path)
          (λ s2. file_steps-Keeps cfg vs s2 k.env_temp k.json_temp k.env_path k.json_path))

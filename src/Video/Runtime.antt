-- ===== src/Video/Runtime.antt =====
-- The environment file and the settings that a task is made with.
use ubuntu_daemon.Base.{
  Bool, false, ◌&&◌, ◌||◌, not, none, some, List, [], ◌∷◌, Text, Result, ok, err, leb, is_nil,
  length, if◌then◌else◌,
}
use ubuntu_daemon.Base.Int.{ℤ}
use ubuntu_daemon.Text.{
  lit, text_eq, has_prefix, has_suffix, after, trim, is_quote, trim_space, is_blank, equal_fold,
  cut, split,
}
use ubuntu_daemon.Config.{Environment, VideoConfig}
use ubuntu_daemon.Manager.{Values, value_at}
use ubuntu_daemon.Video.Words.{
  parse_bool, parse_int_or_default, normalize_model_name, first_non_empty,
}

-- `result[key] = value`.
unfoldable pub set_value : Values → Text → Text → Values
set_value [] key value = (key, value) ∷ []
set_value ((k, v) ∷ vs) key value =
    let rest = set_value vs key value in if text_eq k key then (k, value) ∷ vs else (k, v) ∷ rest

-- One line of the file.
unfoldable pub read_line : Values → Text → Values
read_line vs raw =
    let line = trim_space raw in
    if is_nil line || has_prefix line (lit "#") then vs else elim (cut b'=' line) [
      | none ↦ vs
      | some (k, v) ↦
          if is_blank k then vs else set_value vs (trim_space k) (trim is_quote (trim_space v))
    ]

unfoldable pub read_lines : Values → List Text → Values
read_lines vs [] = vs
read_lines vs (line ∷ lines) = read_lines (read_line vs line) lines

-- `loadEnvFile`: no values if the file cannot be read.
unfoldable pub load_env_file : Result Text → Values
load_env_file (err why) = []
load_env_file (ok content) = read_lines [] (split b'\n' content)

unfoldable pub enabled : Environment → Result Text → VideoConfig → Bool
enabled env file cfg =
    if not (equal_fold (trim_space cfg.provider) (lit "minimax"))
    then false
    else cfg.enabled
      || (parse_bool (value_at (load_env_file file) (lit "VIDEO_GENERATION_ENABLED"))
          || parse_bool (env (lit "VIDEO_GENERATION_ENABLED")))

-- `strings.TrimSuffix(s, "}")`.
unfoldable pub without_brace : Text → Text
without_brace [] = []
without_brace (c ∷ []) = if text_eq (c ∷ []) (lit "}") then [] else c ∷ []
without_brace (c ∷ d ∷ s) = c ∷ without_brace (d ∷ s)

unfoldable pub resolve_env_reference : Environment → Values → Text → Text
resolve_env_reference env vs raw =
    let value = trim_space raw in
    let key = trim_space (without_brace (after value (lit "${"))) in
    let from_os = trim_space (env key) in
    if leb 4 (length value) && (has_prefix value (lit "${") && has_suffix value (lit "}"))
    then (if is_nil key
        then []
        else if is_nil from_os
        then trim_space (value_at vs key)
        else from_os)
    else value

pub record RuntimeConfig : Type 0 where
  pub api_key : Text
  pub model : Text
  pub duration : ℤ
  pub resolution : Text
  pub prompt_optimizer : Bool

-- The variable, from the environment and then from the file.
abbrev either : Environment → Values → Text → List Text → Text
either env vs name defaults = first_non_empty (env name ∷ value_at vs name ∷ defaults)

abbrev if_empty : Text → Text → Text
if_empty value default = if is_nil value then default else value

unfoldable pub resolve_runtime_config :
    Environment → Result Text → VideoConfig → Result RuntimeConfig
resolve_runtime_config env file cfg =
    let vs = load_env_file file in
    let own = resolve_env_reference env vs (either env vs (lit "VIDEO_PROVIDER_API_KEY") []) in
    let api_key =
      if is_blank own then trim_space (either env vs (lit "MINIMAX_API_KEY") []) else own in
    let named =
      trim_space (either env vs (lit "VIDEO_GENERATION_MODEL") (cfg.default_model ∷ [])) in
    let resolution =
      trim_space
        (either env vs (lit "VIDEO_GENERATION_RESOLUTION") (cfg.default_resolution ∷ [])) in
    if is_blank api_key
    then err (lit "missing VIDEO_PROVIDER_API_KEY/MINIMAX_API_KEY in daemon env")
    else ok (record {
      api_key = api_key;
      model = if_empty (normalize_model_name named) (lit "MiniMax-Hailuo-2.3");
      duration =
          parse_int_or_default (either env vs (lit "VIDEO_GENERATION_DURATION") [])
            cfg.default_duration;
      resolution = if_empty resolution (lit "768P");
      prompt_optimizer = cfg.prompt_optimizer;
    })

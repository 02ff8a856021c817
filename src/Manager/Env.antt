-- ===== src/Manager/Env.antt =====
-- The environment file: `writeEnv`, `shellEscape`, `trimEnvValue` and `loadGatewayTokenFromEnvFile`.
use ubuntu_daemon.Base.{
  ℕ, ◌-◌, Bool, true, false, ◌&&◌, ◌||◌, not, Option, none, some, List, [], ◌∷◌, ◌++◌, map, reverse,
  Text, ltb, ◌==◌, is_nil, length, take, drop, if◌then◌else◌,
}
use ubuntu_daemon.Text.{
  lit, text_eq, contains_text, has_prefix, trim_space, join, replace_byte, split, cut,
}
use ubuntu_daemon.Files.{Calls, Disk, Outcome, read, store_write_file}
use ubuntu_daemon.Config.{OpenClawConfig, Environment}

-- A `map[string]string`: no key stands twice.
abbrev pub Values : Type 0
Values = List (Text × Text)

unfoldable pub find : Values → Text → Option Text
find [] key = none
find ((k, v) ∷ vs) key = if text_eq k key then some v else find vs key

-- `values[key]`.
unfoldable pub value_at : Values → Text → Text
value_at vs key = elim (find vs key) [ some v ↦ v | none ↦ [] ]

unfoldable pub is_daemon_only_config_key : Text → Bool
is_daemon_only_config_key key =
    contains_text
      (lit "CLOUD_WS_URL"
        ∷ lit "EDGE_GATEWAY_WS_URL"
        ∷ lit "PROVIDER_API_KEY_ENV"
        ∷ lit "PROVIDER_BASE_URL"
        ∷ lit "PROVIDER_API_TYPE"
        ∷ [])
      key

-- A key that is missing takes the value of API_KEY.
unfoldable pub with_fallback : Text → Values → Values
with_fallback key vs = elim (find vs key) [
  | some v ↦ vs
  | none ↦ elim (find vs (lit "API_KEY")) [
    | none ↦ vs
    | some v ↦ if is_nil v then vs else vs ++ ((key, v) ∷ [])
  ]
]

unfoldable pub effective : Values → Values
effective vs =
    with_fallback (lit "MINIMAX_API_KEY") (with_fallback (lit "VORTEX_OPENAI_API_KEY") vs)

unfoldable pub env_keys : Values → List Text
env_keys [] = []
env_keys ((k, v) ∷ vs) =
    let rest = env_keys vs in if is_daemon_only_config_key k then rest else k ∷ rest

-- The order of Go strings.
unfoldable pub text_le : Text → Text → Bool
text_le [] t = true
text_le (c ∷ s) [] = false
text_le (c ∷ s) (d ∷ t) = ltb c d || (c == d && text_le s t)

unfoldable pub insert_key : Text → List Text → List Text
insert_key k [] = k ∷ []
insert_key k (l ∷ ls) = let rest = insert_key k ls in if text_le k l then k ∷ l ∷ ls else l ∷ rest

-- `sort.Strings`.
unfoldable pub sort_keys : List Text → List Text
sort_keys [] = []
sort_keys (k ∷ ks) = insert_key k (sort_keys ks)

abbrev pub single_quote : ℕ
single_quote = 0x27

abbrev pub double_quote : ℕ
double_quote = 0x22

unfoldable pub shell_escape : Text → Text
shell_escape value =
    single_quote
    ∷ (replace_byte single_quote
          (single_quote ∷ double_quote ∷ single_quote ∷ double_quote ∷ single_quote ∷ []) value
        ++ (single_quote ∷ []))

unfoldable pub env_lines : Values → List Text → List Text
env_lines vs keys = map (λ key. key ++ (lit "=" ++ shell_escape (value_at vs key))) keys

unfoldable pub env_content : Values → Text
env_content values =
    let vs = effective values in
    let content = join (lit "\n") (env_lines vs (sort_keys (env_keys vs))) in
    if is_nil content then content else content ++ lit "\n"

unfoldable pub write_env : Calls → OpenClawConfig → Values → Disk → Outcome
write_env calls cfg values d = store_write_file calls cfg.env_file (env_content values) 0o600 d

-- `len(value) >= 2` and `value[0] == value[len(value)-1] == q`.
unfoldable pub is_quoted_by : ℕ → Text → Bool
is_quoted_by q [] = false
is_quoted_by q (c ∷ []) = false
is_quoted_by q (c ∷ d ∷ s) =
    has_prefix (c ∷ d ∷ s) (q ∷ []) && has_prefix (reverse (c ∷ d ∷ s)) (q ∷ [])

unfoldable pub trim_env_value : Text → Text
trim_env_value raw =
    let value = trim_space raw in
    if is_quoted_by single_quote value || is_quoted_by double_quote value
    then take (length value - 2) (drop 1 value)
    else value

-- The value of the first line that assigns the key.
unfoldable pub token_in : Text → List Text → Option Text
token_in env_key [] = none
token_in env_key (raw ∷ lines) =
    let later = token_in env_key lines in
    let line = trim_space raw in
    if is_nil line || has_prefix line (lit "#") then later else elim (cut b'=' line) [
      | none ↦ later
      | some (key, value) ↦
          if text_eq (trim_space key) env_key then some (trim_env_value value) else later
    ]

abbrev pub token_key : OpenClawConfig → Text
token_key cfg =
    if is_nil cfg.gateway_token_env_key
    then lit "OPENCLAW_GATEWAY_TOKEN"
    else cfg.gateway_token_env_key

-- `none` for an error, which the caller only tests for.
unfoldable pub load_gateway_token_from_env_file : Environment → OpenClawConfig → Disk → Option Text
load_gateway_token_from_env_file env cfg d =
    let token = trim_space (env (token_key cfg)) in
    if not (is_nil token) then some token else elim (read d cfg.env_file) [
      | none ↦ none
      | some f ↦ token_in (token_key cfg) (split b'\n' f.content)
    ]

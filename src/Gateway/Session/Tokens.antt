-- ===== src/Gateway/Session/Tokens.antt =====
-- `loadGatewayToken`, `resolveConnectAuth`, `loadStoredGatewayDeviceToken`,
-- `persistGatewayDeviceToken`, `loadOrCreateGatewayIdentity` and the gateway's `trimEnvValue`.
use ubuntu_daemon.Base.{
  Bool, ◌&&◌, ◌||◌, not, Option, none, some, List, [], ◌∷◌, ◌++◌, Text, Result, ok, err, is_nil,
  if◌then◌else◌,
}
use ubuntu_daemon.Text.{lit, text_eq, has_prefix, trim_space, trim, is_quote, is_blank, split, cut}
use ubuntu_daemon.Config.{OpenClawConfig, Environment}
use ubuntu_daemon.Files.{Calls, Disk, read}
use ubuntu_daemon.Store.{DeviceIdentity, State, FileStore, load, save}

-- `goos` is `runtime.GOOS`, `missing` the error of `os.ReadFile` where there is no file, `quote` the verb %q.
pub record Adapter : Type 0 where
  pub cfg : OpenClawConfig
  pub daemon_version : Text
  pub state_store : Option FileStore
  pub environment : Environment
  pub goos : Text
  pub missing : Text
  pub quote : Text → Text

-- What the operating system answers to one load of the state file and the save behind it.
pub record StateAccess : Type 0 where
  pub load_failure : Option Text
  pub calls : Calls

unfoldable pub trim_env_value : Text → Text
trim_env_value value = trim is_quote (trim_space value)

-- The value of the first line that assigns the key.
unfoldable pub gateway_token_in : Text → List Text → Option Text
gateway_token_in env_key [] = none
gateway_token_in env_key (raw ∷ lines) =
    let later = gateway_token_in env_key lines in
    let line = trim_space raw in
    if is_nil line || has_prefix line (lit "#") then later else elim (cut b'=' line) [
      | none ↦ later
      | some (key, value) ↦
          if not (text_eq (trim_space key) env_key) then later else some (trim_env_value value)
    ]

abbrev pub token_env_key : OpenClawConfig → Text
token_env_key cfg =
    if is_nil cfg.gateway_token_env_key
    then lit "OPENCLAW_GATEWAY_TOKEN"
    else cfg.gateway_token_env_key

unfoldable pub load_gateway_token : Adapter → Disk → Result Text
load_gateway_token a d =
    let key = token_env_key a.cfg in
    let token = trim_space (a.environment key) in
    if not (is_nil token) then ok token else elim (read d a.cfg.env_file) [
      | none ↦ err (lit "load gateway token from " ++ (a.cfg.env_file ++ (lit ": " ++ a.missing)))
      | some f ↦ elim (gateway_token_in key (split b'\n' f.content)) [
        | none ↦ err (lit "gateway token " ++ (a.quote key ++ lit " is missing"))
        | some value ↦ ok value
      ]
    ]

-- An adapter may have no state store.
unfoldable pub load_stored_gateway_device_token : Option FileStore → Option Text → Disk → Text
load_stored_gateway_device_token none failure d = []
load_stored_gateway_device_token (some s) failure d = elim (load s failure d) [
  | err why ↦ []
  | ok state ↦ state.gateway_device_token
]

unfoldable pub persist_gateway_device_token :
    Option FileStore → StateAccess → Text → Disk → Result (Unit {0}) × Disk
persist_gateway_device_token none access token d = (ok tt, d)
persist_gateway_device_token (some s) access token d =
    if is_blank token then (ok tt, d) else elim (load s access.load_failure d) [
      | err why ↦ (err why, d)
      | ok state ↦ save s access.calls (record state { gateway_device_token = trim_space token }) d
    ]

-- All three texts of an identity say something.
unfoldable pub is_complete : DeviceIdentity → Bool
is_complete i =
    not (is_blank i.device_id)
    && (not (is_blank i.public_key_pem) && not (is_blank i.private_key_pem))

abbrev pub stored_identity : State → Option DeviceIdentity
stored_identity state = elim state.gateway_device_identity [
  | none ↦ none
  | some i ↦ if is_complete i then some i else none
]

-- A new identity is put into the state and saved.
unfoldable pub save_identity :
    FileStore → Calls → State → Result DeviceIdentity → Disk → Result DeviceIdentity × Disk
save_identity s calls state (err why) d = (err why, d)
save_identity s calls state (ok i) d =
    let (r, d') = save s calls (record state { gateway_device_identity = some i }) d in
    elim r [ err why ↦ (err why, d') | ok _ ↦ (ok i, d') ]

-- `created` is what `createDeviceIdentity` gives, if it is called.
unfoldable pub load_or_create_gateway_identity :
    Option FileStore → Result DeviceIdentity → StateAccess → Disk → Result DeviceIdentity × Disk
load_or_create_gateway_identity none created access d = (created, d)
load_or_create_gateway_identity (some s) created access d = elim (load s access.load_failure d) [
  | err why ↦ (err why, d)
  | ok state ↦ elim (stored_identity state) [
    | some i ↦ (ok i, d)
    | none ↦ save_identity s access.calls state created d
  ]
]

pub record ConnectAuth : Type 0 where
  pub header_token : Text
  pub connect_token : Text
  pub connect_auth_key : Text
  pub signature_token : Text

abbrev pub auth_by : Text → Text → ConnectAuth
auth_by key token = record {
  header_token = token;
  connect_token = token;
  connect_auth_key = key;
  signature_token = token;
}

-- The token that the gateway gave the device comes before the one of the environment.
unfoldable pub resolve_connect_auth : Adapter → Option Text → Disk → Result ConnectAuth
resolve_connect_auth a failure d =
    let device_token = trim_space (load_stored_gateway_device_token a.state_store failure d) in
    if not (is_nil device_token)
    then ok (auth_by (lit "deviceToken") device_token)
    else elim (load_gateway_token a d) [
      | err why ↦ err why
      | ok token ↦ ok (auth_by (lit "token") token)
    ]

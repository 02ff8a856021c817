-- ===== src/Config/Env.antt =====
-- `ConfigPathFromEnv`, `Load`, the overrides from the environment, the MAC address as the fallback
-- for the device's id, and `UpdateCloudWSURL` with `persist`. The environment, the network
-- interfaces, the file system and `encoding/json` are arguments.
use ubuntu_daemon.Base.{
  ℕ, ◌/◌, ◌%◌, ◌+◌, ◌-◌, Bool, true, false, ◌&&◌, ◌||◌, not, Option, none, some, List, [], ◌∷◌,
  ◌++◌, map, Text, Result, ok, err, is_nil, ltb, if◌then◌else◌,
}
use ubuntu_daemon.Text.{lit, trim_space, is_blank, has_prefix, to_lower, join}
use ubuntu_daemon.Files.{Calls, Disk, store_write_file}
use ubuntu_daemon.Config.Types.{Config}
use ubuntu_daemon.Config.Default.{default_config}
use ubuntu_daemon.Config.Normalize.{normalize, text_or}

-- `os.Getenv`: the empty text for a variable that is not set.
abbrev pub Environment : Type 0
Environment = Text → Text

unfoldable pub config_path_from_env : Environment → Text
config_path_from_env env = text_or (env (lit "OPENCLAW_DAEMON_CONFIG")) (lit "config/daemon.json")

-- The URL that the host, port and path variables spell.
abbrev spelled_url : Environment → Text → Text
spelled_url env host =
    let scheme = text_or (trim_space (env (lit "OPENCLAW_CLOUD_SCHEME"))) (lit "ws") in
    let port = text_or (trim_space (env (lit "OPENCLAW_CLOUD_PORT"))) (lit "18080") in
    let named = text_or (trim_space (env (lit "OPENCLAW_CLOUD_WS_PATH"))) (lit "/ws/device") in
    let ws_path = if has_prefix named (lit "/") then named else lit "/" ++ named in
    scheme ++ (lit "://" ++ (host ++ (lit ":" ++ (port ++ ws_path))))

unfoldable pub override_ws_url : Environment → Text → Text
override_ws_url env ws_url =
    let direct = trim_space (env (lit "OPENCLAW_CLOUD_WS_URL")) in
    let edge = trim_space (env (lit "EDGE_GATEWAY_WS_URL")) in
    let host = trim_space (env (lit "OPENCLAW_CLOUD_HOST")) in
    if not (is_nil direct)
    then direct
    else if not (is_nil edge)
    then edge
    else if is_nil host
    then ws_url
    else spelled_url env host

unfoldable pub apply_env_overrides : Environment → Config → Config
apply_env_overrides env c =
    let id = trim_space (env (lit "OPENCLAW_DEVICE_ID")) in
    record c {
      device_id = if not (is_nil id) then id else c.device_id;
      cloud = record c.cloud { ws_url = override_ws_url env c.cloud.ws_url };
    }

-- What the code reads of a `net.Interface`.
pub record Interface : Type 0 where
  pub loopback : Bool
  pub up : Bool
  pub hardware_addr : List ℕ

abbrev pub hex_digit : ℕ → ℕ
hex_digit n = if ltb n 10 then b'0' + n else b'a' + (n - 10)

-- `HardwareAddr.String`.
unfoldable pub mac_text : List ℕ → Text
unfolding join
mac_text addr = join (lit ":") (map (λ b. hex_digit (b / 16) ∷ hex_digit (b % 16) ∷ []) addr)

-- One pass over the interfaces: the first that is no loopback, has an address and, on the first
-- pass, is up.
unfoldable pub first_mac : Bool → List Interface → Option Text
unfolding mac_text to_lower
first_mac need_up [] = none
first_mac need_up (i ∷ is) =
    if i.loopback || (need_up && not i.up) || is_nil i.hardware_addr
    then first_mac need_up is
    else some (to_lower (mac_text i.hardware_addr))

unfoldable pub detect_primary_mac : Result (List Interface) → Text
unfolding first_mac
detect_primary_mac (err e) = []
detect_primary_mac (ok is) = elim (first_mac true is) [
  | some mac ↦ mac
  | none ↦ elim (first_mac false is) [ some mac ↦ mac | none ↦ [] ]
]

unfoldable pub apply_device_id_fallback : Result (List Interface) → Config → Config
apply_device_id_fallback ifaces c =
    let mac = detect_primary_mac ifaces in
    if not (is_blank c.device_id) then c else if is_nil mac then c else record c { device_id = mac }

-- `Load`: the text of the file, and `json.Unmarshal` onto the defaults.
unfoldable pub load :
    Environment
    → Result (List Interface)
    → (Text → Config → Result Config)
    → Result Text
    → Text
    → Result Config
load env ifaces decode (err e) path = err (lit "read config " ++ (path ++ (lit ": " ++ e)))
load env ifaces decode (ok text) path = elim (decode text default_config) [
  | err e ↦ err (lit "parse config " ++ (path ++ (lit ": " ++ e)))
  | ok c ↦
      normalize path
        (apply_device_id_fallback ifaces (apply_env_overrides env (record c { path = path })))
]

-- The daemon's configuration in memory, and the disk.
pub record Live : Type 0 where
  pub config : Config
  pub disk : Disk

unfoldable pub persist : (Config → Result Text) → Calls → Live → Result (Unit {0}) × Live
persist encode calls s = elim (encode s.config) [
  | err e ↦ (err (lit "marshal daemon config: " ++ e), s)
  | ok text ↦
      let out = store_write_file calls s.config.path (text ++ lit "\n") 0o644 s.disk in
      (out.result, record s { disk = out.disk })
]

unfoldable pub update_cloud_ws_url :
    (Config → Result Text) → Calls → Text → Live → Result (Unit {0}) × Live
update_cloud_ws_url encode calls ws_url s =
    let url = trim_space ws_url in
    if is_nil url
    then (ok tt, s)
    else persist encode calls
        (record s { config = record s.config { cloud = record s.config.cloud { ws_url = url } } })

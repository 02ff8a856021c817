-- ===== src/Config/Laws/Reload.antt =====
-- `Load` and `UpdateCloudWSURL`: a loaded configuration is bounded, and an address that the cloud
-- has pushed is what the daemon finds when it starts again.
use ubuntu_daemon.Base.{
  ◌≡◌, ◌≢◌, refl, sym, ap, ◌∙◌, false, some, List, [], ◌++◌, arith, Text, Result, ok, err, is_ok,
  is_nil, if◌then◌else◌,
}
use ubuntu_daemon.Text.{lit, trim_space, is_blank}
use ubuntu_daemon.Files.{Calls, File, read}
use ubuntu_daemon.Files.Laws.{store_write_file_result}
use ubuntu_daemon.Config.{
  Config, Environment, Interface, Live, default_config, apply_env_overrides, override_ws_url,
  apply_device_id_fallback, normalize, load, persist, update_cloud_ws_url,
}
use ubuntu_daemon.Config.Laws.Normal.{
  IsBounded, HasRootedPaths, normalize-IsBounded, normalize_of_IsBounded,
}

-- Whatever the file, the environment and the network interfaces hold, a configuration that `Load`
-- returns has every bound that `normalize` sets.
pub load-IsBounded :
    (env : Environment) (ifaces : Result (List Interface)) (decode : Text → Config → Result Config)
    (file : Result Text) (path : Text) (c : Config)
    → load env ifaces decode file path ≡ ok c
    → IsBounded c
unfolding load
load-IsBounded env ifaces decode (err e) path c h = absurd (cc)
load-IsBounded env ifaces decode (ok text) path c h = from (decode text default_config) refl
  where
    from : (r : Result Config) → decode text default_config ≡ r → IsBounded c
    from (err e) d = absurd (ground arith)
    from (ok c₀) d =
        normalize-IsBounded path
          (apply_device_id_fallback ifaces (apply_env_overrides env (record c₀ { path = path }))) c
          (ground arith)

apply_env_overrides_of_empty :
    (env : Environment) (c : Config) → ((k : Text) → env k ≡ []) → apply_env_overrides env c ≡ c
unfolding apply_env_overrides override_ws_url trim_space
apply_env_overrides_of_empty env c h = simp (
  h (lit "OPENCLAW_DEVICE_ID"),
  h (lit "OPENCLAW_CLOUD_WS_URL"),
  h (lit "EDGE_GATEWAY_WS_URL"),
  h (lit "OPENCLAW_CLOUD_HOST"),
)

apply_device_id_fallback_of_id :
    (ifaces : Result (List Interface)) (c : Config)
    → is_blank c.device_id ≡ false
    → apply_device_id_fallback ifaces c ≡ c
unfolding apply_device_id_fallback
apply_device_id_fallback_of_id ifaces c h = ground arith

abbrev pub with_url : Config → Text → Config
with_url c url = record c { cloud = record c.cloud { ws_url = url } }

-- An address that is not blank is in use at once, without its surrounding white space and with all
-- other settings kept, whether or not the file could be written; the file at the configuration's
-- path is the encoded new configuration if the call succeeds, and what it was if it fails.
pub update_cloud_ws_url_lem :
    (encode : Config → Result Text) (calls : Calls) (url text : Text) (s : Live)
    → is_nil (trim_space url) ≡ false
    → encode (with_url s.config (trim_space url)) ≡ ok text
    → calls.temp_name ≢ s.config.path
    → ((update_cloud_ws_url encode calls url s).1.config ≡ with_url s.config (trim_space url))
      × (read (update_cloud_ws_url encode calls url s).1.disk s.config.path ≡ (
          if is_ok (update_cloud_ws_url encode calls url s).0
          then some (record { content = text ++ lit "\n"; mode = 0o644 })
          else read s.disk s.config.path))
unfolding update_cloud_ws_url persist
update_cloud_ws_url_lem encode calls url text s u e ne =
    ground (arith, store_write_file_result calls s.config.path (text ++ lit "\n") 0o644 s.disk ne)

with_url-IsBounded :
    (c : Config) (url : Text) → is_nil url ≡ false → IsBounded c → IsBounded (with_url c url)
with_url-IsBounded c url u h = record {
  device = h.device;
  url = ground arith;
  cloud = record {
    connect = h.cloud.connect;
    ping = h.cloud.ping;
    reconnect = h.cloud.reconnect;
    ordered = h.cloud.ordered;
  };
  openclaw = h.openclaw;
  remote = h.remote;
  video = h.video;
}

with_url-HasRootedPaths :
    (c : Config) (url : Text) → HasRootedPaths c → HasRootedPaths (with_url c url)
with_url-HasRootedPaths c url h = record {
  work = h.work;
  env = h.env;
  json = h.json;
  temp = h.temp;
  state = h.state;
}

-- Decoding a bounded configuration with an empty environment gives it back.
load_of_IsBounded :
    (decode : Text → Config → Result Config) (env : Environment) (ifaces : Result (List Interface))
    (text : Text) (c : Config)
    → decode text default_config ≡ ok (record c { path = [] })
    → ((k : Text) → env k ≡ [])
    → is_blank c.device_id ≡ false
    → IsBounded c
    → HasRootedPaths c
    → load env ifaces decode (ok text) c.path ≡ ok c
unfolding load
load_of_IsBounded decode env ifaces text c d quiet id bounded rooted =
    let prepared =
      ap (apply_device_id_fallback ifaces) (apply_env_overrides_of_empty env c quiet) in
    rw (d, load)
      (ap (normalize c.path) (prepared ∙ apply_device_id_fallback_of_id ifaces c id)
        ∙ normalize_of_IsBounded c.path c bounded rooted)

-- After a pushed address was stored, a daemon that starts with the same configuration path and
-- no overriding environment has exactly the configuration that was in use, the new address
-- included. Conditions: the configuration in use is bounded with absolute paths and a device id
-- that is not blank, the stored JSON decodes to what was encoded, and the address is not blank.
pub load-update_cloud_ws_url :
    (encode : Config → Result Text) (decode : Text → Config → Result Config) (calls : Calls)
    (env : Environment) (ifaces : Result (List Interface)) (url text : Text) (s : Live)
    → is_nil (trim_space url) ≡ false
    → encode (with_url s.config (trim_space url)) ≡ ok text
    → decode (text ++ lit "\n") default_config
      ≡ ok (record (with_url s.config (trim_space url)) { path = [] })
    → calls.temp_name ≢ s.config.path
    → ((k : Text) → env k ≡ [])
    → is_blank s.config.device_id ≡ false
    → IsBounded s.config
    → HasRootedPaths s.config
    → (update_cloud_ws_url encode calls url s).0 ≡ ok tt
    → (f : File) × (read (update_cloud_ws_url encode calls url s).1.disk s.config.path ≡ some f)
      × (load env ifaces decode (ok f.content) s.config.path
          ≡ ok (update_cloud_ws_url encode calls url s).1.config)
load-update_cloud_ws_url encode decode calls env ifaces url text s u e d ne quiet id bounded rooted
      done =
    let c = with_url s.config (trim_space url) in
    let (memory, file) = update_cloud_ws_url_lem encode calls url text s u e ne in
    (
      record { content = text ++ lit "\n"; mode = 0o644 },
      file ∙ rw done,
      load_of_IsBounded decode env ifaces (text ++ lit "\n") c d quiet id
            (with_url-IsBounded s.config (trim_space url) u bounded)
            (with_url-HasRootedPaths s.config (trim_space url) rooted)
          ∙ ap ok (sym memory),
    )

-- ===== src/Tests/Settings.antt =====
-- A configuration with its defaults, normalized, loaded, and moved to another cloud.
use ubuntu_daemon.Base.{◌≡◌, ◌≢◌, refl, true, some, List, [], Text, Result, ok, err, if◌then◌else◌}
use ubuntu_daemon.Text
use ubuntu_daemon.Text.{lit, trim_space}
use ubuntu_daemon.Files
use ubuntu_daemon.Files.{Calls, all_succeed, File, Disk, read}
use ubuntu_daemon.Config
use ubuntu_daemon.Config.{
  Config, Environment, Interface, Live, default_config, normalize, normalized, load,
  update_cloud_ws_url, dir, is_abs,
}
use ubuntu_daemon.Config.Laws.Normal.{
  IsBounded, HasRootedPaths, normalize-IsBounded, normalize-HasRootedPaths,
}
use ubuntu_daemon.Config.Laws.Reload.{load-update_cloud_ws_url, with_url}

-- All that a normalization computes with.
run_config : Unit {0}
unfolding lit Text.text_eq Text.trim_space Text.is_blank Text.trim_left Text.trim_right Text.trim
    Text.has_prefix Text.to_lower Text.join Text.split_from Text.split Config.clean
    Config.join_paths Config.dir Config.is_abs Config.abs_path Config.normalize_cloud
    Config.normalize_openclaw Config.normalize_remote Config.normalize_video Config.normalized
    Config.normalize Config.override_ws_url Config.apply_env_overrides Config.detect_primary_mac
    Config.apply_device_id_fallback Config.load Config.persist Config.update_cloud_ws_url Files.read
    Files.write Files.remove Files.write_atomically Files.store_write_file
run_config = tt

abbrev file_path : Text
file_path = lit "/etc/d.json"

abbrev named : Config
named = record default_config { path = file_path; device_id = lit "d1" }

abbrev normal : Config
normal = normalized file_path named

normalize-named : normalize file_path named ≡ ok normal
unfolding run_config
normalize-named = refl

normalize-IsBounded_example : IsBounded normal
normalize-IsBounded_example = normalize-IsBounded file_path named normal normalize-named

normal-IsBounded : IsBounded normal
normal-IsBounded = normalize-IsBounded file_path named normal normalize-named

absolute : is_abs (dir file_path) ≡ true
unfolding run_config
absolute = refl

normalize-HasRootedPaths_example : HasRootedPaths normal
normalize-HasRootedPaths_example =
    normalize-HasRootedPaths file_path named normal absolute normalize-named

normal-HasRootedPaths : HasRootedPaths normal
normal-HasRootedPaths = normalize-HasRootedPaths file_path named normal absolute normalize-named

abbrev quiet : Environment
quiet k = []

abbrev no_interfaces : Result (List Interface)
no_interfaces = ok []

abbrev decode_named : Text → Config → Result Config
decode_named text c = ok (record c { device_id = lit "d1" })

abbrev live : Live
live = record { config = normal; disk = [] }

abbrev new_url : Text
new_url = lit " ws://c "

abbrev moved : Config
moved = with_url normal (lit "ws://c")

-- A decoder that reads the one file of this test.
abbrev decode_moved : Text → Config → Result Config
decode_moved text c =
    if Text.text_eq text (lit "{}\n")
    then ok (record moved { path = [] })
    else err (lit "unexpected")

abbrev encode_short : Config → Result Text
encode_short c = ok (lit "{}")

abbrev free : Calls
free = all_succeed (lit "/etc/t")

temp-ne-path : lit "/etc/t" ≢ lit "/etc/d.json"
unfolding lit
temp-ne-path = cc

load-update_cloud_ws_url_example :
    (f : File) × (read (update_cloud_ws_url encode_short free new_url live).1.disk file_path
      ≡ some f)
    × (load quiet no_interfaces decode_moved (ok f.content) file_path
        ≡ ok (update_cloud_ws_url encode_short free new_url live).1.config)
unfolding run_config
load-update_cloud_ws_url_example =
    load-update_cloud_ws_url encode_short decode_moved free quiet no_interfaces new_url (lit "{}")
      live refl refl refl temp-ne-path (λ k. refl) refl normal-IsBounded normal-HasRootedPaths refl

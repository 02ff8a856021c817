-- ===== src/Store.antt =====
-- internal/store/state_store.go: the daemon's state file. `encoding/json` and the answers of the
-- operating system are arguments; each call holds the store's mutex for its whole body.
pub mod Laws
use ubuntu_daemon.Base.{
  ℕ, Option, none, some, List, [], ◌∷◌, ◌++◌, Text, Result, ok, err, if◌then◌else◌,
}
use ubuntu_daemon.Base.Int.{ℤ, pos}
use ubuntu_daemon.Text.{lit}
use ubuntu_daemon.Files.{Calls, Disk, File, Outcome, read, write_atomically}

pub record DeviceIdentity : Type 0 where
  pub device_id : Text
  pub public_key_pem : Text
  pub private_key_pem : Text

pub record State : Type 0 where
  pub last_config_version : ℤ
  pub gateway_device_token : Text
  pub gateway_device_identity : Option DeviceIdentity

abbrev pub zero_state : State
zero_state = record {
  last_config_version = pos 0;
  gateway_device_token = [];
  gateway_device_identity = none;
}

pub record FileStore : Type 0 where
  pub path : Text
  pub decode : Text → Result State
  pub encode : State → Result Text

-- `Load`; `failure` is an error of `os.ReadFile` other than `os.ErrNotExist`.
unfoldable pub load : FileStore → Option Text → Disk → Result State
load s (some e) d = err (lit "read state file: " ++ e)
load s none d = elim (read d s.path) [
  | none ↦ ok zero_state
  | some f ↦ elim (s.decode f.content) [
    | err e ↦ err (lit "parse state file: " ++ e)
    | ok state ↦ ok state
  ]
]

unfoldable pub save : FileStore → Calls → State → Disk → Result (Unit {0}) × Disk
save s calls state d = elim calls.mkdir [
  | some e ↦ (err (lit "create state directory: " ++ e), d)
  | none ↦ elim (s.encode state) [
    | err e ↦ (err (lit "marshal state file: " ++ e), d)
    | ok text ↦ let out = write_atomically calls s.path text 0o600 d in (out.result, out.disk)
  ]
]

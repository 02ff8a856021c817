-- ===== src/Manager.antt =====
-- internal/manager/config_manager.go: `ConfigManager.Apply` and its steps. `encoding/json`, the
-- restart command, the health request, the clock and the answers of the operating system are
-- fields of the record `World`. `json.Unmarshal` of the JSON `null`, which leaves a nil map for the
-- next step to panic on, is not modelled: a decoded file is an object.
mod Env
mod Json
mod Apply
pub mod Quoting
pub mod Lines
pub mod Steps
pub mod Versions
pub mod Settings
unfoldable pub use Env.*
unfoldable pub use Json.*
unfoldable pub use Apply.*

-- ===== src/Config/Laws.antt =====
-- What holds of a configuration after `Load`, `normalize` and `UpdateCloudWSURL`.
pub mod Normal
pub mod Reload

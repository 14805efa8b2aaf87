-- ===== src/Profiles.antt =====
-- The profile list of profiles.yaml, crates/clash-verge-core/src/config.
pub mod Item
pub mod Store
pub mod Edit
pub mod Cleanup
pub mod Views

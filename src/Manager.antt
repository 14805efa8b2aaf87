-- ===== src/Manager.antt =====
-- The processes of the cores, src-tui/src/mihomo_manager: when a core that has ended is started again.
pub mod Restarts
pub mod Watcher
pub mod Switch

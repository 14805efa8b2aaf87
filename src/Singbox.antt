-- ===== src/Singbox.antt =====
-- The conversion of a clash configuration to one for sing-box, src-tui/src/singbox.
pub mod Groups
pub mod Dns

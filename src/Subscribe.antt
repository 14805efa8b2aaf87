-- ===== src/Subscribe.antt =====
-- Subscriptions that refresh themselves, src-tui/src/subscribe.
pub mod Timer
pub mod Delay
pub mod Scheduler
pub mod Exit
pub mod Refresh
pub mod Ssrf

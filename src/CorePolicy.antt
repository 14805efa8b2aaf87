-- ===== src/CorePolicy.antt =====
-- The compatibility policy of the two cores, src-tui/src/mihomo_manager/core_policy.rs: semantic
-- versions, their order, and what an observed version means against the pinned one.
pub mod Comparator
pub mod Version
pub mod Parse
pub mod Classify

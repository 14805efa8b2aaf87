-- ===== src/Tests.antt =====
-- Runs of the model at concrete inputs, and each theorem with hypotheses at one where they hold.
mod CorePolicy
mod Scheduling
mod Cleaning
mod Profiles
mod Exits
mod Outbounds
mod Refreshing
mod Trees
mod Hosts
mod Mappings
mod Crashes
mod Rules
mod Keys
mod Groups
mod Nodes
mod Resolvers
mod Switching

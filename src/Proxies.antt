-- ===== src/Proxies.antt =====
-- The view of the proxies, src-tui/src/app/mod.rs and src-tui/src/app/filter.rs. The map of the groups
-- is an association list in the order of its iteration.
pub mod Filter
pub mod Route
pub mod Rows
use clash_verge_cli.Prelude.{String, Bool, false, not, none, some, is_empty, lookup}
use clash_verge_cli.Subscribe.Exit.{ProxyGroup, Groups}

-- `group.all.as_ref().is_some_and(|nodes| !nodes.is_empty())`
abbrev pub has_nodes : ProxyGroup → Bool
has_nodes group = elim group.all_nodes [ none ↦ false | some nodes ↦ not (is_empty nodes) ]

-- the closure `is_group`
abbrev pub is_group : Groups → String → Bool
is_group groups name = elim (lookup name groups) [ none ↦ false | some group ↦ has_nodes group ]

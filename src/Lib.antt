-- ===== src/Lib.antt =====
-- clash-verge-cli: a terminal client that manages the proxy cores mihomo and sing-box.
--
-- The program keeps a list of profiles (profiles.yaml and one file for each profile), downloads
-- the subscriptions that are due, turns the current profile into the configuration of a core, and
-- runs that core. The library models the parts that decide, in Rust, without the terminal, the
-- network and the processes around them.
--
-- CorePolicy follows src-tui/src/mihomo_manager/core_policy.rs: the version that a core reports is
-- parsed (`Version::parse` is `parse`), compared (`Ord for Version` is `Version.cmp`) and
-- classified against the pinned version (`classify`). A text is the list of its code points.
--
-- Profiles follows crates/clash-verge-core/src/config: Profiles/Item has the records of prfitem.rs
-- and `PrfOption::merge`; Profiles/Store, Profiles/Edit, Profiles/Cleanup and Profiles/Views have
-- the operations of `IProfiles` in profiles.rs by their own names. An operation returns the
-- profiles in memory, the disk and its result (`Outcome`), since an error leaves changes in
-- memory. The disk is the interface `Disk`.
--
-- Yaml is the interface to the YAML values of serde_yaml_ng: the operations that the program
-- calls, with their documented laws. Yaml/Access has the accessors, and Yaml/Merge the overlay of
-- mappings that prfitem.rs has as `merge_unknown_fields` and chain.rs as `merge_gui_values` and,
-- for filled mappings only, as `merge_mapping_values`. The recursion goes down the overlay, so the
-- fuel is its depth and one more; the overlay is a finite tree.
--
-- Chain follows src-tui/src/chain.rs: the fragments that change the rules of a configuration are
-- read (`parse_rules_fragment`) and applied (`apply_rules_fragment`), and the DNS settings overlay
-- those of the profile (`apply_dns_override`).
--
-- Proxies follows src-tui/src/app: Route is `outbound_chain` of mod.rs, whose eight rounds are the
-- fuel, Rows is `proxy_display_rows`, and Filter the text filter of filter.rs, with the lower case
-- of a text as an argument. Sorting is that of the standard library, which is stable.
--
-- Routing follows src-tui/src/routing.rs: the rules of a clash configuration are read
-- (`from_clash_rule_str`) and written (`to_clash_rule_str`), texts as lists of code points.
-- Routing/Geo is `classify_geo_value` of src-tui/src/singbox/convert.rs, with the lists of the
-- published names as an argument, since they are a copy of another repository's file names.
--
-- Terminal follows src-tui/src/tui: Input is `map_key` of input.rs, the arms of its match tried in
-- order, and Keymap the remaps of keymap.rs, where each round of the loop over the modifiers
-- shortens the text, so that the fuel is its length and one more.
--
-- Singbox/Groups follows `convert_profile` of src-tui/src/singbox/convert.rs: the groups of the
-- document are classified, settled in rounds and emitted. A set is a list of names; the fuel of the
-- rounds is the number of groups and one more, since each round but the last adds a group.
--
-- Singbox/Dns follows src-tui/src/singbox/dns.rs: the settings and `validate`, the section that
-- `build_dns_section` makes of them, and the lines of the editor in Singbox/Dns/Lines. The errors
-- of `validate` are a data type without their wording.
--
-- Subscribe follows src-tui/src/subscribe: Timer is `due_remote_uids` of timer.rs with the clock
-- as an argument; Delay and Scheduler are the verdict on a delay test, `tick`, `compute_due` and
-- `record_probe_failure` of scheduler.rs on the record of its fields; Exit is
-- `exit_selection_path` of lifecycle.rs, a loop with one round more than there are groups, since
-- each round visits another group; Refresh is the probe of the exit node and the refresh that it
-- forces (`probe_with_lifecycle`, `force_refresh_with_lifecycle`) with its rollback, over the
-- interface `Core` to the core, the controller, the profile store and the disk; Ssrf is the check
-- of a host in ssrf.rs, with the URL parser and the name service as arguments.
--
-- Manager follows src-tui/src/mihomo_manager: Restarts is the limit on automatic restarts of
-- manager.rs, and Watcher is what the watcher of watcher.rs does when its process has ended, in
-- one step without another task in between. Switch is `orchestrate_guided_switch` of manager.rs,
-- Switch/Apply the guards and the steps of `apply_prepared_core` from the swap of `restarting` on,
-- and Switch/Stopped the selection while no core runs (`commit_stopped_selection`), where other
-- programs can change the files between the reading and the writing. They stand over the interface
-- `Outside` to the processes, the controllers, the sockets and the GUI, whose calls may change the
-- state in any way; no other task changes it between two steps. The flag that the old core was
-- stopped is a local variable in the code, and a field of the state here: Switch/Flags says that the
-- calls leave it alone, and that no step but the stop sets it. Switch/Steps and Switch/Disk have
-- what the steps and the operations on files leave, and Switch/Launched how the target is started.
--
-- Prelude has the tests, list functions and texts that the parts share.
--
-- The times are natural numbers of the unit that the code uses; `saturating_sub` is the
-- subtraction of natural numbers; counters wrap where the code's do. Tests has runs of the model
-- and the theorems at concrete inputs, with an implementation of each interface.
--
-- Not modelled: the drawing of the terminal interface and the handlers of its actions, the
-- commands, the client of the controller, processes, signals and sockets, the download of cores,
-- backups, the system proxy, and the conversion of nodes with most of the conversion of
-- configurations to sing-box. They are input and output, or they build large values for code
-- outside the repository.
pub mod Prelude
pub mod Chain
pub mod CorePolicy
pub mod Manager
pub mod Profiles
pub mod Proxies
pub mod Routing
pub mod Singbox
pub mod Subscribe
pub mod Terminal
pub mod Tests
pub mod Yaml

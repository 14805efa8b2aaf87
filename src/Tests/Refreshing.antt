-- ===== src/Tests/Refreshing.antt =====
-- A forced refresh of a profile whose config is the name of its one node.
use clash_verge_cli.Prelude.{
  String, ◌≡◌, refl, ap, Bool, true, Option, none, some, List, [], ◌∷◌, ◌==◌, eq_refl, ◌≤◌,
  if◌then◌else◌,
}
use clash_verge_cli.Profiles.Item.{PrfItem}
use clash_verge_cli.Subscribe.Delay.{measured, ProbeVerdict, alive, dead, classify_delay}
use clash_verge_cli.Subscribe.Scheduler.{
  sing_box, AutoUpdateScheduler, new, refreshed, items, record_probe_failure,
}
use clash_verge_cli.Subscribe.Exit.{validate_apply_target}
use clash_verge_cli.Subscribe.Refresh.{
  done, Core, ProbeOutcome, config_contains_node, reload_with_lifecycle, reload_selected,
  profile_snapshot, restore_profile_snapshot, refreshed_config_has_node,
}
use clash_verge_cli.Subscribe.Refresh.Reload.{LeavesFiles}
use clash_verge_cli.Subscribe.Refresh.Forced.{rolled_back_with, force_refresh, on_verdict, probe}
use clash_verge_cli.Subscribe.Refresh.Forced.Undo.{rolled_back-restores}
use clash_verge_cli.Subscribe.Refresh.Forced.Cause.{IsForced, probe-IsForced}
use clash_verge_cli.Subscribe.Refresh.Forced.Counted.{
  Judged, judged, after_probes, failures_in_row, forced_needs_failures,
}
use clash_verge_cli.Subscribe.Refresh.Forced.Applied.{
  Succeeds, IsReloaded, IsKept, force_refresh-IsApplied,
}
use clash_verge_cli.Tests.Outbounds.{sample, one_outbound, names_outbound}

abbrev profile_of : {M : Type 0} → M → PrfItem M
profile_of unknown = record {
  uid = some "R";
  itype = some "remote";
  name = none;
  file = some "R.yaml";
  desc = none;
  url = none;
  selected = none;
  extra = none;
  updated = some 7;
  option = none;
  home = none;
  file_data = none;
  unknown_fields = unknown;
}

abbrev profile : PrfItem String
profile = profile_of ""

-- The files by name, and whether the core runs.
record Machine : Type 0 where
  files : String → Option String
  running : Bool

abbrev put : String → String → Machine → Machine
put file content w = record w { files = λ f. if file == f then some content else w.files f }

-- A refresh finds the config `Node B`; every node fails its test.
abbrev core_of : {M : Type 0} → M → (String → M) → Core M
core_of unknown read = record {
  World = Machine;
  Bytes = String;
  core_kind = λ w. sing_box;
  is_running = λ w. w.running;
  owns_core = λ w. true;
  probe_enabled = λ w. none;
  snapshot = λ w. items (profile_of unknown ∷ []);
  current_uid = λ w. some "R";
  current_exit_node = λ profiles uid w. w.files "R.yaml";
  delay_test = λ node w. measured (record { delay = 0 });
  reload_profile = λ uid tun w. (w, done);
  reapply_selected = λ node w. (w, done);
  update_remotes = λ uids w. (put "R.yaml" "Node B" w, refreshed (("R", true) ∷ []) []);
  read_file = λ file w. w.files file;
  write_file = put;
  restore_updated = λ uid n w. w;
  parse_mapping = λ bytes. some (read bytes);
  now = λ w. 1000;
}

abbrev core : Core String
core = core_of "" (λ content. content)

abbrev yaml_core : Core sample.Mapping
yaml_core = core_of sample.empty (one_outbound sample)

abbrev has_name : String → String → Bool
has_name config node = config == node

abbrev started : Machine
started = record { files = λ f. if "R.yaml" == f then some "Node A" else none; running = true }

leaves_files : LeavesFiles core
leaves_files = record {
  read-write = λ file b w. rw (eq_refl file) refl;
  read-updated = λ file uid n w. refl;
  read-reload = λ file uid tun w. refl;
  read-reapply = λ file node w. refl;
}

lost_node : (force_refresh core has_name "R" "Node A" true started).1 ≡ rolled_back_with none
unfolding force_refresh reload_selected reload_with_lifecycle validate_apply_target profile_snapshot
    restore_profile_snapshot refreshed_config_has_node
lost_node = refl

rolled_back-restores_example :
    (force_refresh core has_name "R" "Node A" true started).0.files "R.yaml" ≡ some "Node A"
rolled_back-restores_example =
    rolled_back-restores core has_name "R" "Node A" true leaves_files "R.yaml" (profile ∷ []) refl
      started refl (ap (λ (o : ProbeOutcome). o.rolled_back) lost_node)

kept_node :
    Succeeds yaml_core
      (config_contains_node sample)
      "R"
      "Node B"
      true
      (force_refresh yaml_core (config_contains_node sample) "R" "Node B" true started).1
unfolding force_refresh reload_selected reload_with_lifecycle validate_apply_target profile_snapshot
    refreshed_config_has_node
kept_node = rw (names_outbound sample "Node B", force_refresh) (refl, refl, refl)

force_refresh-IsApplied_example :
    IsKept sample yaml_core "R" "Node B" true (put "R.yaml" "Node B" started)
    × IsReloaded yaml_core "R" "Node B" true
        (put "R.yaml" "Node B" started)
        (force_refresh yaml_core (config_contains_node sample) "R" "Node B" true started).0
force_refresh-IsApplied_example =
    force_refresh-IsApplied sample yaml_core "R" "Node B" true started kept_node

abbrev twice_failed : AutoUpdateScheduler
twice_failed = record {
  last_attempt = λ uid. none;
  min_cooldown_secs = 1800;
  probe_failures = 2;
  last_force_refresh = 0;
}

third_probe : (probe core has_name twice_failed true true started).1.1.forced_refresh ≡ true
unfolding probe force_refresh classify_delay record_probe_failure reload_selected
    reload_with_lifecycle validate_apply_target profile_snapshot restore_profile_snapshot
    refreshed_config_has_node
third_probe = refl

probe-IsForced_example :
    IsForced core has_name twice_failed true true started
      (probe core has_name twice_failed true true started).1
probe-IsForced_example = probe-IsForced core has_name twice_failed true true started third_probe

abbrev probed : ProbeVerdict → Judged core has_name
probed verdict = record {
  uid = "R";
  node = "Node A";
  tun = true;
  world = started;
  verdict = verdict;
}

-- Two failures, a success, and three failures.
abbrev before_third : List (Judged core has_name)
before_third = probed dead ∷ probed dead ∷ probed alive ∷ probed dead ∷ probed dead ∷ []

abbrev third : AutoUpdateScheduler × (Machine × ProbeOutcome)
third = judged core has_name (after_probes core has_name new before_third) (probed dead)

third_in_row : third.1.1.forced_refresh ≡ true
unfolding on_verdict force_refresh record_probe_failure reload_selected reload_with_lifecycle
    validate_apply_target profile_snapshot restore_profile_snapshot refreshed_config_has_node new
third_in_row = refl

forced_needs_failures_example : (dead ≡ dead) × (2 ≤ failures_in_row core has_name 0 before_third)
forced_needs_failures_example =
    forced_needs_failures core has_name before_third (probed dead) third_in_row

-- ===== src/Tests/Switching.antt =====
-- Guided switches of a machine whose controller has no node "Lost".
use clash_verge_cli.Manager.Switch.Flags.{KeepsFlag}
use clash_verge_cli.Manager.Switch.Launched.{begun}
use clash_verge_cli.Prelude.{String, ◌≡◌, refl, true, false, none, some, List, [], ◌∷◌, ◌==◌, suc}
use clash_verge_cli.Subscribe.Scheduler.{CoreKind, mihomo, sing_box}
use clash_verge_cli.Subscribe.Refresh.{done}
use clash_verge_cli.Manager.Watcher.{stopped, running}
use clash_verge_cli.Manager.Switch.{
  config, verge, marker, candidate, Files, put, Switching, inspected, free, owned, Outside,
  refuse_if, SwitchResult, switched, restored, switch_outcome, is_some_pid, check_guided_record,
}
use clash_verge_cli.Manager.Switch.Apply.{
  SwitchPlan, guided_tcp_controller_check, capture, switch_prepared,
}
use clash_verge_cli.Manager.Switch.Undone.{reported, IsUndone, switch_prepared-IsUndone}
use clash_verge_cli.Manager.Switch.Stopped.{
  Staging, StoppedResult, selected, unselected, after_publish, publish_checked, stopped_guard,
  commit_guarded, commit_stopped_selection,
}
use clash_verge_cli.Manager.Switch.Stopped.Settled.{IsSettled, commit_stopped_selection_lem}
use clash_verge_cli.Manager.Switch.Committed.{IsSwitched, switch_prepared-IsCommitted}

abbrev down : Switching (Unit {0}) → Switching (Unit {0})
down w = record w { pid = none; state = stopped }

abbrev up : String → Switching (Unit {0}) → Switching (Unit {0})
up path w = record w {
  pid = some 2;
  owns_child = true;
  state = running;
  binary = some path;
  generation = suc w.generation;
}

abbrev verge_text : CoreKind → String
verge_text mihomo = "proxy_core: mihomo"
verge_text sing_box = "proxy_core: singbox"

abbrev machine : Outside (Unit {0})
machine = record {
  is_cancelled = λ w. false;
  gui_running = λ w. false;
  gui_isolation = λ target w. done;
  record_pid = λ w. w.pid;
  record_live = λ w. is_some_pid w.pid;
  inspect_socket = λ w. inspected (is_some_pid w.pid);
  bind_controller = λ w. free;
  owns_listener = λ pid w. owned true;
  controller_released = λ target w. done;
  mixed_port_available = λ w. done;
  stop_core = λ w. (down w, done);
  spawn_core_as = λ core path config w. (up path w, done);
  select_proxy = λ core group node w. (w, refuse_if (node == "Lost") "no such node");
  io_error = λ path w. none;
  with_proxy_core = λ core text. verge_text core;
  marker_text = "singbox";
}

abbrev files_before : Files
files_before (config mihomo) = some "mode: rule"
files_before (config sing_box) = none
files_before verge = some "proxy_core: mihomo"
files_before marker = none
files_before candidate = some "{}"

abbrev to_sing_box : List (String × String) → SwitchPlan
to_sing_box targets = record {
  prepared = record { core = sing_box; path = "/opt/sing-box" };
  generation = 7;
  was_running = true;
  start_if_stopped = false;
  old_kind = mihomo;
  old_binary = some "/opt/mihomo";
  saved = capture machine sing_box files_before;
  selections = ("Main", "Tokyo") ∷ [];
  target_selections = targets;
}

abbrev running_mihomo : Switching (Unit {0})
running_mihomo = record {
  kind = mihomo;
  binary = some "/opt/mihomo";
  state = running;
  pid = some 1;
  owns_child = true;
  generation = 7;
  restarting = false;
  stopped_old = false;
  target_started = false;
  files = files_before;
  outer = tt;
}

abbrev run : List (String × String) → Switching (Unit {0}) × SwitchResult
unfolding switch_prepared
run targets = switch_prepared machine (to_sing_box targets) running_mihomo

lost_node : (run (("Main", "Lost") ∷ [])).1 ≡ restored "no such node"
unfolding switch_prepared check_guided_record guided_tcp_controller_check switch_outcome capture
lost_node = refl

kept_node : (run (("Main", "Tokyo") ∷ [])).1 ≡ switched
unfolding switch_prepared check_guided_record guided_tcp_controller_check switch_outcome
kept_node = refl

rolled_back_kind : (run (("Main", "Lost") ∷ [])).0.kind ≡ mihomo
unfolding switch_prepared check_guided_record guided_tcp_controller_check switch_outcome capture
rolled_back_kind = refl

keeps_flag : KeepsFlag machine
keeps_flag = record {
  stop_keeps = λ w. refl;
  spawn_keeps = λ core path config w. refl;
  select_keeps = λ core group node w. refl;
}

switch_prepared-IsUndone_example :
    (u : Switching (Unit {0})) × IsUndone machine
      (to_sing_box (("Main", "Lost") ∷ []))
      files_before
      running_mihomo
      u
    × ((run (("Main", "Lost") ∷ [])).0
        ≡ reported machine (to_sing_box (("Main", "Lost") ∷ [])) "no such node" u)
unfolding switch_prepared check_guided_record guided_tcp_controller_check switch_outcome capture
switch_prepared-IsUndone_example =
    switch_prepared-IsUndone machine (to_sing_box (("Main", "Lost") ∷ [])) keeps_flag files_before
      running_mihomo {v = (run (("Main", "Lost") ∷ [])).0} {e = "no such node"} refl refl

switch_prepared-IsCommitted_example :
    (u : Switching (Unit {0})) × IsSwitched machine
      (to_sing_box (("Main", "Tokyo") ∷ []))
      (begun running_mihomo)
      u
    × ((run (("Main", "Tokyo") ∷ [])).0 ≡ record u { restarting = false })
unfolding switch_prepared check_guided_record guided_tcp_controller_check switch_outcome
switch_prepared-IsCommitted_example =
    switch_prepared-IsCommitted machine (to_sing_box (("Main", "Tokyo") ∷ [])) running_mihomo
      {v = (run (("Main", "Tokyo") ∷ [])).0} refl

abbrev staging : Files → Staging (Unit {0})
staging others = record {
  insert_proxy_core = λ core text. some (verge_text core);
  stage_error = λ w. none;
  own_marker = "tui";
  elsewhere = λ w. others;
}

abbrev idle_mihomo : Switching (Unit {0})
idle_mihomo = down running_mihomo

abbrev select_sing_box : Files → Switching (Unit {0}) × StoppedResult
unfolding commit_stopped_selection
select_sing_box others =
    commit_stopped_selection machine (staging others) 7 mihomo sing_box idle_mihomo

selects : (select_sing_box files_before).1 ≡ selected
unfolding commit_stopped_selection check_guided_record guided_tcp_controller_check after_publish
    publish_checked stopped_guard commit_guarded
selects = refl

edited_meanwhile :
    (select_sing_box (put verge (some "theme: dark") files_before)).1
    ≡ unselected "Core selection settings changed during preparation; retry"
unfolding commit_stopped_selection check_guided_record guided_tcp_controller_check after_publish
    publish_checked stopped_guard commit_guarded
edited_meanwhile = refl

commit_stopped_selection_lem_example :
    IsSettled machine
      (staging files_before)
      7
      mihomo
      sing_box
      idle_mihomo
      (commit_stopped_selection machine (staging files_before) 7 mihomo sing_box idle_mihomo)
commit_stopped_selection_lem_example =
    commit_stopped_selection_lem machine (staging files_before) 7 mihomo sing_box idle_mihomo

-- ===== src/Tests/Crashes.antt =====
-- Runs of the watcher and of the limit on restarts.
use clash_verge_cli.Prelude.{
  ◌≡◌, refl, sym, subst, true, false, none, some, List, [], ◌∷◌, ℕ, ◌*◌, Member, here, there,
}
use clash_verge_cli.Manager.Restarts.{should_auto_restart}
use clash_verge_cli.Manager.Restarts.Limit.{Crash}
use clash_verge_cli.Manager.Watcher.{
  running, ManagerInner, core_exited, auto_restart, TryRestart, watch,
}
use clash_verge_cli.Manager.Watcher.Cause.{MayRestart, watch-MayRestart}

abbrev crash_at : ℕ → Crash
crash_at second = record { now = second * 1000000000; at = second * 1000000000 }

abbrev loop : List Crash
loop = crash_at 10 ∷ crash_at 20 ∷ crash_at 30 ∷ crash_at 40 ∷ crash_at 71 ∷ []

fourth_refused :
    (should_auto_restart 40000000000 (10000000000 ∷ 20000000000 ∷ 30000000000 ∷ [])).1 ≡ false
unfolding should_auto_restart
fourth_refused = refl

abbrev started_core : ManagerInner
started_core = record {
  pid = some 42;
  owns_child = true;
  expected_exit = false;
  state = running;
  generation = 1;
  expected_exit_gen = 0;
  restarting = false;
  restart_history = [];
  stop_intent = none;
  record_pid = some 42;
}

abbrev restart_works : TryRestart
restart_works m = (record m { pid = some 43; generation = 2 }, none)

restarts_once : (watch restart_works "1" 5 6 1 started_core).1 ≡ core_exited "1" ∷ auto_restart ∷ []
unfolding watch should_auto_restart
restarts_once = refl

stop_is_respected :
    (watch restart_works "0" 5 6 1 (record started_core { stop_intent = some 42 })).1
    ≡ core_exited "0" ∷ []
unfolding watch
stop_is_respected = refl

watch-MayRestart_example : MayRestart 5 1 started_core
watch-MayRestart_example =
    watch-MayRestart restart_works "1" 5 6 1 started_core
      (subst (Member auto_restart) (sym restarts_once) (there (here refl)))

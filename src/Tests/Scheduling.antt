-- ===== src/Tests/Scheduling.antt =====
-- Runs of the scheduler, with the tests of timer.rs and scheduler.rs in mind.
use clash_verge_cli.Prelude.{
  String, ◌≡◌, refl, true, none, some, List, [], ◌∷◌, map, arith, ℕ, ◌+◌, ◌<◌, contains,
}
use clash_verge_cli.Profiles.Item.{PrfOption, PrfItem}
use clash_verge_cli.Subscribe.Timer.{due_remote_uids}
use clash_verge_cli.Subscribe.Scheduler.{
  AutoUpdateScheduler, new, insert, BatchResult, refreshed, run_batch, items, compute_due, tick,
  record_probe_failure,
}
use clash_verge_cli.Subscribe.Scheduler.Trace.{
  Round, tick_round, attempts, NoSuccess, NoAttemptBefore, tick_cooldown,
}
use clash_verge_cli.Subscribe.Scheduler.Forced.{three_failures_force}

abbrev M : Type 0
M = Unit {0}

abbrev hourly : PrfOption M
hourly = record {
  user_agent = none;
  with_proxy = none;
  self_proxy = none;
  update_interval = some 60;
  timeout_seconds = none;
  danger_accept_invalid_certs = none;
  allow_auto_update = some true;
  merge = none;
  script = none;
  rules = none;
  proxies = none;
  groups = none;
  trusted_hosts = none;
  unknown_fields = tt;
}

abbrev due_item : PrfItem M
due_item = record {
  uid = some "Rdue";
  itype = some "remote";
  name = some "sub";
  file = some "Rdue.yaml";
  desc = none;
  url = none;
  selected = none;
  extra = none;
  updated = some 1000;
  option = some hourly;
  home = none;
  file_data = none;
  unknown_fields = tt;
}

due_at_4600 : due_remote_uids 4600 (due_item ∷ []) ≡ "Rdue" ∷ []
unfolding due_remote_uids
due_at_4600 = refl

not_due_at_4599 : due_remote_uids 4599 (due_item ∷ []) ≡ []
unfolding due_remote_uids
not_due_at_4599 = refl

-- A refresh that fails for every profile.
abbrev offline : List String → BatchResult
offline uids = refreshed [] (map (λ uid. (uid, "offline")) uids)

abbrev round_at : ℕ → Round M
round_at now = record { now = now; snapshot = items (due_item ∷ []); update_remotes = offline }

abbrev tried : AutoUpdateScheduler
tried = record {
  last_attempt = insert "Rdue" 4600 (λ uid. none);
  min_cooldown_secs = 1800;
  probe_failures = 0;
  last_force_refresh = 0;
}

attempted : contains (attempts new (round_at 4600)) "Rdue" ≡ true
unfolding tick new compute_due due_remote_uids run_batch
attempted = refl

no_success : NoSuccess "Rdue" new (round_at 4600 ∷ round_at 4700 ∷ round_at 6400 ∷ [])
unfolding tick new compute_due due_remote_uids run_batch
no_success = (refl, (refl, (refl, tt)))

positive : 0 < new.min_cooldown_secs
unfolding new
positive = omega arith

tick_cooldown_example :
    NoAttemptBefore "Rdue"
      (4600 + new.min_cooldown_secs)
      (tick_round new (round_at 4600)).0
      (round_at 4700 ∷ round_at 6400 ∷ [])
tick_cooldown_example =
    tick_cooldown "Rdue" new (round_at 4600) (round_at 4700 ∷ round_at 6400 ∷ []) attempted positive
      no_success

three_failures_force_example :
    (record_probe_failure (record_probe_failure (record_probe_failure tried 400).0 430).0 460).1
    ≡ true
three_failures_force_example = three_failures_force tried 400 430 460 refl (omega arith)

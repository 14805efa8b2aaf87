-- ===== src/Subscribe/Scheduler/Forced.antt =====
-- The counter of failed probes of scheduler.rs, and when it asks for a forced refresh.
use clash_verge_cli.Prelude.{◌≡◌, true, arith, ℕ, ◌+◌, ◌≤◌}
use clash_verge_cli.Subscribe.Scheduler.{AutoUpdateScheduler, record_probe_failure}

pub failures_le_step :
    (s : AutoUpdateScheduler) (n now : ℕ)
    → s.probe_failures ≤ n
    → (record_probe_failure s now).0.probe_failures ≤ n + 1
unfolding record_probe_failure
failures_le_step s n now h = ground arith

pub forced_facts :
    (s : AutoUpdateScheduler) (now : ℕ)
    → (record_probe_failure s now).1 ≡ true
    → (2 ≤ s.probe_failures)
      × (s.last_force_refresh + 300 ≤ now)
      × ((record_probe_failure s now).0.last_force_refresh ≡ now)
      × ((record_probe_failure s now).0.probe_failures ≡ 0)
unfolding record_probe_failure
forced_facts s now h = ground arith

pub force_time :
    (s : AutoUpdateScheduler) (now bound : ℕ)
    → bound ≤ s.last_force_refresh + 300
    → bound ≤ (record_probe_failure s now).0.last_force_refresh + 300
unfolding record_probe_failure
force_time s now bound h = ground arith

-- Three failed probes in a row force a refresh at the third, if the last one is five minutes old.
pub three_failures_force :
    (s : AutoUpdateScheduler) (a b c : ℕ)
    → s.probe_failures ≡ 0
    → s.last_force_refresh + 300 ≤ c
    → (record_probe_failure (record_probe_failure (record_probe_failure s a).0 b).0 c).1 ≡ true
unfolding record_probe_failure
three_failures_force s a b c h k = ground arith

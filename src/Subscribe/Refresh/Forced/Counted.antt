-- ===== src/Subscribe/Refresh/Forced/Counted.antt =====
-- How many failed probes of scheduler.rs a forced refresh takes, and how far apart two of them are.
use clash_verge_cli.Prelude.{String, ◌≡◌, Bool, true, List, [], ◌∷◌, arith, ℕ, ◌+◌, ◌≤◌}
use clash_verge_cli.Subscribe.Delay.{ProbeVerdict, alive, dead, api_issue}
use clash_verge_cli.Subscribe.Scheduler.{AutoUpdateScheduler, new, record_probe_failure}
use clash_verge_cli.Subscribe.Scheduler.Forced.{failures_le_step, forced_facts, force_time}
use clash_verge_cli.Subscribe.Refresh.{Core, ProbeOutcome}
use clash_verge_cli.Subscribe.Refresh.Forced.{on_verdict}
use clash_verge_cli.Subscribe.Refresh.Forced.Cause.{forced_verdict}

module _ {M : Type 0} (C : Core M) (contains_node : M → String → Bool) where
  open C use {World, now}

  -- A probe that has come to a verdict on the exit node of a profile.
  pub record Judged : Type 0 where
    pub uid : String
    pub node : String
    pub tun : Bool
    pub world : World
    pub verdict : ProbeVerdict

  abbrev pub judged : AutoUpdateScheduler → Judged → AutoUpdateScheduler × (World × ProbeOutcome)
  judged s x = on_verdict C contains_node s x.uid x.node x.tun x.world x.verdict

  -- The scheduler after some of them.
  abbrev pub after_probes : AutoUpdateScheduler → List Judged → AutoUpdateScheduler
  after_probes s [] = s
  after_probes s (x ∷ xs) = after_probes (judged s x).0 xs

  -- The failures in a row at the end of the list, after `n` before it.
  abbrev pub count_failure : ℕ → ProbeVerdict → ℕ
  count_failure n dead = n + 1
  count_failure n alive = 0
  count_failure n api_issue = 0

  abbrev pub failures_in_row : ℕ → List Judged → ℕ
  failures_in_row n [] = n
  failures_in_row n (x ∷ xs) = failures_in_row (count_failure n x.verdict) xs

  verdict_counts :
      (s : AutoUpdateScheduler) (n : ℕ) (uid node : String) (tun : Bool) (w : World)
      (v : ProbeVerdict)
      → s.probe_failures ≤ n
      → (on_verdict C contains_node s uid node tun w v).0.probe_failures ≤ count_failure n v
  unfolding on_verdict
  verdict_counts s n uid node tun w alive h = omega arith
  verdict_counts s n uid node tun w api_issue h = omega arith
  verdict_counts s n uid node tun w dead h = failures_le_step s n (now w) h

  counted :
      (xs : List Judged) (s : AutoUpdateScheduler) (n : ℕ)
      → s.probe_failures ≤ n
      → (after_probes s xs).probe_failures ≤ failures_in_row n xs
  counted [] s n h = h
  counted (x ∷ xs) s n h =
      counted xs (judged s x).0 (count_failure n x.verdict)
        (verdict_counts s n x.uid x.node x.tun x.world x.verdict h)

  -- From the start, whatever verdicts the probes come to, a probe forces a refresh only if its verdict is
  -- that the node is dead, and at least the two before it came to the same one.
  pub forced_needs_failures :
      (xs : List Judged) (x : Judged)
      → (judged (after_probes new xs) x).1.1.forced_refresh ≡ true
      → (x.verdict ≡ dead) × (2 ≤ failures_in_row 0 xs)
  unfolding new
  forced_needs_failures xs x h =
      let s = after_probes new xs in
      let (failing, full, same) =
        forced_verdict C contains_node s x.uid x.node x.tun x.world x.verdict h in
      (
        failing,
        omega (arith, (forced_facts s (now x.world) full).0, counted xs new 0 (omega arith)),
      )

  -- No probe of the list forces a refresh before the time.
  abbrev NoForceBefore : ℕ → AutoUpdateScheduler → List Judged → Type 0
  NoForceBefore time s [] = Unit
  NoForceBefore time s (x ∷ xs) =
      ((judged s x).1.1.forced_refresh ≡ true → time ≤ now x.world)
      × NoForceBefore time (judged s x).0 xs

  verdict_waits :
      (s : AutoUpdateScheduler) (bound : ℕ) (uid node : String) (tun : Bool) (w : World)
      (v : ProbeVerdict)
      → bound ≤ s.last_force_refresh + 300
      → bound ≤ (on_verdict C contains_node s uid node tun w v).0.last_force_refresh + 300
  unfolding on_verdict
  verdict_waits s bound uid node tun w alive h = h
  verdict_waits s bound uid node tun w api_issue h = h
  verdict_waits s bound uid node tun w dead h = force_time s (now w) bound h

  waits :
      (bound : ℕ) (xs : List Judged) (s : AutoUpdateScheduler)
      → bound ≤ s.last_force_refresh + 300
      → NoForceBefore bound s xs
  waits bound [] s h = tt
  waits bound (x ∷ xs) s h = (
    (λ e.
        let (failing, full, same) =
          forced_verdict C contains_node s x.uid x.node x.tun x.world x.verdict e in
        omega (arith, (forced_facts s (now x.world) full).1, h)),
    waits bound xs (judged s x).0 (verdict_waits s bound x.uid x.node x.tun x.world x.verdict h),
  )

  -- After a forced refresh no probe forces another one within five minutes, whatever its verdict.
  forced_apart :
      (xs : List Judged) (s : AutoUpdateScheduler) (forced : ℕ)
      → (record_probe_failure s forced).1 ≡ true
      → NoForceBefore (forced + 300) (record_probe_failure s forced).0 xs
  forced_apart xs s forced h =
      waits (forced + 300) xs (record_probe_failure s forced).0
        (omega (arith, (forced_facts s forced h).2))

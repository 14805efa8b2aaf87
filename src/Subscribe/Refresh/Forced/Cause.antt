-- ===== src/Subscribe/Refresh/Forced/Cause.antt =====
-- When a probe of scheduler.rs forces a refresh.
use clash_verge_cli.Prelude.{
  String, ◌≡◌, refl, ◌⊎◌, inl, inr, Bool, true, false, not, ◌||◌, some, List, arith, Bool-cases,
  Option-cases, false-ne-true, unwrap_or,
}
use clash_verge_cli.Profiles.Item.{PrfItem}
use clash_verge_cli.Subscribe.Delay.{ProbeVerdict, alive, dead, api_issue, classify_delay}
use clash_verge_cli.Subscribe.Scheduler.{
  AutoUpdateScheduler, Snapshot, items, snapshot_error, record_probe_failure,
}
use clash_verge_cli.Subscribe.Refresh.{Core, ProbeOutcome}
use clash_verge_cli.Subscribe.Refresh.Forced.{
  unavailable_probe, force_refresh, on_verdict, probe_running, probe,
}

pub Snapshot-cases :
    {M : Type 0} (x : Snapshot M)
    → ((profiles : List (PrfItem M)) × (x ≡ items profiles))
      ⊎ ((e : String) × (x ≡ snapshot_error e))
Snapshot-cases (items profiles) = inl (profiles, refl)
Snapshot-cases (snapshot_error e) = inr (e, refl)

module _ {M : Type 0} (C : Core M) (contains_node : M → String → Bool) where
  open C use {
    World, core_kind, is_running, snapshot, current_uid, current_exit_node, probe_enabled,
    delay_test, now,
  }

  -- What has to be so for a refresh to be forced: the core runs, the current profile has an exit node, the
  -- node failed its test, the counter of failures is full, and what comes out is the forced refresh of
  -- that profile for that node.
  pub record IsForced (s : AutoUpdateScheduler) (tun core_running : Bool) (w : World)
      (out : World × ProbeOutcome) : Type 0 where
    pub profiles : List (PrfItem M)
    pub uid : String
    pub node : String
    pub told : core_running ≡ true
    pub running : is_running w ≡ true
    pub listed : snapshot w ≡ items profiles
    pub current : current_uid w ≡ some uid
    pub exit : current_exit_node profiles uid w ≡ some node
    pub failing : classify_delay (delay_test node w) ≡ dead
    pub counted : (record_probe_failure s (now w)).1 ≡ true
    pub refreshes : out ≡ force_refresh C contains_node uid node tun w

  pub forced_verdict :
      (s : AutoUpdateScheduler) (uid node : String) (tun : Bool) (w : World) (v : ProbeVerdict)
      → (on_verdict C contains_node s uid node tun w v).1.1.forced_refresh ≡ true
      → (v ≡ dead)
        × ((record_probe_failure s (now w)).1 ≡ true)
        × ((on_verdict C contains_node s uid node tun w v).1
            ≡ force_refresh C contains_node uid node tun w)
  unfolding on_verdict
  forced_verdict s uid node tun w alive h = cc
  forced_verdict s uid node tun w api_issue h = cc
  forced_verdict s uid node tun w dead h = elim (Bool-cases (record_probe_failure s (now w)).1) [
    | inl e ↦ (refl, e, rw e refl)
    | inr e ↦ absurd (false-ne-true (rw e at h))
  ]

  IsForced-running :
      (s : AutoUpdateScheduler) (tun core_running : Bool) (w : World)
      → core_running ≡ true
      → is_running w ≡ true
      → (probe_running C contains_node s tun w).1.1.forced_refresh ≡ true
      → IsForced s tun core_running w (probe_running C contains_node s tun w).1
  unfolding probe_running
  IsForced-running s tun core_running w told running = elim (Snapshot-cases (snapshot w)) [
    | inr (e, l) ↦ rw (l, probe_running) (λ h. absurd (false-ne-true h))
    | inl (profiles, l) ↦ elim (Option-cases (current_uid w)) [
      | inl c ↦ rw (l, c, probe_running) (λ h. absurd (false-ne-true h))
      | inr (uid, c) ↦ elim (Option-cases (current_exit_node profiles uid w)) [
        | inl x ↦ rw (l, c, x, probe_running) (λ h. absurd (false-ne-true h))
        | inr (node, x) ↦
            rw (l, c, x, probe_running)
              (λ h.
                let (failing, counted, refreshes) =
                  forced_verdict s uid node tun w (classify_delay (delay_test node w)) h in
                record {
                  profiles = profiles;
                  uid = uid;
                  node = node;
                  told = told;
                  running = running;
                  listed = l;
                  current = c;
                  exit = x;
                  failing = failing;
                  counted = counted;
                  refreshes = refreshes;
                })
      ]
    ]
  ]

  both_run : (a b : Bool) → (not a || not b) ≡ false → (a ≡ true) × (b ≡ true)
  both_run a b h = (ground arith, ground arith)

  -- A probe forces a refresh only while the core runs, and only if the exit node of the current profile
  -- has just failed its test and the count of failures asks for it; what it then does is the forced
  -- refresh of that profile for that node.
  pub probe-IsForced :
      (s : AutoUpdateScheduler) (tun core_running : Bool) (w : World)
      → (probe C contains_node s tun core_running w).1.1.forced_refresh ≡ true
      → IsForced s tun core_running w (probe C contains_node s tun core_running w).1
  unfolding probe unavailable_probe
  probe-IsForced s tun core_running w = elim (Bool-cases (unwrap_or true (probe_enabled w))) [
    | inr e ↦ rw (e, probe) (λ h. absurd (false-ne-true h))
    | inl e ↦ elim (Bool-cases (not core_running || not (is_running w))) [
      | inl r ↦ rw (e, r, probe) (λ h. absurd (false-ne-true h))
      | inr r ↦
          let (told, running) = both_run core_running (is_running w) r in
          rw (e, r, probe) (IsForced-running s tun core_running w told running)
    ]
  ]

-- ===== src/Manager/Watcher/Cause.antt =====
-- When the watcher of watcher.rs starts a core again.
use clash_verge_cli.Prelude.{
  String, ◌≡◌, refl, ◌≢◌, ◌⊎◌, inl, inr, Bool, true, false, not, ◌||◌, List, [], ◌∷◌, arith, ℕ, eqb,
  if◌then◌else◌, Bool-cases, Member, not-Member-nil, Member-cons,
}
use clash_verge_cli.Manager.Restarts.{should_auto_restart}
use clash_verge_cli.Manager.Watcher.{
  ExitDisposition, stale_watched_over, intentional_stop, crash, classify_exit, ManagerInner, Effect,
  report_error, release_proxy, auto_restart, is_pid, take_exit, TryRestart, recover, on_disposition,
  announced, watch,
}

-- The process is the current one, nobody asked for its end, no transaction is under way, and the limit on
-- restarts is not reached.
pub record MayRestart (now spawned_gen : ℕ) (m : ManagerInner) : Type 0 where
  pub is_current : spawned_gen ≡ m.generation
  pub unexpected : m.expected_exit ≡ false
  pub unannounced : is_pid m.stop_intent m.pid ≡ false
  pub unarmed : m.expected_exit_gen ≢ spawned_gen
  pub alone : m.restarting ≡ false
  pub allowed : (should_auto_restart now m.restart_history).1 ≡ true

give_up_quiet :
    (message : String) → ¬ (Member auto_restart (release_proxy ∷ report_error message ∷ []))
give_up_quiet message h = elim (Member-cons h) [
  | inl e ↦ cc
  | inr n ↦ elim (Member-cons n) [ inl e ↦ cc | inr k ↦ not-Member-nil k ]
]

abbrev Restarts : ManagerInner × List Effect → Type 0
Restarts r = Member auto_restart r.1

Restarts-of_if :
    (b : Bool) (x y : ManagerInner × List Effect)
    → Restarts (if b then x else y)
    → ((b ≡ true) × Restarts x) ⊎ ((b ≡ false) × Restarts y)
Restarts-of_if true x y h = inl (refl, h)
Restarts-of_if false x y h = inr (refl, h)

crash_only :
    (spawned current armed : ℕ) → classify_exit spawned current armed ≡ crash → armed ≢ spawned
unfolding classify_exit
crash_only spawned current armed h e = ground (arith, h, e)

module _ (try_restart : TryRestart) (exit_code : String) (now at : ℕ) where
  recover_allowed :
      (m : ManagerInner)
      → Member auto_restart (recover try_restart exit_code now at m).1
      → (should_auto_restart now m.restart_history).1 ≡ true
  unfolding recover
  recover_allowed m = elim (Bool-cases (should_auto_restart now m.restart_history).1) [
    | inl e ↦ λ h. e
    | inr e ↦ rw (e, recover) (λ h. absurd (give_up_quiet _ h))
  ]

  -- The exit was a crash outside a transaction, and the limit is not reached.
  abbrev IsRecoverable : ManagerInner → ExitDisposition → Type 0
  IsRecoverable m d =
      (d ≡ crash) × (m.restarting ≡ false) × ((should_auto_restart now m.restart_history).1 ≡ true)

  disposition-IsRecoverable :
      (m : ManagerInner) (d : ExitDisposition)
      → Member auto_restart (on_disposition try_restart exit_code now at m d).1
      → IsRecoverable m d
  unfolding on_disposition
  disposition-IsRecoverable m stale_watched_over h = absurd (not-Member-nil h)
  disposition-IsRecoverable m intentional_stop h = absurd (not-Member-nil h)
  disposition-IsRecoverable m crash h = elim (Restarts-of_if m.restarting _ _ h) [
    | inl (e, quiet) ↦ absurd (not-Member-nil quiet)
    | inr (e, k) ↦ (refl, e, recover_allowed m k)
  ]

  announced_later :
      (r : ManagerInner × List Effect)
      → Member auto_restart (announced exit_code r).1
      → Member auto_restart r.1
  announced_later (m, effects) h = elim (Member-cons h) [ inl e ↦ cc | inr n ↦ n ]

  -- The watcher starts a core again only if its process is the current one, nobody asked for the end of
  -- it, no transaction is under way, and the limit on restarts is not reached.
  pub watch-MayRestart :
      (spawned_gen : ℕ) (m : ManagerInner)
      → Member auto_restart (watch try_restart exit_code now at spawned_gen m).1
      → MayRestart now spawned_gen m
  unfolding watch take_exit
  watch-MayRestart spawned_gen m h =
      elim (Restarts-of_if (not (eqb spawned_gen m.generation)) _ _ h) [
        | inl (e, quiet) ↦ absurd (not-Member-nil quiet)
        | inr (e, k) ↦
            let m' = (take_exit m).0 in
            let d' = classify_exit spawned_gen m.generation m.expected_exit_gen in
            let judged = on_disposition try_restart exit_code now at m' d' in
            let asked = m.expected_exit || is_pid m.stop_intent m.pid in
            elim (Restarts-of_if asked (m', []) judged
              (announced_later (if asked then (m', []) else judged) k)) [
                | inl (x, quiet) ↦ absurd (not-Member-nil quiet)
                | inr (x, k) ↦
                    let (d, alone, allowed) =
                      disposition-IsRecoverable (take_exit m).0
                        (classify_exit spawned_gen m.generation m.expected_exit_gen) k in
                    record {
                      is_current = ground (arith, e);
                      unexpected = ground (arith, x);
                      unannounced = ground (arith, x);
                      unarmed = crash_only spawned_gen m.generation m.expected_exit_gen d;
                      alone = alone;
                      allowed = allowed;
                    }
              ]
      ]

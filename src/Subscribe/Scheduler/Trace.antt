-- ===== src/Subscribe/Scheduler/Trace.antt =====
-- Rounds of the scheduler of scheduler.rs, one `tick` after another.
use clash_verge_cli.Prelude.{
  String, ◌≡◌, refl, sym, ◌∙◌, ◌⊎◌, inl, inr, true, false, some, List, [], ◌∷◌, arith, ℕ, ◌+◌, ◌≤◌,
  ◌<◌, false-ne-true, contains,
}
use clash_verge_cli.Subscribe.Timer.{due_remote_uids}
use clash_verge_cli.Subscribe.Scheduler.{
  SchedulerOutcome, AutoUpdateScheduler, is_cooled, filter_cooled, BatchResult, run_batch, Snapshot,
  items, snapshot_error, compute_due, tick,
}
use clash_verge_cli.Subscribe.Scheduler.Cooldown.{
  filter_cooled-Passed, filter_cooled-cooldown, is_success, record_successes_other,
  record_successes-cooldown,
}

-- One round: the time, the profiles on disk, and what refreshing them gives.
pub record Round (M : Type 0) : Type 0 where
  pub now : ℕ
  pub snapshot : Snapshot M
  pub update_remotes : List String → BatchResult

-- The time of the last attempt of the uid, and a positive cooldown.
abbrev Tried : String → ℕ → ℕ → AutoUpdateScheduler → Type 0
Tried uid cooldown t s =
    (s.last_attempt uid ≡ some t) × (s.min_cooldown_secs ≡ cooldown) × (0 < cooldown)

cooled_gap :
    (uid : String) (cooldown t : ℕ) (s : AutoUpdateScheduler) (now : ℕ)
    → Tried uid cooldown t s
    → is_cooled s now uid ≡ true
    → t + cooldown ≤ now
cooled_gap uid cooldown t s now h k = ground arith

module _ {M : Type 0} where
  abbrev pub tick_round : AutoUpdateScheduler → Round M → AutoUpdateScheduler × SchedulerOutcome
  tick_round s r = tick s r.now r.snapshot r.update_remotes

  abbrev due_of : AutoUpdateScheduler → ℕ → Snapshot M → List String
  due_of s now (items profiles) = (compute_due s profiles now).1
  due_of s now (snapshot_error error) = []

  -- The uids that a round attempts to refresh.
  abbrev pub attempts : AutoUpdateScheduler → Round M → List String
  attempts s r = due_of s r.now r.snapshot

  -- No round reports a success of the uid.
  abbrev pub NoSuccess : String → AutoUpdateScheduler → List (Round M) → Type 0
  NoSuccess uid s [] = Unit
  NoSuccess uid s (r ∷ rs) =
      (is_success uid (tick_round s r).1.updated ≡ false) × NoSuccess uid (tick_round s r).0 rs

  -- No round attempts the uid before the time.
  abbrev pub NoAttemptBefore : String → ℕ → AutoUpdateScheduler → List (Round M) → Type 0
  NoAttemptBefore uid time s [] = Unit
  NoAttemptBefore uid time s (r ∷ rs) =
      (contains (attempts s r) uid ≡ true → time ≤ r.now)
      × NoAttemptBefore uid time (tick_round s r).0 rs

  tick-Tried :
      (uid : String) (cooldown t : ℕ) (s : AutoUpdateScheduler) (now : ℕ) (snapshot : Snapshot M)
      (update_remotes : List String → BatchResult)
      → Tried uid cooldown t s
      → is_success uid (tick s now snapshot update_remotes).1.updated ≡ false
      → ((contains (due_of s now snapshot) uid ≡ true)
          × (t + cooldown ≤ now)
          × Tried uid cooldown now (tick s now snapshot update_remotes).0)
        ⊎ ((contains (due_of s now snapshot) uid ≡ false)
            × Tried uid cooldown t (tick s now snapshot update_remotes).0)
  unfolding tick compute_due
  tick-Tried uid cooldown t s now (snapshot_error error) update h k = inr (refl, h)
  tick-Tried uid cooldown t s now (items profiles) update h k =
      let uids = due_remote_uids now profiles in
      let due = (filter_cooled s now uids).1 in
      let s' = (filter_cooled s now uids).0 in
      let updated = (run_batch update due).updated in
      let same = record_successes_other s' updated uid k in
      let kept = record_successes-cooldown s' updated in
      let pass = filter_cooled-cooldown s now uids in
      elim (filter_cooled-Passed s now uids uid) [
        | inl (was, time, cool) ↦
            inl (was, cooled_gap uid cooldown t s now h cool, (same ∙ time, kept ∙ pass ∙ h.1, h.2))
        | inr (was, time) ↦ inr (was, (same ∙ time ∙ h.0, kept ∙ pass ∙ h.1, h.2))
      ]

  spaced :
      (uid : String) (cooldown bound t : ℕ) (s : AutoUpdateScheduler) (rounds : List (Round M))
      → bound ≤ t + cooldown
      → Tried uid cooldown t s
      → NoSuccess uid s rounds
      → NoAttemptBefore uid bound s rounds
  spaced uid cooldown bound t s [] b h k = tt
  spaced uid cooldown bound t s (r ∷ rs) b h (now, later) =
      let go = λ (u : ℕ) (c : bound ≤ u + cooldown) (i : Tried uid cooldown u (tick_round s r).0).
        spaced uid cooldown bound u (tick_round s r).0 rs c i later in
      elim (tick-Tried uid cooldown t s r.now r.snapshot r.update_remotes h now) [
        | inl (was, time, tried) ↦ ((λ e. omega arith), go r.now (omega arith) tried)
        | inr (was, tried) ↦ ((λ e. cc), go t b tried)
      ]

  attempt-Tried :
      (uid : String) (s : AutoUpdateScheduler) (now : ℕ) (snapshot : Snapshot M)
      (update_remotes : List String → BatchResult)
      → contains (due_of s now snapshot) uid ≡ true
      → 0 < s.min_cooldown_secs
      → is_success uid (tick s now snapshot update_remotes).1.updated ≡ false
      → Tried uid s.min_cooldown_secs now (tick s now snapshot update_remotes).0
  unfolding tick compute_due
  attempt-Tried uid s now (snapshot_error error) update a c k = absurd (false-ne-true a)
  attempt-Tried uid s now (items profiles) update a c k =
      let uids = due_remote_uids now profiles in
      let due = (filter_cooled s now uids).1 in
      let s' = (filter_cooled s now uids).0 in
      let updated = (run_batch update due).updated in
      let same = record_successes_other s' updated uid k in
      let kept = record_successes-cooldown s' updated in
      let pass = filter_cooled-cooldown s now uids in
      elim (filter_cooled-Passed s now uids uid) [
        | inl (was, time, cool) ↦ (same ∙ time, kept ∙ pass, c)
        | inr (was, time) ↦ absurd (false-ne-true (sym was ∙ a))
      ]

  -- After a round that attempts the profile, as long as neither it nor a later one reports a success of
  -- the profile, no later round attempts it before the time of that round plus the cooldown, if that is
  -- positive. The times may run in any order.
  pub tick_cooldown :
      (uid : String) (s : AutoUpdateScheduler) (r : Round M) (rounds : List (Round M))
      → contains (attempts s r) uid ≡ true
      → 0 < s.min_cooldown_secs
      → NoSuccess uid s (r ∷ rounds)
      → NoAttemptBefore uid (r.now + s.min_cooldown_secs) (tick_round s r).0 rounds
  tick_cooldown uid s r rounds a c (failed, later) =
      spaced uid s.min_cooldown_secs (r.now + s.min_cooldown_secs) r.now (tick_round s r).0 rounds
        (omega arith) (attempt-Tried uid s r.now r.snapshot r.update_remotes a c failed) later

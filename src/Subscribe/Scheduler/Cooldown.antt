-- ===== src/Subscribe/Scheduler/Cooldown.antt =====
-- The cooldown of scheduler.rs: after an attempt that is not followed by a success the profile is
-- left alone for `min_cooldown_secs`, whatever the clock and the profiles do in between.
use clash_verge_cli.Prelude.{
  String, ◌≡◌, refl, ◌⊎◌, inl, inr, Bool, true, false, some, List, [], ◌∷◌, arith, ◌==◌, eq_iff, ℕ,
  Bool-cases, any, contains,
}
use clash_verge_cli.Subscribe.Scheduler.{
  AutoUpdateScheduler, is_cooled, note_attempt, filter_cooled, record_success, record_successes,
}

-- What one pass over the due uids does to a given uid: it is attempted, and its time is kept, or
-- nothing about it changes.
abbrev pub Passed : AutoUpdateScheduler → ℕ → String → AutoUpdateScheduler → List String → Type 0
Passed s now uid s' due =
    ((contains due uid ≡ true) × (s'.last_attempt uid ≡ some now) × (is_cooled s now uid ≡ true))
    ⊎ ((contains due uid ≡ false) × (s'.last_attempt uid ≡ s.last_attempt uid))

pub filter_cooled-Passed :
    (s : AutoUpdateScheduler) (now : ℕ) (uids : List String) (uid : String)
    → Passed s now uid (filter_cooled s now uids).0 (filter_cooled s now uids).1
unfolding filter_cooled
filter_cooled-Passed s now [] uid = inr (refl, refl)
filter_cooled-Passed s now (x ∷ uids) uid = elim (Bool-cases (is_cooled s now x)) [
  | inl e ↦ rw e (
      ground (
        arith,
        eq_iff x uid,
        eq_iff uid x,
        filter_cooled-Passed (note_attempt s now x) now uids uid,
      ))
  | inr e ↦ rw e (filter_cooled-Passed s now uids uid)
]

pub filter_cooled-cooldown :
    (s : AutoUpdateScheduler) (now : ℕ) (uids : List String)
    → (filter_cooled s now uids).0.min_cooldown_secs ≡ s.min_cooldown_secs
unfolding filter_cooled
filter_cooled-cooldown s now [] = refl
filter_cooled-cooldown s now (x ∷ uids) = elim (Bool-cases (is_cooled s now x)) [
  | inl e ↦ rw e (filter_cooled-cooldown (note_attempt s now x) now uids)
  | inr e ↦ rw e (filter_cooled-cooldown s now uids)
]

-- The uid is among the successes of a batch.
abbrev pub is_success : String → List (String × Bool) → Bool
is_success uid updated = any (λ p. p.0 == uid) updated

pub record_successes_other :
    (s : AutoUpdateScheduler) (updated : List (String × Bool)) (uid : String)
    → is_success uid updated ≡ false
    → (record_successes s updated).last_attempt uid ≡ s.last_attempt uid
unfolding record_successes
record_successes_other s [] uid h = refl
record_successes_other s ((x, b) ∷ updated) uid h =
    ground
      (arith, eq_iff x uid, eq_iff uid x, record_successes_other (record_success s x) updated uid)

pub record_successes-cooldown :
    (s : AutoUpdateScheduler) (updated : List (String × Bool))
    → (record_successes s updated).min_cooldown_secs ≡ s.min_cooldown_secs
unfolding record_successes
record_successes-cooldown s [] = refl
record_successes-cooldown s ((x, b) ∷ updated) =
    record_successes-cooldown (record_success s x) updated

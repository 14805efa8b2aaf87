-- ===== src/Manager/Switch/Steps.antt =====
-- The control of the guided switch: what the steps did, by its result.
use clash_verge_cli.Prelude.{
  String, ◌≡◌, refl, sym, ap, ◌⊎◌, inl, inr, Bool, true, false, if◌then◌else◌,
}
use clash_verge_cli.Subscribe.Refresh.{Reply, done, error}
use clash_verge_cli.Manager.Switch.{
  and_then, both, refuse_if, switched, restored, after_rollback, SwitchSteps, switch_outcome,
  after_outcome, after_recheck, orchestrate_guided_switch,
}

pub and_then-done :
    {W : Type 0} (x : W × Reply) (f : W → W × Reply) {v : W}
    → and_then x f ≡ (v, done)
    → (u : W) × (x ≡ (u, done)) × (f u ≡ (v, done))
and_then-done (w, done) f h = (w, refl, h)
and_then-done (w, error e) f h = cc

pub and_then-checked :
    {W : Type 0} (r : Reply) (w : W) (f : W → W × Reply) {v : W}
    → and_then (w, r) f ≡ (v, done)
    → (r ≡ done) × (f w ≡ (v, done))
and_then-checked done w f h = (refl, h)
and_then-checked (error e) w f h = cc

pub done_if :
    {W : Type 0} (b : Bool) (x : W × Reply) {u v : W}
    → (if b then x else (u, done)) ≡ (v, done)
    → ((b ≡ false) × (v ≡ u)) ⊎ ((b ≡ true) × (x ≡ (v, done)))
done_if true x h = inr (refl, h)
done_if false x h = inl (refl, ap (λ r. r.0) (sym h))

pub both-done : (a b : Reply) → both a b ≡ done → (a ≡ done) × (b ≡ done)
both-done done b h = (refl, h)
both-done (error e) b h = cc

pub refuse_if-done : (b : Bool) (e : String) → refuse_if b e ≡ done → b ≡ false
refuse_if-done true e h = cc
refuse_if-done false e h = refl

module _ {W : Type 0} (S : SwitchSteps W) where
  rolled-restored :
      (m : String) (r : W × Reply) {v : W} {e : String}
      → after_rollback m r ≡ (v, restored e)
      → r ≡ (v, done)
  rolled-restored m (w, done) h = ap (λ r. (r.0, done)) h
  rolled-restored m (w, error r) h = cc

  -- The run up to the rollback: what was checked again, and what the failed outcome left.
  abbrev pub RollsBack : W → W → Type 0
  RollsBack w v =
      (r : W) × (S.recheck w ≡ (r, done)) × (S.rollback (switch_outcome S r).0 ≡ (v, done))

  outcome-restored :
      (r : W × Reply) {v : W} {e : String}
      → after_outcome S r ≡ (v, restored e)
      → S.rollback r.0 ≡ (v, done)
  outcome-restored (w, done) h = cc
  outcome-restored (w, error m) h = rolled-restored m (S.rollback w) h

  recheck-restored :
      (r : W × Reply) {v : W} {e : String}
      → after_recheck S r ≡ (v, restored e)
      → (u : W) × (r ≡ (u, done)) × (S.rollback (switch_outcome S u).0 ≡ (v, done))
  recheck-restored (w, done) h = (w, refl, outcome-restored (switch_outcome S w) h)
  recheck-restored (w, error m) h = cc

  pub orchestrate-restored :
      (w : W) {v : W} {e : String} → orchestrate_guided_switch S w ≡ (v, restored e) → RollsBack w v
  unfolding orchestrate_guided_switch
  orchestrate-restored w = recheck-restored (S.recheck w)

  rollback-not_switched :
      (m : String) (r : W × Reply) {v : W} → ¬ (after_rollback m r ≡ (v, switched))
  rollback-not_switched m (w, done) h = cc
  rollback-not_switched m (w, error r) h = cc

  outcome-switched : (r : W × Reply) {v : W} → after_outcome S r ≡ (v, switched) → r ≡ (v, done)
  outcome-switched (w, done) h = ap (λ r. (r.0, done)) h
  outcome-switched (w, error m) h = absurd (rollback-not_switched m (S.rollback w) h)

  -- The run of a switch that succeeds: each step, and what it left.
  abbrev pub Runs : W → W → Type 0
  Runs w v =
      (x : W) × ((if S.was_running then S.stop w else (w, done)) ≡ (x, done))
      × ((t : W) × (S.launch x ≡ (t, done)) × (S.commit t ≡ (v, done)))

  commits : (w : W) {v : W} → switch_outcome S w ≡ (v, done) → Runs w v
  unfolding switch_outcome
  commits w h =
      let (x, e, h1) = and_then-done (if S.was_running then S.stop w else (w, done)) _ h in
      let (t, f, h2) = and_then-done (S.launch x) S.commit h1 in (x, e, (t, f, h2))

  recheck-switched :
      (r : W × Reply) {v : W}
      → after_recheck S r ≡ (v, switched)
      → (c : W) × (r ≡ (c, done)) × Runs c v
  recheck-switched (w, done) h = (w, refl, commits w (outcome-switched (switch_outcome S w) h))
  recheck-switched (w, error m) h = cc

  pub orchestrate-switched :
      (w : W) {v : W}
      → orchestrate_guided_switch S w ≡ (v, switched)
      → (c : W) × (S.recheck w ≡ (c, done)) × Runs c v
  unfolding orchestrate_guided_switch
  orchestrate-switched w = recheck-switched (S.recheck w)

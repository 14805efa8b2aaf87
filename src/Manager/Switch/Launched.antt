-- ===== src/Manager/Switch/Launched.antt =====
-- The launch of the target in a guided switch that succeeds.
use clash_verge_cli.Prelude.{
  String, ◌≡◌, refl, sym, ap, ◌⊎◌, inl, inr, Bool, true, false, ◌||◌, none, some, List, [], ◌∷◌,
  if◌then◌else◌, Option-cases,
}
use clash_verge_cli.Subscribe.Scheduler.{CoreKind}
use clash_verge_cli.Subscribe.Refresh.{done}
use clash_verge_cli.Manager.Switch.{config, candidate, put, Switching, Outside, both}
use clash_verge_cli.Manager.Switch.Apply.{
  SwitchPlan, check_guided_cancel, rename_candidate, select_all, stop_old, launch_needed,
  start_target, launch_target,
}
use clash_verge_cli.Manager.Switch.Steps.{and_then-done, and_then-checked, done_if}

module _ {O : Type 0} (X : Outside O) where
  -- The selections are chosen one after the other, and each is accepted.
  abbrev pub Selects : CoreKind → List (String × String) → Switching O → Switching O → Type 0
  Selects api [] w v = v ≡ w
  Selects api ((group, node) ∷ rest) w v =
      (u : Switching O) × (X.select_proxy api group node w ≡ (u, done)) × Selects api rest u v

  pub select_all-Selects :
      (api : CoreKind) (sel : List (String × String)) (w : Switching O) {v : Switching O}
      → select_all X api sel w ≡ (v, done)
      → Selects api sel w v
  unfolding select_all
  select_all-Selects api [] w h = ap (λ r. r.0) (sym h)
  select_all-Selects api ((group, node) ∷ rest) w h =
      let (u, e, k) = and_then-done (X.select_proxy api group node w) (select_all X api rest) h in
      (u, e, select_all-Selects api rest u k)

-- The state when the transaction begins.
abbrev pub begun : {O : Type 0} → Switching O → Switching O
begun w = record w { restarting = true; stopped_old = false; target_started = false }

neither : (a b : Bool) → (a || b) ≡ false → (a ≡ false) × (b ≡ false)
neither true b h = cc
neither false b h = (refl, h)

either : (a b : Bool) → (a || b) ≡ true → a ≡ true ⊎ b ≡ true
either true b h = inl refl
either false b h = inr h

module _ {O : Type 0} (X : Outside O) (P : SwitchPlan) where
  -- The old core was stopped, if it ran.
  abbrev pub IsStopped : Switching O → Switching O → Type 0
  IsStopped w x =
      ((P.was_running ≡ true)
        × ((s : Switching O) × (X.stop_core w ≡ (s, done)) × (x ≡ record s { stopped_old = true })))
      ⊎ ((P.was_running ≡ false) × (x ≡ w))

  -- The prepared config, taken from its temporary file, is the config of the target.
  abbrev pub IsPlaced : Switching O → Switching O → Type 0
  IsPlaced x y =
      (bytes : String) × (x.files candidate ≡ some bytes)
      × (y ≡ record x {
        files = put candidate none (put (config P.prepared.core) (some bytes) x.files);
      })

  -- The target was started by its executable with that config, and its selections were chosen; or
  -- nothing was to be started.
  abbrev pub IsStarted : Switching O → Switching O → Type 0
  IsStarted y t =
      ((P.was_running ≡ true ⊎ P.start_if_stopped ≡ true)
        × ((a : Switching O) × (X.spawn_core_as P.prepared.core P.prepared.path
                (some (config P.prepared.core)) y
              ≡ (a, done))
            × Selects X P.prepared.core P.target_selections (record a { target_started = true }) t))
      ⊎ ((P.was_running ≡ false) × (P.start_if_stopped ≡ false) × (t ≡ y))

  stop_old-stops :
      (w : Switching O) {x : Switching O}
      → stop_old X P w ≡ (x, done)
      → (s : Switching O) × (X.stop_core w ≡ (s, done)) × (x ≡ record s { stopped_old = true })
  unfolding stop_old
  stop_old-stops w h =
      let (s, e, k) = and_then-done (X.stop_core w) _ h in (s, e, ap (λ r. r.0) (sym k))

  pub stop_old-IsStopped :
      (w : Switching O) {x : Switching O}
      → (if P.was_running then stop_old X P w else (w, done)) ≡ (x, done)
      → IsStopped w x
  stop_old-IsStopped w h = elim (done_if P.was_running (stop_old X P w) h) [
    | inl (idle, same) ↦ inr (idle, same)
    | inr (ran, k) ↦ inl (ran, stop_old-stops w k)
  ]

  rename_candidate-IsPlaced :
      (x : Switching O) {y : Switching O}
      → rename_candidate X (config P.prepared.core) x ≡ (y, done)
      → IsPlaced x y
  unfolding rename_candidate
  rename_candidate-IsPlaced x {y = y} = elim (Option-cases (x.files candidate)) [
    | inl e ↦ rw (e, rename_candidate) (λ h. cc)
    | inr (bytes, e) ↦ elim (Option-cases (X.io_error (config P.prepared.core) x)) [
      | inl f ↦ rw (e, f, rename_candidate) (λ h. (bytes, refl, ap (λ r. r.0) (sym h)))
      | inr (m, f) ↦ rw (e, f, rename_candidate) (λ h. cc)
    ]
  ]

  start_target-spawns :
      (y : Switching O) {t : Switching O}
      → start_target X P y ≡ (t, done)
      → (a : Switching O) × (X.spawn_core_as P.prepared.core P.prepared.path
            (some (config P.prepared.core))
            y
          ≡ (a, done))
        × Selects X P.prepared.core P.target_selections (record a { target_started = true }) t
  unfolding start_target
  start_target-spawns y h =
      let core = P.prepared.core in
      let open_ports = both (X.controller_released core y) (
        both (if X.gui_running y then X.gui_isolation (some core) y else done)
          (X.mixed_port_available y)) in
      let (ports, h1) = and_then-checked open_ports y _ h in
      let (a, e, h2) =
        and_then-done (X.spawn_core_as core P.prepared.path (some (config core)) y) _ h1 in
      (a, e, select_all-Selects X core P.target_selections (record a { target_started = true }) h2)

  start_if_needed :
      (y : Switching O) {t : Switching O}
      → (if launch_needed X P then start_target X P y else (y, done)) ≡ (t, done)
      → IsStarted y t
  start_if_needed y h = elim (done_if (launch_needed X P) (start_target X P y) h) [
    | inl (idle, same) ↦
        let (a, b) = neither P.was_running P.start_if_stopped idle in inr (a, b, same)
    | inr (needed, k) ↦
        inl (either P.was_running P.start_if_stopped needed, start_target-spawns y k)
  ]

  pub launch_target-IsStarted :
      (x : Switching O) {t : Switching O}
      → launch_target X P x ≡ (t, done)
      → (y : Switching O) × IsPlaced x y × IsStarted y t
  unfolding launch_target
  launch_target-IsStarted x h =
      let (go, h1) = and_then-checked (check_guided_cancel X x) x _ h in
      let (y, e, h2) = and_then-done (rename_candidate X (config P.prepared.core) x) _ h1 in
      (y, rename_candidate-IsPlaced x e, start_if_needed y h2)

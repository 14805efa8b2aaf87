-- ===== src/Manager/Switch/Committed.antt =====
-- A guided switch that succeeds.
use clash_verge_cli.Manager.Switch.Undone.{finished}
use clash_verge_cli.Prelude.{
  String, ◌≡◌, refl, sym, ap, ap₂, ◌∙◌, subst, ◌⊎◌, inl, inr, Bool, true, false, not, ◌&&◌, ◌||◌,
  Option, none, some, ℕ, if◌then◌else◌,
}
use clash_verge_cli.Subscribe.Scheduler.{CoreKind, mihomo, sing_box}
use clash_verge_cli.Subscribe.Refresh.{done}
use clash_verge_cli.Manager.Watcher.{CoreState, stopped, starting, running, core_error}
use clash_verge_cli.Manager.Switch.{
  verge, marker, Switching, Outside, both, refuse_if, SwitchResult, switched, refused, restored,
  rollback_failed, orchestrate_guided_switch, is_some_pid, is_running_state,
}
use clash_verge_cli.Manager.Switch.Apply.{
  SwitchPlan, check_guided_cancel, guided_owner_check, write_file, mark_owner, recheck,
  launch_needed, is_up, take_over, commit_target, switch_steps, switch_prepared,
}
use clash_verge_cli.Manager.Switch.Steps.{
  and_then-done, and_then-checked, both-done, refuse_if-done, orchestrate-switched,
}
use clash_verge_cli.Manager.Switch.Disk.{
  Puts, write_file-Puts, remove_file-Puts, OnlyFiles, write_file-OnlyFiles, remove_file-OnlyFiles,
}
use clash_verge_cli.Manager.Switch.Launched.{
  begun, IsStopped, IsPlaced, IsStarted, stop_old-IsStopped, launch_target-IsStarted,
}

module _ {O : Type 0} (X : Outside O) where
  abbrev pub marker_of : CoreKind → Option String
  marker_of sing_box = some X.marker_text
  marker_of mihomo = none

  mark_owner-Puts :
      (k : CoreKind) (w : Switching O) {v : Switching O}
      → mark_owner X k w ≡ (v, done)
      → Puts X marker (marker_of k) w v × OnlyFiles X w v
  unfolding mark_owner
  mark_owner-Puts sing_box w h = (
    write_file-Puts X marker (some X.marker_text) w h,
    write_file-OnlyFiles X marker (some X.marker_text) w h,
  )
  mark_owner-Puts mihomo w h = (remove_file-Puts X marker w h, remove_file-OnlyFiles X marker w h)

  module _ (P : SwitchPlan) where
    -- After the commit the target is the core on record, in the manager, in verge.yaml and by the
    -- marker. The process is the one that was launched, and is up; without a launch the state is stopped.
    pub record IsCommitted (t v : Switching O) : Type 0 where
      pub is_target : v.kind ≡ P.prepared.core
      pub is_prepared : v.binary ≡ some P.prepared.path
      pub is_selected : v.files verge ≡ some (X.with_proxy_core P.prepared.core (t.files verge))
      pub is_marked : v.files marker ≡ marker_of P.prepared.core
      pub is_same : v.pid ≡ t.pid
      pub is_launched :
          P.was_running ≡ true ⊎ P.start_if_stopped ≡ true
          → ((p : ℕ) × (v.pid ≡ some p)) × (v.state ≡ running)
      pub is_halted : P.was_running ≡ false → P.start_if_stopped ≡ false → v.state ≡ stopped

    -- The commit is the last step, and was not cancelled when it began to take over.
    abbrev pub IsUncancelled : Switching O → Type 0
    IsUncancelled v = (s : Switching O) × (X.is_cancelled s ≡ false) × (take_over X P s ≡ (v, done))

    up_if_needed : (b c : Bool) → (b && not c) ≡ false → b ≡ true → c ≡ true
    up_if_needed true true h e = refl
    up_if_needed true false h e = cc
    up_if_needed false c h e = cc

    needed_if : (a b : Bool) → a ≡ true ⊎ b ≡ true → (a || b) ≡ true
    needed_if true b h = refl
    needed_if false b (inl h) = cc
    needed_if false b (inr h) = h

    idle_if : (a b : Bool) → a ≡ false → b ≡ false → (a || b) ≡ false
    idle_if a b h k = rw (h, k) refl

    running_if :
        (p : Option ℕ) (c : CoreState)
        → (is_some_pid p && is_running_state c) ≡ true
        → ((n : ℕ) × (p ≡ some n)) × (c ≡ running)
    running_if none c h = cc
    running_if (some n) running h = ((n, refl), refl)
    running_if (some n) stopped h = cc
    running_if (some n) starting h = cc
    running_if (some n) (core_error e) h = cc

    -- the end of the commit
    taken_over :
        (s : Switching O) {v : Switching O}
        → take_over X P s ≡ (v, done)
        → (v.kind ≡ P.prepared.core)
          × (v.binary ≡ some P.prepared.path)
          × (v.files ≡ s.files)
          × (v.pid ≡ s.pid)
          × (launch_needed X P ≡ true → v.state ≡ s.state)
          × (launch_needed X P ≡ false → v.state ≡ stopped)
    taken_over s {v = v} h =
        subst
          (λ u.
            (u.kind ≡ P.prepared.core)
            × (u.binary ≡ some P.prepared.path)
            × (u.files ≡ s.files)
            × (u.pid ≡ s.pid)
            × (launch_needed X P ≡ true → u.state ≡ s.state)
            × (launch_needed X P ≡ false → u.state ≡ stopped))
          (ap (λ r. r.0) h) (refl, refl, refl, refl, λ e. rw (e) refl, λ e. rw (e) refl)

    still_up :
        (w u s v : Switching O)
        → OnlyFiles X w u
        → OnlyFiles X u s
        → v.pid ≡ s.pid
        → v.state ≡ s.state
        → is_up X P w ≡ true
        → is_up X P v ≡ true
    still_up w u s v a b pid state up =
        ap₂ (λ p q. is_some_pid p && is_running_state q)
          (pid ∙ ap (λ t. t.pid) b ∙ ap (λ t. t.pid) a)
          (state ∙ ap (λ t. t.state) b ∙ ap (λ t. t.state) a)
        ∙ up

    commit-IsCommitted :
        (w : Switching O) {v : Switching O}
        → commit_target X P w ≡ (v, done)
        → IsCommitted w v × IsUncancelled v
    unfolding commit_target
    commit-IsCommitted w {v = v} h =
        let guards = both (check_guided_cancel X w) (
          both (guided_owner_check X w) (
            refuse_if (launch_needed X P && not (is_up X P w))
              "Prepared target exited before the selection could be committed")) in
        let (g, h0) = and_then-checked guards w _ h in
        let selected = some (X.with_proxy_core P.prepared.core (w.files verge)) in
        let (u, c1, h1) = and_then-done (write_file X verge selected w) _ h0 in
        let (g2, h2) = and_then-checked (check_guided_cancel X u) u _ h1 in
        let (s, c3, h3) = and_then-done (mark_owner X P.prepared.core u) _ h2 in
        let (g4, h4) = and_then-checked (check_guided_cancel X s) s (take_over X P) h3 in
        let (kind, binary, files, pid, state, idle) = taken_over s h4 in
        let (puts, only) = mark_owner-Puts P.prepared.core u c3 in
        let (g5, g6) = both-done (check_guided_cancel X w) _ g in
        let (g7, g8) = both-done (guided_owner_check X w) _ g6 in
        (
          record {
            is_target = kind;
            is_prepared = binary;
            is_selected =
                ap (λ f. f verge) files ∙ puts verge ∙ write_file-Puts X verge selected w c1 verge;
            is_marked = ap (λ f. f marker) files ∙ puts marker;
            is_same =
                pid
                ∙ ap (λ t. t.pid) only
                ∙ ap (λ t. t.pid) (write_file-OnlyFiles X verge selected w c1);
            is_launched = λ asked.
                let needed = needed_if P.was_running P.start_if_stopped asked in
                running_if v.pid v.state (
                  still_up w u s v (write_file-OnlyFiles X verge selected w c1) only pid
                    (state needed)
                    (up_if_needed (launch_needed X P) (is_up X P w) (refuse_if-done _ _ g8)
                      needed));
            is_halted = λ a b. idle (idle_if P.was_running P.start_if_stopped a b);
          },
          (s, refuse_if-done (X.is_cancelled s) _ g4, h4),
        )

    finished-switched :
        (r : Switching O × SwitchResult) {v : Switching O}
        → finished X P r ≡ (v, switched)
        → (r ≡ (r.0, switched)) × (v ≡ record r.0 { restarting = false })
    finished-switched (u, switched) h = (refl, ap (λ r. r.0) (sym h))
    finished-switched (u, refused m) h = cc
    finished-switched (u, rollback_failed m n) h = cc
    finished-switched (u, restored m) h = cc

    switched_if :
        (b : Bool) (w : Switching O) (m : String) (r : Switching O × SwitchResult) {v : Switching O}
        → (if b then (w, refused m) else finished X P r) ≡ (v, switched)
        → finished X P r ≡ (v, switched)
    switched_if true w m r h = cc
    switched_if false w m r h = h

    -- The run of a switch that succeeds, from the state when it begins.
    abbrev pub IsSwitched : Switching O → Switching O → Type 0
    IsSwitched w v =
        (x : Switching O) × IsStopped X P w x
        × ((y : Switching O) × IsPlaced X P x y
            × ((t : Switching O) × IsStarted X P y t × IsCommitted t v × IsUncancelled v))

    -- A switch that succeeds stopped the old core, if it ran, and put the prepared config into the place
    -- of the target's. If the old core ran or a start was asked for, the target was then started by its
    -- executable with that config and its selections were chosen in their order, and its process is up at
    -- the end; otherwise nothing was started and the state is stopped. The target is the core on record:
    -- in the manager, in verge.yaml, written from its text after the launch, and by the marker, which
    -- stands exactly for sing-box. No cancellation was seen when the commit took over, and the
    -- transaction is over.
    pub switch_prepared-IsCommitted :
        (w : Switching O) {v : Switching O}
        → switch_prepared X P w ≡ (v, switched)
        → (u : Switching O) × IsSwitched (begun w) u × (v ≡ record u { restarting = false })
    unfolding switch_prepared recheck
    switch_prepared-IsCommitted w h =
        let r = orchestrate_guided_switch (switch_steps X P) (begun w) in
        let (f, g) = finished-switched r (switched_if w.restarting w _ r h) in
        let (c, e, (x, stop, (t, launch, commit))) =
          orchestrate-switched (switch_steps X P) (begun w) f in
        let checked_only : c ≡ begun w = ap (λ x. x.0) (sym e) in
        let (y, placed, start) = launch_target-IsStarted X P x launch in
        let (committed, uncancelled) = commit-IsCommitted t commit in
        (
          r.0,
          (
            x,
            subst (λ s. IsStopped X P s x) checked_only (stop_old-IsStopped X P c stop),
            (y, placed, (t, start, committed, uncancelled)),
          ),
          g,
        )

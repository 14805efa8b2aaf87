-- ===== src/Manager/Switch/Undone.antt =====
-- A guided switch that reports that the previous selection is restored.
use clash_verge_cli.Prelude.{
  String, ◌≡◌, refl, sym, ap, ap₂, ◌∙◌, subst, ◌⊎◌, inl, inr, Bool, true, false, ◌&&◌, none, some,
  if◌then◌else◌, Bool-cases, Option-cases, false-ne-true,
}
use clash_verge_cli.Subscribe.Refresh.{Reply, done, error}
use clash_verge_cli.Manager.Switch.{
  Files, Switching, Outside, and_then, SwitchResult, switched, refused, restored, rollback_failed,
  switch_outcome, orchestrate_guided_switch,
}
use clash_verge_cli.Manager.Switch.Apply.{
  SwitchPlan, capture, restore, select_all, recheck, stop_old, launch_target, commit_target,
  restart_old, roll_back, failed_state, record_failure, not_busy, switch_steps, switch_prepared,
}
use clash_verge_cli.Manager.Switch.Steps.{and_then-done, done_if, orchestrate-restored}
use clash_verge_cli.Manager.Switch.Disk.{SameFiles, restore-SameFiles}
use clash_verge_cli.Manager.Switch.Launched.{Selects, select_all-Selects, begun}
use clash_verge_cli.Manager.Switch.Flags.{
  KeepsFlag, HasFlag, flag_of, flag_set, at, stopping_keeps, keeps_then, keeps_if, restore_keeps,
  launch_target_keeps, commit_target_keeps,
}

module _ {O : Type 0} (X : Outside O) (P : SwitchPlan) where
  -- The core on record, its executable and the three files are those of before.
  pub record IsAsBefore (before : Files) (w : Switching O) : Type 0 where
    pub same_kind : w.kind ≡ P.old_kind
    pub same_binary : w.binary ≡ P.old_binary
    pub same_files : SameFiles X P.prepared.core w.files before

  -- The old core did not run, or refused to be stopped.
  abbrev pub NotStopped : Switching O → Type 0
  NotStopped w = (P.was_running ≡ false) ⊎ ((e : String) × ((X.stop_core w).1 ≡ error e))

  -- The old core has been started with its executable and no other config than its own, and its
  -- selections have been chosen again.
  abbrev pub IsStartedAgain : Switching O → Switching O → Type 0
  IsStartedAgain u v =
      (path : String) × (P.old_binary ≡ some path)
      × ((a : Switching O) × (X.spawn_core_as P.old_kind path none u ≡ (a, done))
          × Selects X P.old_kind P.selections a v)

  restart_old-IsStartedAgain :
      (u : Switching O) {v : Switching O} → restart_old X P u ≡ (v, done) → IsStartedAgain u v
  unfolding restart_old
  restart_old-IsStartedAgain u {v = v} = elim (Option-cases P.old_binary) [
    | inl e ↦ rw (e, restart_old) (λ h. cc)
    | inr (path, e) ↦
        rw (e, restart_old)
          (λ h.
            let (a, spawned, k) =
              and_then-done (X.spawn_core_as P.old_kind path none u)
                (select_all X P.old_kind P.selections) h in
            (path, refl, (a, spawned, select_all-Selects X P.old_kind P.selections a k)))
  ]

  -- What remains after the transaction is reported.
  abbrev pub reported : String → Switching O → Switching O
  reported e v = record (failed_state X P e v) { restarting = false }

  abbrev pub finished : Switching O × SwitchResult → Switching O × SwitchResult
  finished r = not_busy X P (record_failure X P r)

  finished-restored :
      (r : Switching O × SwitchResult) {v : Switching O} {e : String}
      → finished r ≡ (v, restored e)
      → (r ≡ (r.0, restored e)) × (v ≡ reported e r.0)
  finished-restored (u, switched) h = cc
  finished-restored (u, refused m) h = cc
  finished-restored (u, rollback_failed m n) h = cc
  finished-restored (u, restored m) {v = v} {e = e} h =
      let same : m ≡ e = cc in
      (ap (λ x. (u, restored x)) same, ap (λ r. r.0) (sym h) ∙ ap (λ x. reported x u) same)

  switching_if :
      (b : Bool) (w : Switching O) (m : String) (r : Switching O × SwitchResult) {v : Switching O}
      {e : String}
      → (if b then (w, refused m) else finished r) ≡ (v, restored e)
      → finished r ≡ (v, restored e)
  switching_if true w m r h = cc
  switching_if false w m r h = h

  -- From a state that is as before: nothing more, where the old core was not stopped, or the old core
  -- started again.
  abbrev pub IsUndone : Files → Switching O → Switching O → Type 0
  IsUndone before w v =
      (u : Switching O) × IsAsBefore before u
      × (((v ≡ u) × NotStopped (begun w)) ⊎ IsStartedAgain u v)

  module _ (K : KeepsFlag X) where
    -- The flag after the steps of the switch: a stop that succeeds has set it.
    stop_old-HasFlag :
        (w : Switching O) → ((X.stop_core w).1 ≡ done) → HasFlag true (stop_old X P w)
    unfolding stop_old
    stop_old-HasFlag w h = flag_set (X.stop_core w) h

    outcome-HasFlag :
        (w : Switching O)
        → P.was_running ≡ true
        → (X.stop_core w).1 ≡ done
        → HasFlag true (switch_outcome (switch_steps X P) w)
    unfolding switch_outcome
    outcome-HasFlag w ran ok =
        let first = if P.was_running then stop_old X P w else (w, done) in
        let rest = λ (v : Switching O). and_then (launch_target X P v) (commit_target X P) in
        keeps_then X K true first rest
          (subst (λ b. HasFlag true (if b then stop_old X P w else (w, done))) (sym ran)
            (stop_old-HasFlag w ok))
          (λ v k.
            keeps_then X K true (launch_target X P v) (commit_target X P)
              (launch_target_keeps X K true P v k) (commit_target_keeps X K true P))

    roll_back-restores :
        (before : Files) (t : Switching O) {v : Switching O}
        → P.saved ≡ capture X P.prepared.core before
        → roll_back X P t ≡ (v, done)
        → (u : Switching O) × IsAsBefore before u
          × (u.stopped_old ≡ t.stopped_old)
          × ((((u.stopped_old && P.was_running) ≡ false) × (v ≡ u))
              ⊎ (((u.stopped_old && P.was_running) ≡ true) × (restart_old X P u ≡ (v, done))))
    unfolding roll_back restart_old restore
    roll_back-restores before t {v = v} captured h =
        let b = t.stopped_old in
        let first = if t.target_started then X.stop_core t else (t, done) in
        let (w, e, h1) = and_then-done first _ h in
        let (u, f, h2) = and_then-done (restore X P.saved w) _ h1 in
        let kept =
          flag_of b first
            (keeps_if X K b t.target_started (X.stop_core t) (t, done) (stopping_keeps X K b t refl)
              (at X K b t done refl))
            e in
        (
          record u { kind = P.old_kind; binary = P.old_binary },
          record {
            same_kind = refl;
            same_binary = refl;
            same_files =
                restore-SameFiles X P.prepared.core before w
                  (subst (λ s. restore X s w ≡ (u, done)) captured f);
          },
          flag_of b (restore X P.saved w) (restore_keeps X K b P.saved w kept) f,
          done_if (u.stopped_old && P.was_running)
              (restart_old X P (record u { kind = P.old_kind; binary = P.old_binary })) h2,
        )

    not_stopped :
        (w t u : Switching O)
        → t ≡ (switch_outcome (switch_steps X P) w).0
        → u.stopped_old ≡ t.stopped_old
        → (u.stopped_old && P.was_running) ≡ false
        → NotStopped w
    not_stopped w t u same kept off = elim (Bool-cases P.was_running) [
      | inr idle ↦ inl idle
      | inl ran ↦ elim (Reply-cases (X.stop_core w).1) [
        | inr (e, failed) ↦ inr (e, failed)
        | inl ok ↦
            let set =
              flag_of true (switch_outcome (switch_steps X P) w) (outcome-HasFlag w ran ok) refl in
            absurd (
              false-ne-true
                (sym off ∙ ap₂ (λ a b. a && b) (kept ∙ ap (λ s. s.stopped_old) same ∙ set) ran))
      ]
    ]
      where
        Reply-cases : (r : Reply) → (r ≡ done) ⊎ ((e : String) × (r ≡ error e))
        Reply-cases done = inl refl
        Reply-cases (error e) = inr (e, refl)

    -- A switch that reports that the previous selection is restored has undone its work: the core on
    -- record, its executable, the config of the target, verge.yaml and the marker are those of before. If
    -- the old core ran and its stop succeeded, the old core has then been started from that state, with
    -- its old executable and no config given, and its selections have been chosen again in their order.
    -- The calls to stop and start a core and to choose a node leave the flag of the transaction alone.
    pub switch_prepared-IsUndone :
        (before : Files) (w : Switching O) {v : Switching O} {e : String}
        → P.saved ≡ capture X P.prepared.core before
        → switch_prepared X P w ≡ (v, restored e)
        → (u : Switching O) × IsUndone before w u × (v ≡ reported e u)
    unfolding switch_prepared recheck
    switch_prepared-IsUndone before w captured h =
        let r = orchestrate_guided_switch (switch_steps X P) (begun w) in
        let (f, g) = finished-restored r (switching_if w.restarting w _ r h) in
        let (c, e, b) = orchestrate-restored (switch_steps X P) (begun w) f in
        let t = (switch_outcome (switch_steps X P) c).0 in
        let (u, same, kept, after) = roll_back-restores before t captured b in
        let checked_only : begun w ≡ c = ap (λ x. x.0) e in
        (
          r.0,
          (
            u,
            same,
            elim after [
              | inl (off, k) ↦ inl (
                k,
                not_stopped (begun w) t u
                    (ap (λ s. (switch_outcome (switch_steps X P) s).0) (sym checked_only)) kept off,
              )
              | inr (on, k) ↦ inr (restart_old-IsStartedAgain u k)
            ],
          ),
          g,
        )

-- ===== src/Manager/Switch/Stopped/Settled.antt =====
-- What a selection without a running core leaves, on every branch.
use clash_verge_cli.Manager.Switch.Steps.{both-done, refuse_if-done}
use clash_verge_cli.Manager.Switch.Disk.{OnlyFiles}
use clash_verge_cli.Prelude.{
  String, ◌≡◌, refl, sym, ap, ◌∙◌, ◌⊎◌, inl, inr, Bool, true, false, not, ◌||◌, Option, none, some,
  arith, ℕ, suc, ◌%◌, ◌^◌, eqb,
}
use clash_verge_cli.Subscribe.Scheduler.{CoreKind}
use clash_verge_cli.Subscribe.Refresh.{Reply, done, error}
use clash_verge_cli.Manager.Watcher.{stopped}
use clash_verge_cli.Manager.Switch.{
  verge, marker, is_kind, Switching, Outside, refuse_if, is_some_pid,
}
use clash_verge_cli.Manager.Switch.Apply.{check_guided_cancel}
use clash_verge_cli.Manager.Switch.Stopped.{
  Staging, StoppedResult, selected, unselected, unrestored, is_idle, marker_for,
  persist_stopped_selection, selection_changed, stopped_selection_preflight, stopped_guard,
  commit_persisted, commit_guarded, commit_stopped_selection,
}
use clash_verge_cli.Manager.Switch.Stopped.Written.{either_if, SamePair, IsPersisted, persist_lem}

or_split : (a b : Bool) → (a || b) ≡ false → (a ≡ false) × (b ≡ false)
or_split true b h = cc
or_split false b h = (refl, h)

no_pid : (p : Option ℕ) → is_some_pid p ≡ false → p ≡ none
no_pid none h = refl
no_pid (some p) h = cc

module _ {O : Type 0} (X : Outside O) (G : Staging O) where
  module _ (generation : ℕ) (old_kind target : CoreKind) where
    abbrev pub busy : Switching O → Switching O
    busy w = record w { restarting = true }

    -- The target is the core on record, in the manager, in verge.yaml and by the marker; no process is
    -- tracked, the generation is the next one, and nobody else's change of the two files is lost.
    pub record IsSelected (w v : Switching O) : Type 0 where
      pub is_chosen : v.kind ≡ target
      pub is_stopped : v.state ≡ stopped
      pub no_process : v.pid ≡ none
      pub is_next : (w.generation ≡ generation) × (v.generation ≡ suc generation % 2 ^ 64)
      pub is_written :
          (text : String) × (G.insert_proxy_core target (w.files verge) ≡ some text)
          × (v.files verge ≡ some text)
      pub has_marker : v.files marker ≡ marker_for X G target
      pub nothing_lost : SamePair X G (G.elsewhere (busy w)) w.files

    pub record IsKept (w v : Switching O) : Type 0 where
      pub kept_kind : v.kind ≡ w.kind
      pub kept_state : v.state ≡ w.state
      pub kept_pid : v.pid ≡ w.pid
      pub kept_generation : v.generation ≡ w.generation

    abbrev pub IsSettled : Switching O → Switching O × StoppedResult → Type 0
    IsSettled w (v, selected) = IsSelected w v
    IsSettled w (v, unselected e) =
        IsKept w v × ((v.files ≡ w.files) ⊎ SamePair X G v.files (G.elsewhere (busy w)))
    IsSettled w (v, unrestored e r) = IsKept w v

    abbrev guard : Switching O → Reply
    guard = stopped_guard X G generation old_kind target

    guarded : (s : Switching O) → guard s ≡ done → (generation ≡ s.generation) × (s.pid ≡ none)
    unfolding stopped_selection_preflight stopped_guard
    guarded s h =
        let (c, h1) = both-done (check_guided_cancel X s) _ h in
        let changed = selection_changed X G generation old_kind target s in
        let (r, h2) = both-done (refuse_if changed _) _ h1 in
        let (a, b) = or_split (not (eqb generation s.generation)) _ (refuse_if-done changed _ r) in
        let (c, d) = or_split (not (is_kind old_kind s.kind)) _ b in
        let (e, f) = or_split (not (is_idle s.state)) (is_some_pid s.pid) d in
        (ground (arith, a), no_pid s.pid f)

    only-IsKept :
        (w v : Switching O) → OnlyFiles X (busy w) v → IsKept w (record v { restarting = false })
    only-IsKept w v h = record {
      kept_kind = ap (λ s. s.kind) h;
      kept_state = ap (λ s. s.state) h;
      kept_pid = ap (λ s. s.pid) h;
      kept_generation = ap (λ s. s.generation) h;
    }

    settled :
        (w : Switching O) (r : Switching O × StoppedResult)
        → IsPersisted X G guard target (busy w) r
        → IsSettled w (commit_persisted X G generation old_kind target r)
    settled w (v, selected) (only, written, marked, ok, pair) =
        let (same, quiet) = guarded v ok in
        let old : v.generation ≡ w.generation = ap (λ s. s.generation) only in
        record {
          is_chosen = refl;
          is_stopped = refl;
          no_process = quiet;
          is_next = (sym old ∙ sym same, ap (λ n. suc n % 2 ^ 64) (sym same));
          is_written = written;
          has_marker = marked;
          nothing_lost = pair;
        }
    settled w (v, unselected e) (only, inl same) =
        (only-IsKept w v only, inl (ap (λ s. s.files) same))
    settled w (v, unselected e) (only, inr pair) = (only-IsKept w v only, inr pair)
    settled w (v, unrestored e r) only = only-IsKept w v only

    kept : (w : Switching O) → IsKept w w
    kept w = record { kept_kind = refl; kept_state = refl; kept_pid = refl; kept_generation = refl }

    guarded_commit :
        (w : Switching O) (r : Reply)
        → IsSettled w (commit_guarded X G generation old_kind target w r)
    unfolding commit_guarded
    guarded_commit w (error e) = (kept w, inl refl)
    guarded_commit w done =
        either_if (IsSettled w) w.restarting (λ e. (kept w, inl refl))
          (λ e.
            settled w (persist_stopped_selection X G guard target (busy w))
              (persist_lem X G guard target (busy w)))

    -- A selection without a running core is settled on every branch. If it is selected, the target is the
    -- core on record in the manager, in verge.yaml and by the marker, no process is tracked, the
    -- generation is the expected one plus one, wrapped at 64 bits, and the two files were still as read
    -- when they were written. If it fails, the core on record, the state, the process and the generation
    -- are as before, and unless the restoring failed too, the files are as before, or the two files are as
    -- another program has left them.
    pub commit_stopped_selection_lem :
        (w : Switching O) → IsSettled w (commit_stopped_selection X G generation old_kind target w)
    unfolding commit_stopped_selection
    commit_stopped_selection_lem w = guarded_commit w (guard w)

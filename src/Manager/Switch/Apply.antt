-- ===== src/Manager/Switch/Apply.antt =====
-- The guards and the steps of `apply_prepared_core` in manager.rs.
use clash_verge_cli.Prelude.{
  String, Bool, true, false, not, ◌&&◌, ◌||◌, Option, none, some, List, [], ◌∷◌, ℕ, eqb,
  if◌then◌else◌,
}
use clash_verge_cli.Subscribe.Scheduler.{CoreKind, mihomo, sing_box}
use clash_verge_cli.Subscribe.Refresh.{Reply, done, error}
use clash_verge_cli.Manager.Watcher.{stopped, core_error}
use clash_verge_cli.Manager.Switch.{
  FilePath, config, verge, marker, candidate, is_kind, Files, put, Switching, Inspected, inspected,
  not_inspected, Binding, free, not_bound, Listener, owned, not_known, Outside, and_then, both,
  refuse_if, SwitchResult, switched, refused, restored, rollback_failed, SwitchSteps,
  orchestrate_guided_switch, is_some_pid, check_guided_record, is_running_state,
}

-- `PreparedCore`, as far as the switch reads it.
pub record PreparedCore : Type 0 where
  pub core : CoreKind
  pub path : String

abbrev pub GuidedFileSnapshot : Type 0
GuidedFileSnapshot = List (FilePath × Option String)

-- What `apply_prepared_core` has prepared when the transaction begins.
pub record SwitchPlan : Type 0 where
  pub prepared : PreparedCore
  pub generation : ℕ
  pub was_running : Bool
  pub start_if_stopped : Bool
  pub old_kind : CoreKind
  pub old_binary : Option String
  pub saved : GuidedFileSnapshot
  pub selections : List (String × String)
  pub target_selections : List (String × String)

module _ {O : Type 0} (X : Outside O) where
  open X use {
    is_cancelled, gui_running, gui_isolation, record_pid, record_live, inspect_socket,
    bind_controller, owns_listener, controller_released, mixed_port_available, stop_core,
    spawn_core_as, select_proxy, io_error, with_proxy_core, marker_text,
  }

  abbrev pub check_guided_cancel : Switching O → Reply
  check_guided_cancel w = refuse_if (is_cancelled w) "Core operation cancelled"

  unfoldable pub guided_owner_check : Switching O → Reply
  guided_owner_check w =
      both (if gui_running w then gui_isolation none w else done) (
        refuse_if (is_some_pid w.pid && not w.owns_child) "This core belongs to another supervisor")

  abbrev pub foreign_port : Reply
  foreign_port = error "sing-box controller port belongs to another process"

  -- the error of a listener that is not known may be put off to the launch
  abbrev pub listener_check : Switching O → Listener → Reply
  listener_check w (owned true) = done
  listener_check w (owned false) = foreign_port
  listener_check w (not_known denied e) =
      if is_kind w.kind mihomo && (denied && not (gui_running w))
      then done
      else error "cannot verify owned predecessor's controller listener"

  abbrev pub binding_check : Switching O → Binding → Reply
  binding_check w free = done
  binding_check w (not_bound in_use e) =
      if in_use && w.owns_child
      then elim w.pid [ none ↦ foreign_port | some pid ↦ listener_check w (owns_listener pid w) ]
      else foreign_port

  -- `guided_tcp_controller_check_with`
  unfoldable pub guided_tcp_controller_check : CoreKind → Switching O → Reply
  guided_tcp_controller_check target w =
      if is_kind w.kind sing_box && (w.owns_child && is_some_pid w.pid)
      then done
      else if is_kind target sing_box
      then binding_check w (bind_controller w)
      else done

  abbrev pub guided_record_of : CoreKind → Switching O → Inspected → Reply
  guided_record_of target w (not_inspected e) = error e
  guided_record_of target w (inspected bound) =
      both (check_guided_record (record_pid w) (record_live w) w.pid w.owns_child bound)
        (guided_tcp_controller_check target w)

  unfoldable pub guided_record_check : CoreKind → Switching O → Reply
  guided_record_check target w = guided_record_of target w (inspect_socket w)

  -- an operation on a file that fails leaves it as it was
  abbrev pub write_file : FilePath → Option String → Switching O → Switching O × Reply
  write_file path bytes w = elim (io_error path w) [
    | none ↦ (record w { files = put path bytes w.files }, done)
    | some e ↦ (w, error e)
  ]

  unfoldable pub remove_file : FilePath → Switching O → Switching O × Reply
  remove_file path w = elim (w.files path) [
    | none ↦ (w, done)
    | some bytes ↦ write_file path none w
  ]

  unfoldable pub rename_candidate : FilePath → Switching O → Switching O × Reply
  rename_candidate path w = elim (w.files candidate) [
    | none ↦ (w, error "No such file or directory")
    | some bytes ↦ elim (io_error path w) [
      | none ↦ (record w { files = put candidate none (put path (some bytes) w.files) }, done)
      | some e ↦ (w, error e)
    ]
  ]

  -- `GuidedFileSnapshot::capture` of the three files, where each is there to be read or is missing
  unfoldable pub capture : CoreKind → Files → GuidedFileSnapshot
  capture target files =
      (config target, files (config target)) ∷ (verge, files verge) ∷ (marker, files marker) ∷ []

  unfoldable pub restore_file : FilePath → Option String → Switching O → Switching O × Reply
  unfolding remove_file
  restore_file path none w = remove_file path w
  restore_file path (some bytes) w = write_file path (some bytes) w

  -- `GuidedFileSnapshot::restore`
  unfoldable pub restore : GuidedFileSnapshot → Switching O → Switching O × Reply
  unfolding restore_file
  restore [] w = (w, done)
  restore ((path, bytes) ∷ files) w = and_then (restore_file path bytes w) (restore files)

  unfoldable pub select_all : CoreKind → List (String × String) → Switching O → Switching O × Reply
  select_all api [] w = (w, done)
  select_all api ((group, node) ∷ rest) w =
      and_then (select_proxy api group node w) (select_all api rest)

  unfoldable pub mark_owner : CoreKind → Switching O → Switching O × Reply
  unfolding remove_file
  mark_owner sing_box w = write_file marker (some marker_text) w
  mark_owner mihomo w = remove_file marker w

  module _ (P : SwitchPlan) where
    open P use {
      prepared, generation, was_running, start_if_stopped, old_kind, old_binary, saved, selections,
      target_selections,
    }

    abbrev pub checked : Reply → Switching O → Switching O × Reply
    checked r w = (w, r)

    unfoldable pub recheck : Switching O → Switching O × Reply
    unfolding guided_owner_check guided_record_check
    recheck w =
        checked
          (both (check_guided_cancel w) (
            both (guided_owner_check w) (
              both (guided_record_check prepared.core w) (
                refuse_if (not (eqb generation w.generation))
                  "Core ownership/generation changed before switching; retry"))))
          w

    unfoldable pub stop_old : Switching O → Switching O × Reply
    stop_old w = and_then (stop_core w) (λ v. (record v { stopped_old = true }, done))

    abbrev pub launch_needed : Bool
    launch_needed = was_running || start_if_stopped

    unfoldable pub start_target : Switching O → Switching O × Reply
    unfolding select_all
    start_target w =
        and_then
          (checked
            (both (controller_released prepared.core w) (
              both (if gui_running w then gui_isolation (some prepared.core) w else done)
                (mixed_port_available w)))
            w)
          (λ v.
            and_then (spawn_core_as prepared.core prepared.path (some (config prepared.core)) v)
              (λ u.
                select_all prepared.core target_selections (record u { target_started = true })))

    unfoldable pub launch_target : Switching O → Switching O × Reply
    unfolding start_target rename_candidate
    launch_target w = and_then (checked (check_guided_cancel w) w) (λ v.
        and_then (rename_candidate (config prepared.core) v)
          (λ u. if launch_needed then start_target u else (u, done)))

    abbrev pub is_up : Switching O → Bool
    is_up w = is_some_pid w.pid && is_running_state w.state

    abbrev pub take_over : Switching O → Switching O × Reply
    take_over w = (
      record w {
        kind = prepared.core;
        binary = some prepared.path;
        state = if launch_needed then w.state else stopped;
      },
      done,
    )

    unfoldable pub commit_target : Switching O → Switching O × Reply
    unfolding guided_owner_check mark_owner
    commit_target w =
        and_then
          (checked
            (both (check_guided_cancel w) (
              both (guided_owner_check w) (
                refuse_if (launch_needed && not (is_up w))
                  "Prepared target exited before the selection could be committed")))
            w)
          (λ v.
            and_then (write_file verge (some (with_proxy_core prepared.core (v.files verge))) v)
              (λ u. and_then (checked (check_guided_cancel u) u) (λ t.
                and_then (mark_owner prepared.core t)
                  (λ s. and_then (checked (check_guided_cancel s) s) take_over))))

    unfoldable pub restart_old : Switching O → Switching O × Reply
    unfolding select_all
    restart_old w = elim old_binary [
      | none ↦ (w, error "Old executable missing for rollback")
      | some path ↦ and_then (spawn_core_as old_kind path none w) (select_all old_kind selections)
    ]

    abbrev pub put_back : Switching O → Switching O
    put_back w = record w { kind = old_kind; binary = old_binary }

    abbrev pub must_restart : Switching O → Bool
    must_restart w = w.stopped_old && was_running

    abbrev pub restart_if_stopped : Switching O → Switching O × Reply
    unfolding restart_old
    restart_if_stopped w = if must_restart w then restart_old w else (w, done)

    unfoldable pub roll_back : Switching O → Switching O × Reply
    unfolding restart_old restore
    roll_back w =
        and_then (if w.target_started then stop_core w else (w, done))
          (λ v. and_then (restore saved v) (λ u. restart_if_stopped (put_back u)))

    abbrev pub failed_state : String → Switching O → Switching O
    failed_state e w = record w {
      state = if not (is_some_pid w.pid) && w.stopped_old then core_error e else w.state;
    }

    abbrev pub record_failure : Switching O × SwitchResult → Switching O × SwitchResult
    record_failure (w, switched) = (w, switched)
    record_failure (w, refused e) = (failed_state e w, refused e)
    record_failure (w, restored e) = (failed_state e w, restored e)
    record_failure (w, rollback_failed e r) = (failed_state e w, rollback_failed e r)

    abbrev pub not_busy : Switching O × SwitchResult → Switching O × SwitchResult
    not_busy (w, r) = (record w { restarting = false }, r)

    abbrev pub switch_steps : SwitchSteps (Switching O)
    switch_steps = record {
      recheck = recheck;
      was_running = was_running;
      stop = stop_old;
      launch = launch_target;
      commit = commit_target;
      rollback = roll_back;
    }

    -- `apply_prepared_core`, from the swap of `restarting` on
    unfoldable pub switch_prepared : Switching O → Switching O × SwitchResult
    unfolding orchestrate_guided_switch recheck stop_old launch_target commit_target roll_back
    switch_prepared w =
        if w.restarting
        then (w, refused "A core lifecycle operation is already in progress")
        else not_busy (
            record_failure (
              orchestrate_guided_switch switch_steps
                (record w { restarting = true; stopped_old = false; target_started = false })))

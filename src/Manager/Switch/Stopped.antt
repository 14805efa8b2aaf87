-- ===== src/Manager/Switch/Stopped.antt =====
-- The selection of another core while none runs: `commit_stopped_selection`, with its preflight, and
-- `persist_stopped_selection` of manager.rs.
pub mod Written
pub mod Settled
use clash_verge_cli.Prelude.{
  String, ◌≡◌, refl, sym, ap, ap₂, ◌∙◌, subst, ◌≡⟨◌⟩◌, ◌∎, ◌≢◌, ◌↔◌, ◌⊎◌, inl, inr, ite, if_pos,
  if_neg, Bool, true, false, not, ◌&&◌, ◌||◌, Option, none, some, List, [], ◌∷◌, ◌++◌, map,
  append-nil, append_assoc, arith, ◌==◌, eq_iff, eq_refl, ℕ, zero, suc, ◌+◌, ◌-◌, ◌*◌, ◌/◌, ◌%◌,
  ◌^◌, ◌≤◌, ◌<◌, min, max, compare, Ordering, ltb, leb, eqb, if◌then◌else◌, ltb→lt, lt→ltb, leb→le,
  le→leb, tests, is_text, is_text_iff, Bool-cases, Option-cases, false-ne-true, eq_false_of_ne,
  not-false, length, length-append, all, any, is_empty, find, keep, contains, lookup, Text, codes,
  text_eq, text_eq_sound, text_eq_refl, strip, starts_with, ends_with, count, push_front, split,
  split_once, join, is_digit, is_alphanumeric, value_from, Lacks, split-append, split_whole,
  split_once-append, split_once_whole, split-join, count-append, count-Lacks, ends_with-Lacks,
  ends_with-append, All-join, is_whitespace, trim_start, trim_end, trim, lowercase,
  eq_ignore_ascii_case, trim-twice, trim-Lacks, IsVisible, trim-visible, uppercase, insert_by,
  sort_by, Sorted, sort_by-Member, Member-sort_by, length-sort_by, sort_by-Sorted, IsFiltered,
  end_of_list, taken, left_out, keep-IsFiltered, print_u16, parse_unsigned, parse_u16, IsDigits,
  print_u16-IsDigits, print_u16-nonempty, parse_u16-print_u16, parse_u16-bound, IsDigits-IsVisible,
  ◌>>=◌, ◌>>◌, bail_if, unwrap_or, is_some, or_else, bind-eq-some, bail_if-eq-some, eq_of_some,
  WhenSome, WhenSome-intro, All, All-append, All-imp, Member, here, there, not-Member-nil,
  Member-cons, All-Member, All-of_Member, Member-append_first, Member-append_second,
  Member-append_cases, Member-append_last, filter_map, Member-filter_map, filter_map-Member,
  contains-All, Member-find, keep-Member, Member-keep, contains-Member, Member-contains,
}
use clash_verge_cli.Subscribe.Scheduler.{
  CoreKind, mihomo, sing_box, RefreshPath, hot_reload, singbox_restart, decide_refresh_path,
  min_cooldown, probe_failure_threshold, force_refresh_debounce_secs, SchedulerOutcome, no_outcome,
  AutoUpdateScheduler, new, insert, remove, is_cooled, note_attempt, filter_cooled, record_success,
  record_successes, BatchResult, refreshed, batch_error, run_batch, Snapshot, items, snapshot_error,
  compute_due, tick, record_probe_failure,
}
use clash_verge_cli.Subscribe.Refresh.{
  Reply, done, error, Core, ProbeOutcome, no_probe, probe_error, is_named, lists_node, is_proxy,
  any_in, has_providers, config_contains_node, item_of, file_of, reload_with_lifecycle,
  then_reapply, reload_selected, profile_snapshot, restore_profile_snapshot, snapshot_items,
  refreshed_config_has_node,
}
use clash_verge_cli.Manager.Watcher.{
  ExitDisposition, stale_watched_over, intentional_stop, crash, classify_exit, CoreState, stopped,
  starting, running, core_error, ManagerInner, Effect, core_exited, report_error, release_proxy,
  auto_restart, is_pid, take_exit, TryRestart, recover, on_disposition, announced, watch,
}
use clash_verge_cli.Manager.Switch.{
  FilePath, config, verge, marker, candidate, is_kind, is_path, Files, put, Switching, Inspected,
  inspected, not_inspected, Binding, free, not_bound, Listener, owned, not_known, Outside, and_then,
  both, refuse_if, SwitchResult, switched, refused, restored, rollback_failed, after_rollback,
  SwitchSteps, switch_outcome, after_outcome, after_recheck, orchestrate_guided_switch, is_some_pid,
  same_pid, check_guided_record, is_running_state,
}
use clash_verge_cli.Manager.Switch.Apply.{
  PreparedCore, GuidedFileSnapshot, SwitchPlan, check_guided_cancel, guided_owner_check,
  foreign_port, listener_check, binding_check, guided_tcp_controller_check, guided_record_of,
  guided_record_check, write_file, remove_file, rename_candidate, capture, restore_file, restore,
  select_all, mark_owner, checked, recheck, stop_old, launch_needed, start_target, launch_target,
  is_up, take_over, commit_target, restart_old, put_back, must_restart, restart_if_stopped,
  roll_back, failed_state, record_failure, not_busy, switch_steps, switch_prepared,
}

-- The text of verge.yaml with another core selected, none if it does not parse; what fails before the
-- candidates are staged; the marker of this process; and the files as other programs leave them while
-- the candidates are staged.
pub record Staging (O : Type 0) : Type 0 where
  pub insert_proxy_core : CoreKind → Option String → Option String
  pub stage_error : Switching O → Option String
  pub own_marker : String
  pub elsewhere : Switching O → Files

pub data StoppedResult : Type 0 where
  selected : StoppedResult
  unselected : String → StoppedResult
  unrestored : String → String → StoppedResult

abbrev pub same_bytes : Option String → Option String → Bool
same_bytes none none = true
same_bytes none (some t) = false
same_bytes (some s) none = false
same_bytes (some s) (some t) = s == t

abbrev pub is_idle : CoreState → Bool
is_idle stopped = true
is_idle (core_error e) = true
is_idle starting = false
is_idle running = false

module _ {O : Type 0} (X : Outside O) (G : Staging O) where
  open G use {insert_proxy_core, stage_error, own_marker, elsewhere}

  abbrev pub marker_for : CoreKind → Option String
  marker_for sing_box = some own_marker
  marker_for mihomo = none

  abbrev pub saved_pair : Files → GuidedFileSnapshot
  saved_pair files = (verge, files verge) ∷ (marker, files marker) ∷ []

  abbrev pub same_pair : Files → Files → Bool
  same_pair f g = same_bytes (f verge) (g verge) && same_bytes (f marker) (g marker)

  module _ (guard : Switching O → Reply) (target : CoreKind) where
    unfoldable pub publish : String → Switching O → Switching O × Reply
    unfolding restore_file
    publish text w = and_then (restore_file X marker (marker_for target) w) (λ v.
        and_then (v, guard v)
          (λ u. and_then (write_file X verge (some text) u) (λ t. (t, guard t))))

    abbrev pub after_restore : String → Switching O × Reply → Switching O × StoppedResult
    after_restore e (w, done) = (w, unselected e)
    after_restore e (w, error r) = (w, unrestored e r)

    unfoldable pub after_publish : Files → Switching O × Reply → Switching O × StoppedResult
    unfolding restore
    after_publish files (w, done) = (w, selected)
    after_publish files (w, error e) = after_restore e (restore X (saved_pair files) w)

    -- from the first guard on
    unfoldable pub publish_checked :
        Files → String → Switching O → Reply → Switching O × StoppedResult
    unfolding publish
    publish_checked files text w (error e) = (w, unselected e)
    publish_checked files text w done =
        if same_pair w.files files
        then after_publish files (publish text w)
        else (w, unselected "Core selection settings changed during preparation; retry")

    unfoldable pub persist_stopped_selection : Switching O → Switching O × StoppedResult
    unfolding publish
    persist_stopped_selection w = elim (insert_proxy_core target (w.files verge)) [
      | none ↦ (w, unselected "cannot select core: invalid verge.yaml")
      | some text ↦ elim (stage_error w) [
        | some e ↦ (w, unselected e)
        | none ↦
            let v = record w { files = elsewhere w } in publish_checked w.files text v (guard v)
      ]
    ]

  module _ (generation : ℕ) (old_kind target : CoreKind) where
    abbrev pub selection_changed : Switching O → Bool
    selection_changed w =
        not (eqb generation w.generation)
        || (not (is_kind old_kind w.kind) || (not (is_idle w.state) || is_some_pid w.pid))

    unfoldable pub stopped_selection_preflight : Switching O → Reply
    unfolding guided_record_check
    stopped_selection_preflight w =
        both
          (refuse_if (selection_changed w)
            "Core ownership/generation or selection changed; retry the stopped selection")
          (both (guided_record_check X target w) (
            if is_kind old_kind sing_box && not (is_kind target sing_box)
            then guided_record_check X sing_box w
            else done))

    unfoldable pub stopped_guard : Switching O → Reply
    unfolding stopped_selection_preflight
    stopped_guard w = both (check_guided_cancel X w) (stopped_selection_preflight w)

    abbrev pub commit_persisted : Switching O × StoppedResult → Switching O × StoppedResult
    commit_persisted (w, selected) = (
      record w {
        kind = target;
        state = stopped;
        generation = suc w.generation % 2 ^ 64;
        restarting = false;
      },
      selected,
    )
    commit_persisted (w, unselected e) = (record w { restarting = false }, unselected e)
    commit_persisted (w, unrestored e r) = (record w { restarting = false }, unrestored e r)

    unfoldable pub commit_guarded : Switching O → Reply → Switching O × StoppedResult
    unfolding persist_stopped_selection stopped_selection_preflight
    commit_guarded w (error e) = (w, unselected e)
    commit_guarded w done =
        if w.restarting
        then (w, unselected "A core lifecycle operation is already in progress")
        else commit_persisted
            (persist_stopped_selection stopped_guard target (record w { restarting = true }))

    unfoldable pub commit_stopped_selection : Switching O → Switching O × StoppedResult
    unfolding persist_stopped_selection stopped_selection_preflight
    commit_stopped_selection w = commit_guarded w (stopped_guard w)

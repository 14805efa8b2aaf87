-- ===== src/Subscribe/Refresh/Forced.antt =====
-- `force_refresh_with_lifecycle` and `probe_with_lifecycle` of scheduler.rs.
pub mod Undo
pub mod Cause
pub mod Counted
pub mod Applied
use Prim.Native.String
use clash_verge_cli.Prelude.{
  String, Bool, true, false, not, ◌||◌, Option, none, some, List, [], ◌∷◌, ◌++◌, ℕ, ◌+◌, ◌-◌,
  if◌then◌else◌, is_empty, ◌>>=◌, unwrap_or,
}
use clash_verge_cli.Profiles.Item.{PrfItem}
use clash_verge_cli.Subscribe.Delay.{failed, ProbeVerdict, alive, dead, api_issue, classify_delay}
use clash_verge_cli.Subscribe.Scheduler.{
  CoreKind, mihomo, sing_box, AutoUpdateScheduler, BatchResult, refreshed, batch_error, items,
  snapshot_error, record_probe_failure,
}
use clash_verge_cli.Subscribe.Refresh.{
  Reply, done, error, Core, ProbeOutcome, no_probe, probe_error, is_alive, file_of, reload_selected,
  profile_snapshot, restore_profile_snapshot, refreshed_config_has_node,
}

abbrev concat : List String → String
concat [] = ""
concat (s ∷ ss) = String.◌++◌ s (concat ss)

abbrev rollback_suffix : Reply → String
rollback_suffix done = ""
rollback_suffix (error e) = concat ("; rollback apply failed: " ∷ e ∷ [])

abbrev pub core_name : CoreKind → String
core_name mihomo = "mihomo"
core_name sing_box = "singbox"

unfoldable pub unavailable_probe : CoreKind → ProbeOutcome
unavailable_probe kind =
    probe_error
      (concat (core_name kind ∷ " unavailable: core stopped; no probe or startup attempted" ∷ []))

-- What a refresh that was rolled back reports.
abbrev pub rolled_back_with : Option String → ProbeOutcome
rolled_back_with e = record {
  forced_refresh = true;
  rolled_back = true;
  may_be_down = false;
  error = e;
}

abbrev pub forced_with : Option String → ProbeOutcome
forced_with e = record {
  forced_refresh = true;
  rolled_back = false;
  may_be_down = false;
  error = e;
}

module _ {M : Type 0} (C : Core M) (contains_node : M → String → Bool) (uid node : String)
    (enable_tun : Bool) where
  open C use {
    World, Bytes, core_kind, is_running, snapshot, current_uid, current_exit_node, probe_enabled,
    delay_test, update_remotes, now,
  }

  abbrev pub restored : List (PrfItem M) → Bytes → ℕ → World → World
  restored profiles bytes updated w = elim (file_of uid profiles) [
    | none ↦ w
    | some file ↦ restore_profile_snapshot C uid file bytes updated w
  ]

  -- the report after a failed reload, once the old file is reloaded
  abbrev pub report_reload : String → World × Reply → World × ProbeOutcome
  report_reload e (w, reply) = (
    w,
    rolled_back_with
        (some (concat ("reload after forced refresh failed: " ∷ e ∷ rollback_suffix reply ∷ []))),
  )

  -- the branch in which the reload failed
  unfoldable pub undo_reload : List (PrfItem M) → Bytes → ℕ → String → World → World × ProbeOutcome
  undo_reload profiles bytes updated e w = elim (file_of uid profiles) [
    | none ↦ (w, forced_with (some (concat ("reload after forced refresh: " ∷ e ∷ []))))
    | some file ↦ report_reload e (
        reload_selected C uid node enable_tun (restore_profile_snapshot C uid file bytes updated w))
  ]

  abbrev pub settle : List (PrfItem M) → Bytes → ℕ → World × Reply → World × ProbeOutcome
  unfolding undo_reload
  settle profiles bytes updated (w, done) = (
    w,
    record (forced_with none) { may_be_down = not (is_alive (classify_delay (delay_test node w))) },
  )
  settle profiles bytes updated (w, error e) = undo_reload profiles bytes updated e w

  -- the branch in which the refreshed config has the node
  unfoldable pub apply_refreshed : List (PrfItem M) → Bytes → ℕ → World → World × ProbeOutcome
  unfolding settle
  apply_refreshed profiles bytes updated w =
      settle profiles bytes updated (reload_selected C uid node enable_tun w)

  abbrev pub report_refresh : World × Reply → World × ProbeOutcome
  report_refresh (w, error e) =
      (w, rolled_back_with (some (concat ("rollback apply failed: " ∷ e ∷ []))))
  report_refresh (w, done) = (w, rolled_back_with none)

  -- the branch in which it has lost the node
  unfoldable pub undo_refresh : List (PrfItem M) → Bytes → ℕ → World → World × ProbeOutcome
  undo_refresh profiles bytes updated w =
      report_refresh (reload_selected C uid node enable_tun (restored profiles bytes updated w))

  -- the `match` on the result of `update_remotes_locked`
  unfoldable pub after_update :
      List (PrfItem M) → Bytes → ℕ → World × BatchResult → World × ProbeOutcome
  unfolding apply_refreshed undo_refresh
  after_update profiles bytes updated (w, batch_error e) =
      (w, probe_error (concat ("forced refresh failed: " ∷ e ∷ [])))
  after_update profiles bytes updated (w, refreshed done_uids failed_uids) =
      if is_empty done_uids
      then (
        w,
        forced_with (some (concat ("forced refresh of " ∷ uid ∷ " produced no update" ∷ []))),
      )
      else if refreshed_config_has_node C contains_node uid node w
      then apply_refreshed profiles bytes updated w
      else undo_refresh profiles bytes updated w

  -- `force_refresh_with_lifecycle`
  unfoldable pub force_refresh : World → World × ProbeOutcome
  unfolding after_update
  force_refresh w = elim (snapshot w) [
    | snapshot_error e ↦ (w, probe_error e)
    | items profiles ↦ elim (profile_snapshot C profiles uid w) [
      | none ↦ (w, probe_error (concat ("profile " ∷ uid ∷ " file unavailable for snapshot" ∷ [])))
      | some (bytes, updated) ↦ after_update profiles bytes updated (update_remotes (uid ∷ []) w)
    ]
  ]

module _ {M : Type 0} (C : Core M) (contains_node : M → String → Bool) where
  open C use {
    World, core_kind, is_running, snapshot, current_uid, current_exit_node, probe_enabled,
    delay_test, now,
  }

  -- the `match` on the verdict
  unfoldable pub on_verdict :
      AutoUpdateScheduler
      → String
      → String
      → Bool
      → World
      → ProbeVerdict
      → AutoUpdateScheduler × (World × ProbeOutcome)
  unfolding force_refresh
  on_verdict s uid node enable_tun w alive = (record s { probe_failures = 0 }, (w, no_probe))
  on_verdict s uid node enable_tun w api_issue = (record s { probe_failures = 0 }, (w, no_probe))
  on_verdict s uid node enable_tun w dead =
      let (s', due) = record_probe_failure s (now w) in
      let forced = force_refresh C contains_node uid node enable_tun w in
      (s', if due then forced else (w, no_probe))

  -- what the probe does for a running core
  unfoldable pub probe_running :
      AutoUpdateScheduler → Bool → World → AutoUpdateScheduler × (World × ProbeOutcome)
  unfolding on_verdict
  probe_running s enable_tun w = elim (snapshot w) [
    | snapshot_error e ↦ (s, (w, probe_error e))
    | items profiles ↦ elim (current_uid w) [
      | none ↦ (s, (w, no_probe))
      | some uid ↦ elim (current_exit_node profiles uid w) [
        | none ↦ (s, (w, no_probe))
        | some node ↦ on_verdict s uid node enable_tun w (classify_delay (delay_test node w))
      ]
    ]
  ]

  -- `probe_with_lifecycle`
  unfoldable pub probe :
      AutoUpdateScheduler → Bool → Bool → World → AutoUpdateScheduler × (World × ProbeOutcome)
  unfolding probe_running unavailable_probe
  probe s enable_tun core_running w =
      if not (unwrap_or true (probe_enabled w))
      then (s, (w, no_probe))
      else if not core_running || not (is_running w)
      then (s, (w, unavailable_probe (core_kind w)))
      else probe_running s enable_tun w

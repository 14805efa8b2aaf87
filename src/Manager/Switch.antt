-- ===== src/Manager/Switch.antt =====
-- The guided switch of the core in src-tui/src/mihomo_manager/manager.rs: `orchestrate_guided_switch`,
-- and `apply_prepared_core` from the point on at which the new config is prepared. The processes, the
-- controllers, the sockets and the GUI are behind the interface `Outside`.
pub mod Apply
pub mod Steps
pub mod Disk
pub mod Flags
pub mod Launched
pub mod Undone
pub mod Committed
pub mod Stopped
use clash_verge_cli.Prelude.{
  String, Bool, true, false, not, ◌&&◌, ◌||◌, Option, none, some, ℕ, ◌-◌, eqb, if◌then◌else◌, ◌>>=◌,
}
use clash_verge_cli.Subscribe.Scheduler.{CoreKind, mihomo, sing_box}
use clash_verge_cli.Subscribe.Refresh.{Reply, done, error}
use clash_verge_cli.Manager.Watcher.{CoreState, stopped, starting, running, core_error}

-- The files of the transaction: the config of a core, verge.yaml, the marker of ownership, and the
-- temporary file of the prepared config.
pub data FilePath : Type 0 where
  config : CoreKind → FilePath
  verge marker candidate : FilePath

abbrev pub is_kind : CoreKind → CoreKind → Bool
is_kind mihomo mihomo = true
is_kind mihomo sing_box = false
is_kind sing_box mihomo = false
is_kind sing_box sing_box = true

abbrev pub is_path : FilePath → FilePath → Bool
is_path (config k) (config l) = is_kind k l
is_path verge verge = true
is_path marker marker = true
is_path candidate candidate = true
is_path (config k) verge = false
is_path (config k) marker = false
is_path (config k) candidate = false
is_path verge (config k) = false
is_path verge marker = false
is_path verge candidate = false
is_path marker (config k) = false
is_path marker verge = false
is_path marker candidate = false
is_path candidate (config k) = false
is_path candidate verge = false
is_path candidate marker = false

abbrev pub Files : Type 0
Files = FilePath → Option String

abbrev pub put : FilePath → Option String → Files → Files
put path bytes files other = if is_path path other then bytes else files other

-- The fields of `ManagerInner` that the transaction uses, its two flags, the files, and the rest.
pub record Switching (O : Type 0) : Type 0 where
  pub kind : CoreKind
  pub binary : Option String
  pub state : CoreState
  pub pid : Option ℕ
  pub owns_child : Bool
  pub generation : ℕ
  pub restarting : Bool
  pub stopped_old : Bool
  pub target_started : Bool
  pub files : Files
  pub outer : O

-- What `controller_socket::inspect_with` finds.
pub data Inspected : Type 0 where
  inspected : Bool → Inspected
  not_inspected : String → Inspected

-- What binding the address of the controller shows: that it is free, or an error, by whether the address
-- is in use.
pub data Binding : Type 0 where
  free : Binding
  not_bound : Bool → String → Binding

-- Whether a process owns the listener on that address, or an error, by whether permission was denied.
pub data Listener : Type 0 where
  owned : Bool → Listener
  not_known : Bool → String → Listener

pub record Outside (O : Type 0) : Type 0 where
  pub is_cancelled : Switching O → Bool
  pub gui_running : Switching O → Bool
  pub gui_isolation : Option CoreKind → Switching O → Reply
  pub record_pid : Switching O → Option ℕ
  pub record_live : Switching O → Bool
  pub inspect_socket : Switching O → Inspected
  pub bind_controller : Switching O → Binding
  pub owns_listener : ℕ → Switching O → Listener
  pub controller_released : CoreKind → Switching O → Reply
  pub mixed_port_available : Switching O → Reply
  pub stop_core : Switching O → Switching O × Reply
  pub spawn_core_as : CoreKind → String → Option FilePath → Switching O → Switching O × Reply
  pub select_proxy : CoreKind → String → String → Switching O → Switching O × Reply
  pub io_error : FilePath → Switching O → Option String
  pub with_proxy_core : CoreKind → Option String → String
  pub marker_text : String

-- `?` on a step, on a check
abbrev pub and_then : {W : Type 0} → W × Reply → (W → W × Reply) → W × Reply
and_then (w, done) f = f w
and_then (w, error e) f = (w, error e)

abbrev pub both : Reply → Reply → Reply
both done r = r
both (error e) r = error e

abbrev pub refuse_if : Bool → String → Reply
refuse_if true e = error e
refuse_if false e = done

pub data SwitchResult : Type 0 where
  switched : SwitchResult
  refused : String → SwitchResult
  restored : String → SwitchResult
  rollback_failed : String → String → SwitchResult

abbrev pub after_rollback : {W : Type 0} → String → W × Reply → W × SwitchResult
after_rollback e (w, done) = (w, restored e)
after_rollback e (w, error r) = (w, rollback_failed e r)

-- The steps of the transaction.
pub record SwitchSteps (W : Type 0) : Type 0 where
  pub recheck : W → W × Reply
  pub was_running : Bool
  pub stop : W → W × Reply
  pub launch : W → W × Reply
  pub commit : W → W × Reply
  pub rollback : W → W × Reply

module _ {W : Type 0} (S : SwitchSteps W) where
  -- `outcome`
  unfoldable pub switch_outcome : W → W × Reply
  switch_outcome w =
      and_then (if S.was_running then S.stop w else (w, done)) (λ v. and_then (S.launch v) S.commit)

  abbrev pub after_outcome : W × Reply → W × SwitchResult
  after_outcome (w, done) = (w, switched)
  after_outcome (w, error e) = after_rollback e (S.rollback w)

  abbrev pub after_recheck : W × Reply → W × SwitchResult
  after_recheck (w, done) = after_outcome (switch_outcome w)
  after_recheck (w, error e) = (w, refused e)

  unfoldable pub orchestrate_guided_switch : W → W × SwitchResult
  orchestrate_guided_switch w = after_recheck (S.recheck w)

abbrev pub is_some_pid : Option ℕ → Bool
is_some_pid none = false
is_some_pid (some p) = true

abbrev pub same_pid : Option ℕ → Option ℕ → Bool
same_pid none none = true
same_pid none (some q) = false
same_pid (some p) none = false
same_pid (some p) (some q) = eqb p q

unfoldable pub check_guided_record : Option ℕ → Bool → Option ℕ → Bool → Bool → Reply
check_guided_record record_pid record_live tracked_pid owns_child socket_bound =
    if is_some_pid tracked_pid
      && (not owns_child || not (same_pid record_pid tracked_pid) || not record_live)
    then error "Owned core record changed or disappeared"
    else if not (is_some_pid tracked_pid) && record_live
    then error "A core belongs to another CLI supervisor"
    else if not (is_some_pid tracked_pid) && socket_bound
    then error "An external controller socket has no CLI ownership record"
    else done

abbrev pub is_running_state : CoreState → Bool
is_running_state running = true
is_running_state stopped = false
is_running_state starting = false
is_running_state (core_error e) = false

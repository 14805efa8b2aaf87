-- ===== src/Manager/Watcher.antt =====
-- What the watcher of src-tui/src/mihomo_manager/watcher.rs does when its process has ended. It runs
-- here without another task in between. `exit_code` is the code as it is written in messages, and the
-- time of the record is read after the time of the check.
pub mod Cause
use Prim.Native.String
use clash_verge_cli.Prelude.{
  String, Bool, false, not, ◌||◌, Option, none, some, List, [], ◌∷◌, ◌++◌, ℕ, ◌+◌, ◌-◌, eqb,
  if◌then◌else◌, ◌>>=◌,
}
use clash_verge_cli.Manager.Restarts.{should_auto_restart, record_restart}

pub data ExitDisposition : Type 0 where
  stale_watched_over intentional_stop crash : ExitDisposition

unfoldable pub classify_exit : ℕ → ℕ → ℕ → ExitDisposition
classify_exit spawned_gen current_gen expected_exit_gen =
    if not (eqb spawned_gen current_gen)
    then stale_watched_over
    else if eqb expected_exit_gen spawned_gen
    then intentional_stop
    else crash

pub data CoreState : Type 0 where
  stopped starting running : CoreState
  core_error : String → CoreState

-- The fields of `ManagerInner` that the watcher reads, with the two files beside the socket: the process
-- whose stop was announced, and the process on record.
pub record ManagerInner : Type 0 where
  pub pid : Option ℕ
  pub owns_child : Bool
  pub expected_exit : Bool
  pub state : CoreState
  pub generation : ℕ
  pub expected_exit_gen : ℕ
  pub restarting : Bool
  pub restart_history : List ℕ
  pub stop_intent : Option ℕ
  pub record_pid : Option ℕ

-- What the watcher does to its surroundings, in order.
pub data Effect : Type 0 where
  core_exited : String → Effect
  report_error : String → Effect
  release_proxy : Effect
  auto_restart : Effect

abbrev pub is_pid : Option ℕ → Option ℕ → Bool
is_pid (some a) (some b) = eqb a b
is_pid _ _ = false

abbrev cleared : Option ℕ → Option ℕ → Option ℕ
cleared file pid = if is_pid file pid then none else file

-- the bookkeeping before the exit is judged: whether it was expected
unfoldable pub take_exit : ManagerInner → ManagerInner × Bool
take_exit m =
    let expected = m.expected_exit || is_pid m.stop_intent m.pid in
    (
      record m {
        pid = none;
        owns_child = false;
        expected_exit = false;
        stop_intent = cleared m.stop_intent m.pid;
        record_pid = cleared m.record_pid m.pid;
        state = if expected then stopped else m.state;
      },
      expected,
    )

abbrev concat : List String → String
concat [] = ""
concat (s ∷ ss) = String.◌++◌ s (concat ss)

-- the end of a watcher whose core is not started again
abbrev give_up : String → ManagerInner → ManagerInner × List Effect
give_up message m =
    (record m { state = core_error message }, release_proxy ∷ report_error message ∷ [])

-- What `try_auto_restart` leaves, and its error.
abbrev pub TryRestart : Type 0
TryRestart = ManagerInner → ManagerInner × Option String

abbrev after_restart : String → ManagerInner × Option String → ManagerInner × List Effect
after_restart exit_code (m, none) = (m, auto_restart ∷ [])
after_restart exit_code (m, some error) =
    let (m', effects) =
      give_up (concat ("exited " ∷ exit_code ∷ " (auto-restart failed: " ∷ error ∷ ")" ∷ [])) m in
    (m', auto_restart ∷ effects)

-- the branch of a crash outside a transaction
unfoldable pub recover : TryRestart → String → ℕ → ℕ → ManagerInner → ManagerInner × List Effect
recover try_restart exit_code now at m =
    let (kept, ok) = should_auto_restart now m.restart_history in
    if ok
    then after_restart exit_code
        (try_restart (record m { restart_history = record_restart at kept }))
    else give_up (concat ("exited " ∷ exit_code ∷ [])) (record m { restart_history = kept })

unfoldable pub on_disposition :
    TryRestart → String → ℕ → ℕ → ManagerInner → ExitDisposition → ManagerInner × List Effect
unfolding recover
on_disposition try_restart exit_code now at m stale_watched_over = (m, [])
on_disposition try_restart exit_code now at m intentional_stop = (record m { state = stopped }, [])
on_disposition try_restart exit_code now at m crash =
    let recovered = recover try_restart exit_code now at m in
    if m.restarting
    then (
      record m {
        state =
            core_error (concat ("target exited " ∷ exit_code ∷ " during core transaction" ∷ []));
      },
      [],
    )
    else recovered

abbrev pub announced : String → ManagerInner × List Effect → ManagerInner × List Effect
announced exit_code (m, effects) = (m, core_exited exit_code ∷ effects)

-- `spawn_watcher`, from the end of the process on
unfoldable pub watch : TryRestart → String → ℕ → ℕ → ℕ → ManagerInner → ManagerInner × List Effect
unfolding take_exit on_disposition classify_exit
watch try_restart exit_code now at spawned_gen m =
    if not (eqb spawned_gen m.generation)
    then (m, [])
    else let (m', expected) = take_exit m in
      announced exit_code (
        if expected
        then (m', [])
        else on_disposition try_restart exit_code now at m'
            (classify_exit spawned_gen m'.generation m'.expected_exit_gen))

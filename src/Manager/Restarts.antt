-- ===== src/Manager/Restarts.antt =====
-- The limit on automatic restarts in src-tui/src/mihomo_manager/manager.rs. Times count nanoseconds.
pub mod Limit
use clash_verge_cli.Prelude.{
  Bool, List, [], ◌∷◌, ◌++◌, ℕ, ◌+◌, ◌*◌, ltb, if◌then◌else◌, length, ◌>>=◌,
}

abbrev pub restart_window : ℕ
restart_window = 60 * 1000000000

abbrev pub max_restarts_in_window : ℕ
max_restarts_in_window = 3

-- the loop of `should_auto_restart` over the front of the queue; `*front < now - 60 s`
unfoldable pub prune : ℕ → List ℕ → List ℕ
prune now [] = []
prune now (front ∷ history) =
    let rest = prune now history in
    if ltb (front + restart_window) now then rest else front ∷ history

-- `should_auto_restart`: the history that it leaves, and its answer
unfoldable pub should_auto_restart : ℕ → List ℕ → List ℕ × Bool
unfolding prune
should_auto_restart now history =
    let kept = prune now history in (kept, ltb (length kept) max_restarts_in_window)

-- `record_restart`
abbrev pub record_restart : ℕ → List ℕ → List ℕ
record_restart at history = history ++ at ∷ []

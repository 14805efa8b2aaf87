-- ===== src/Manager/Restarts/Limit.antt =====
-- How many automatic restarts the check of manager.rs grants in a minute.
use clash_verge_cli.Prelude.{
  ◌≡◌, ◌⊎◌, false, List, [], ◌∷◌, ◌++◌, ℕ, ◌+◌, ◌≤◌, ◌<◌, leb, if◌then◌else◌,
}
use clash_verge_cli.Manager.Restarts.{restart_window, should_auto_restart, record_restart}

-- A crash: the time of the check, and the time that is recorded if it grants a restart.
pub record Crash : Type 0 where
  pub now : ℕ
  pub at : ℕ

-- How many of the times are no more than the window before the given one.
abbrev pub recent : ℕ → List ℕ → ℕ
recent now [] = 0
recent now (t ∷ ts) = (if leb now (t + restart_window) then 1 else 0) + recent now ts

-- The history, and all restarts that were granted, after a crash.
pub on_crash : Crash → List ℕ × List ℕ → List ℕ × List ℕ
on_crash c (history, granted) =
    let (kept, ok) = should_auto_restart c.now history in
    if ok then (record_restart c.at kept, granted ++ c.at ∷ []) else (kept, granted)

-- The clock of the checks does not run back.
abbrev pub IsOrdered : ℕ → List Crash → Type 0
IsOrdered start [] = Unit
IsOrdered start (c ∷ cs) = (start ≤ c.now) × IsOrdered c.now cs

-- Each crash gets no restart, or fewer than three were granted in the minute before.
abbrev pub IsLimited : List ℕ × List ℕ → List Crash → Type 0
unfolding on_crash
IsLimited s [] = Unit
IsLimited s (c ∷ cs) =
    (((should_auto_restart c.now s.0).1 ≡ false) ⊎ (recent c.now s.1 < 3))
    × IsLimited (on_crash c s) cs

-- From some time on, the history has as many recent restarts as were granted.
abbrev Agrees : ℕ → List ℕ × List ℕ → Type 0
Agrees start (history, granted) =
    (later : ℕ) → start ≤ later → recent later history ≡ recent later granted

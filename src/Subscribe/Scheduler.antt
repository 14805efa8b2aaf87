-- ===== src/Subscribe/Scheduler.antt =====
-- The scheduler of src-tui/src/subscribe/scheduler.rs. What it reads from the disk and the network
-- is an argument: the clock, the snapshot of the profiles and the batch of refreshes. A `HashMap` is
-- its lookup function.
pub mod Cooldown
pub mod Forced
pub mod Trace
use clash_verge_cli.Prelude.{
  String, ◌≡◌, refl, sym, ap, ◌∙◌, subst, ◌≡⟨◌⟩◌, ◌∎, ◌≢◌, ◌↔◌, ◌⊎◌, inl, inr, Bool, true, false,
  not, ◌&&◌, ◌||◌, Option, none, some, List, [], ◌∷◌, ◌++◌, map, append-nil, append_assoc, arith,
  ◌==◌, eq_iff, eq_refl, ℕ, zero, suc, ◌+◌, ◌-◌, ◌*◌, ◌/◌, ◌%◌, ◌^◌, ◌≤◌, ◌<◌, min, max, compare,
  Ordering, ltb, leb, eqb, if◌then◌else◌, ltb→lt, lt→ltb, leb→le, le→leb, tests, is_text,
  is_text_iff, Bool-cases, Option-cases, false-ne-true, eq_false_of_ne, length, length-append, all,
  any, is_empty, find, keep, contains, Text, codes, text_eq, text_eq_sound, text_eq_refl, strip,
  starts_with, ends_with, count, push_front, split, split_once, join, is_digit, is_alphanumeric,
  value_from, Lacks, split-append, split_whole, split_once-append, split_once_whole, split-join,
  count-append, count-Lacks, ends_with-Lacks, ends_with-append, All-join, ◌>>=◌, ◌>>◌, bail_if,
  unwrap_or, is_some, or_else, bind-eq-some, bail_if-eq-some, eq_of_some, WhenSome, WhenSome-intro,
  All, All-append, All-imp, Member, here, there, not-Member-nil, Member-cons, All-Member,
  filter_map, Member-filter_map, filter_map-Member,
}
use clash_verge_cli.Profiles.Item.{PrfSelected, PrfExtra, PrfOption, PrfItem}
use clash_verge_cli.Subscribe.Timer.{u64_max, saturating_add, saturating_mul, due_remote_uids}

pub data CoreKind : Type 0 where
  mihomo sing_box : CoreKind

pub data RefreshPath : Type 0 where
  hot_reload singbox_restart : RefreshPath

abbrev pub decide_refresh_path : CoreKind → RefreshPath
decide_refresh_path mihomo = hot_reload
decide_refresh_path sing_box = singbox_restart

abbrev pub min_cooldown : ℕ
min_cooldown = 30 * 60

abbrev pub probe_failure_threshold : ℕ
probe_failure_threshold = 3

abbrev pub force_refresh_debounce_secs : ℕ
force_refresh_debounce_secs = 5 * 60

pub record SchedulerOutcome : Type 0 where
  pub updated : List (String × Bool)
  pub failed : List (String × String)
  pub errored : Option String

abbrev pub no_outcome : SchedulerOutcome
no_outcome = record { updated = []; failed = []; errored = none }

pub record AutoUpdateScheduler : Type 0 where
  pub last_attempt : String → Option ℕ
  pub min_cooldown_secs : ℕ
  pub probe_failures : ℕ
  pub last_force_refresh : ℕ

unfoldable pub new : AutoUpdateScheduler
new = record {
  last_attempt = λ uid. none;
  min_cooldown_secs = min_cooldown;
  probe_failures = 0;
  last_force_refresh = 0;
}

-- `HashMap::insert` and `HashMap::remove`
abbrev pub insert : String → ℕ → (String → Option ℕ) → String → Option ℕ
insert k v m j = if j == k then some v else m j

abbrev pub remove : String → (String → Option ℕ) → String → Option ℕ
remove k m j = if j == k then none else m j

-- `last_attempt.get(uid).is_none_or(...)`; `saturating_sub` is the subtraction of ℕ
abbrev pub is_cooled : AutoUpdateScheduler → ℕ → String → Bool
is_cooled s now uid = elim (s.last_attempt uid) [
  | none ↦ true
  | some last ↦ leb s.min_cooldown_secs (now - last)
]

abbrev pub note_attempt : AutoUpdateScheduler → ℕ → String → AutoUpdateScheduler
note_attempt s now uid = record s { last_attempt = insert uid now s.last_attempt }

-- the closure of `filter` in `compute_due`, over the due uids
pub filter_cooled : AutoUpdateScheduler → ℕ → List String → AutoUpdateScheduler × List String
filter_cooled s now [] = (s, [])
filter_cooled s now (uid ∷ uids) =
    let cooled = is_cooled s now uid in
    let (s', due) = filter_cooled (if cooled then note_attempt s now uid else s) now uids in
    (s', if cooled then uid ∷ due else due)

unfoldable pub record_success : AutoUpdateScheduler → String → AutoUpdateScheduler
record_success s uid = record s { last_attempt = remove uid s.last_attempt }

-- the loop of `tick` over `outcome.updated`
pub record_successes : AutoUpdateScheduler → List (String × Bool) → AutoUpdateScheduler
unfolding record_success
record_successes s [] = s
record_successes s ((uid, is_current) ∷ updated) = record_successes (record_success s uid) updated

-- What `ProfileStore::update_remotes_locked` returns.
pub data BatchResult : Type 0 where
  refreshed : List (String × Bool) → List (String × String) → BatchResult
  batch_error : String → BatchResult

unfoldable pub run_batch : (List String → BatchResult) → List String → SchedulerOutcome
run_batch update_remotes [] = no_outcome
run_batch update_remotes (uid ∷ uids) = elim (update_remotes (uid ∷ uids)) [
  | refreshed updated failed ↦ record { updated = updated; failed = failed; errored = none }
  | batch_error error ↦ record no_outcome { errored = some error }
]

-- What `ProfileStore::snapshot` returns: the items, or an error.
pub data Snapshot (M : Type 0) : Type 0 where
  items : List (PrfItem M) → Snapshot M
  snapshot_error : String → Snapshot M

module _ {M : Type 0} where
  unfoldable pub compute_due :
      AutoUpdateScheduler → List (PrfItem M) → ℕ → AutoUpdateScheduler × List String
  unfolding filter_cooled
  compute_due s profiles now = filter_cooled s now (due_remote_uids now profiles)

  -- `tick`, with the clock, the snapshot and the refreshes as arguments
  unfoldable pub tick :
      AutoUpdateScheduler
      → ℕ
      → Snapshot M
      → (List String → BatchResult)
      → AutoUpdateScheduler × SchedulerOutcome
  unfolding record_successes
  tick s now (snapshot_error error) update_remotes = (s, record no_outcome { errored = some error })
  tick s now (items profiles) update_remotes =
      let (s', due) = compute_due s profiles now in
      let outcome = run_batch update_remotes due in (record_successes s' outcome.updated, outcome)

-- `record_probe_failure`; the counter is a `u32`, which wraps in a release build
unfoldable pub record_probe_failure : AutoUpdateScheduler → ℕ → AutoUpdateScheduler × Bool
record_probe_failure s now =
    let failures = (s.probe_failures + 1) % 2 ^ 32 in
    let due =
      leb probe_failure_threshold failures
      && leb force_refresh_debounce_secs (now - s.last_force_refresh) in
    if due
    then (record s { probe_failures = 0; last_force_refresh = now }, true)
    else (record s { probe_failures = failures }, false)

-- ===== src/Subscribe/Exit.antt =====
-- The exit node that the running core has selected, `exit_selection_path` of
-- src-tui/src/subscribe/lifecycle.rs, and the guards of a reload. A `HashMap` is an association
-- list.
pub mod Route
pub mod Total
pub mod Exact
pub mod Found
use clash_verge_cli.Prelude.{
  String, ◌≡◌, refl, sym, ap, ap₂, ◌∙◌, subst, ◌≡⟨◌⟩◌, ◌∎, ◌≢◌, ◌↔◌, ◌⊎◌, inl, inr, Bool, true,
  false, not, ◌&&◌, ◌||◌, Option, none, some, List, [], ◌∷◌, ◌++◌, map, append-nil, append_assoc,
  arith, ◌==◌, eq_iff, eq_refl, ℕ, zero, suc, ◌+◌, ◌-◌, ◌*◌, ◌/◌, ◌%◌, ◌^◌, ◌≤◌, ◌<◌, min, max,
  compare, Ordering, ltb, leb, eqb, if◌then◌else◌, ltb→lt, lt→ltb, leb→le, le→leb, tests, is_text,
  is_text_iff, Bool-cases, Option-cases, false-ne-true, eq_false_of_ne, length, length-append, all,
  any, is_empty, find, keep, contains, lookup, Text, codes, text_eq, text_eq_sound, text_eq_refl,
  strip, starts_with, ends_with, count, push_front, split, split_once, join, is_digit,
  is_alphanumeric, value_from, Lacks, split-append, split_whole, split_once-append,
  split_once_whole, split-join, count-append, count-Lacks, ends_with-Lacks, ends_with-append,
  All-join, ◌>>=◌, ◌>>◌, bail_if, unwrap_or, is_some, or_else, bind-eq-some, bail_if-eq-some,
  eq_of_some, WhenSome, WhenSome-intro, All, All-append, All-imp, Member, here, there,
  not-Member-nil, Member-cons, All-Member, filter_map, Member-filter_map, filter_map-Member,
  contains-All,
}
use clash_verge_cli.Subscribe.Scheduler.{
  CoreKind, mihomo, sing_box, RefreshPath, hot_reload, singbox_restart, decide_refresh_path,
  min_cooldown, probe_failure_threshold, force_refresh_debounce_secs, SchedulerOutcome, no_outcome,
  AutoUpdateScheduler, new, insert, remove, is_cooled, note_attempt, filter_cooled, record_success,
  record_successes, BatchResult, refreshed, batch_error, run_batch, Snapshot, items, snapshot_error,
  compute_due, tick, record_probe_failure,
}

-- The fields of `ProxyGroup` that are read here.
pub record ProxyGroup : Type 0 where
  pub group_type : String
  pub now : Option String
  pub all_nodes : Option (List String)

abbrev pub Groups : Type 0
Groups = List (String × ProxyGroup)

abbrev pub SelectionPath : Type 0
SelectionPath = List (String × String)

abbrev pub is_policy_node : String → Bool
is_policy_node node =
    node == "DIRECT"
    || node == "REJECT"
    || node == "REJECT-DROP"
    || node == "PASS"
    || node == "COMPATIBLE"

-- How the loop ends: with the value that the function returns, or at the end of the fuel.
pub data Walk : Type 0 where
  returned : Option (String × SelectionPath) → Walk
  out_of_fuel : Walk

-- The loop, on at most so many rounds; `visited` is the `HashSet`.
pub walk : ℕ → Groups → List String → String → SelectionPath → Walk
walk zero groups visited node path = out_of_fuel
walk (suc fuel) groups visited node path =
    if is_policy_node node || contains visited node
    then returned none
    else elim (lookup node groups) [
      | none ↦ returned (some (node, path))
      | some group ↦ elim (group.group_type == "Selector") [
        | false ↦ returned (some (node, path))
        | true ↦ elim group.now [
          | none ↦ returned none
          | some selected ↦
              walk fuel groups (node ∷ visited) selected (path ++ (node, selected) ∷ [])
        ]
      ]
    ]

abbrev pub first_hop : ProxyGroup → String → SelectionPath
first_hop global node = if global.group_type == "Selector" then ("GLOBAL", node) ∷ [] else []

-- `exit_selection_path`, before the fuel is shown to suffice
pub search_exit : Groups → Walk
unfolding walk
search_exit groups = elim (lookup "GLOBAL" groups) [
  | none ↦ returned none
  | some global ↦ elim global.now [
    | none ↦ returned none
    | some node ↦ walk (length groups + 1) groups [] node (first_hop global node)
  ]
]

unfoldable pub exit_selection_path : Groups → Option (String × SelectionPath)
unfolding search_exit
exit_selection_path groups = elim (search_exit groups) [ returned r ↦ r | out_of_fuel ↦ none ]

abbrev is_sing_box : CoreKind → Bool
is_sing_box mihomo = false
is_sing_box sing_box = true

-- `validate_apply_target`: whether it returns `Ok`
unfoldable pub validate_apply_target : CoreKind → Bool → Bool → Bool
validate_apply_target kind running owns_core =
    if not running then true else if is_sing_box kind && not owns_core then false else true

unfoldable pub should_rollback_selected_exit : String → List String → Bool
should_rollback_selected_exit selected_node refreshed_nodes =
    not (contains refreshed_nodes selected_node)

-- ===== src/Subscribe/Refresh.antt =====
-- The refresh that a dead exit node forces, with its rollback: `probe_with_lifecycle`,
-- `force_refresh_with_lifecycle` and their helpers in src-tui/src/subscribe/scheduler.rs, and the
-- reloads of lifecycle.rs. The core, the controller, the profile store and the disk are behind the
-- interface `Core`; what they change is its `World`.
pub mod Reload
pub mod Forced
use Prim.Native.String
use clash_verge_cli.Prelude.{
  String, ◌≡◌, refl, sym, ap, ap₂, ◌∙◌, subst, ◌≡⟨◌⟩◌, ◌∎, ◌≢◌, ◌↔◌, ◌⊎◌, inl, inr, ite, if_pos,
  if_neg, Bool, true, false, not, ◌&&◌, ◌||◌, Option, none, some, List, [], ◌∷◌, ◌++◌, map,
  append-nil, append_assoc, arith, ◌==◌, eq_iff, eq_refl, ℕ, zero, suc, ◌+◌, ◌-◌, ◌*◌, ◌/◌, ◌%◌,
  ◌^◌, ◌≤◌, ◌<◌, min, max, compare, Ordering, ltb, leb, eqb, if◌then◌else◌, ltb→lt, lt→ltb, leb→le,
  le→leb, tests, is_text, is_text_iff, Bool-cases, Option-cases, false-ne-true, eq_false_of_ne,
  not-false, length, length-append, all, any, is_empty, find, keep, contains, lookup, Text, codes,
  text_eq, text_eq_sound, text_eq_refl, strip, starts_with, ends_with, count, push_front, split,
  split_once, join, is_digit, is_alphanumeric, value_from, Lacks, split-append, split_whole,
  split_once-append, split_once_whole, split-join, count-append, count-Lacks, ends_with-Lacks,
  ends_with-append, All-join, is_whitespace, trim_start, trim_end, trim, lowercase,
  eq_ignore_ascii_case, trim-twice, trim-Lacks, IsVisible, trim-visible, uppercase, insert_by,
  sort_by, Sorted, sort_by-Member, Member-sort_by, length-sort_by, sort_by-Sorted, IsFiltered,
  end_of_list, taken, left_out, keep-IsFiltered, print_u16, parse_unsigned, parse_u16, IsDigits,
  print_u16-IsDigits, print_u16-nonempty, parse_u16-print_u16, parse_u16-bound, IsDigits-IsVisible,
  ◌>>=◌, ◌>>◌, bail_if, unwrap_or, is_some, or_else, bind-eq-some, bail_if-eq-some, eq_of_some,
  WhenSome, WhenSome-intro, All, All-append, All-imp, Member, here, there, not-Member-nil,
  Member-cons, All-Member, All-of_Member, Member-append_first, Member-append_second,
  Member-append_cases, Member-append_last, filter_map, Member-filter_map, filter_map-Member,
  contains-All, Member-find, keep-Member, Member-keep, contains-Member, Member-contains,
}
use clash_verge_cli.Profiles.Item.{PrfSelected, PrfExtra, PrfOption, PrfItem, merge_option}
use clash_verge_cli.Yaml.{
  Kind, null, bool, number, string, sequence, mapping, tagged, DistinctKeys, Yaml,
}
use clash_verge_cli.Yaml.Access.{
  sequence_of, mapping_of, string_of, as_sequence, as_mapping, as_str, match_sequence,
  match_mapping, match_string, get_key, field,
}
use clash_verge_cli.Subscribe.Delay.{
  MihomoError, core_down, unauthorized, not_found, http_status, parse, http, operation_timeout,
  unsupported_core_operation, io, invalid_uri, ProxyDelay, DelayResult, measured, failed,
  ProbeVerdict, alive, dead, api_issue, classify_delay, NodeFailed, classify_delay-dead_iff,
}
use clash_verge_cli.Subscribe.Scheduler.{
  CoreKind, mihomo, sing_box, RefreshPath, hot_reload, singbox_restart, decide_refresh_path,
  min_cooldown, probe_failure_threshold, force_refresh_debounce_secs, SchedulerOutcome, no_outcome,
  AutoUpdateScheduler, new, insert, remove, is_cooled, note_attempt, filter_cooled, record_success,
  record_successes, BatchResult, refreshed, batch_error, run_batch, Snapshot, items, snapshot_error,
  compute_due, tick, record_probe_failure,
}
use clash_verge_cli.Subscribe.Exit.{
  ProxyGroup, Groups, SelectionPath, is_policy_node, Walk, returned, out_of_fuel, walk, first_hop,
  search_exit, exit_selection_path, validate_apply_target, should_rollback_selected_exit,
}

-- `Result<(), String>`
pub data Reply : Type 0 where
  done : Reply
  error : String → Reply

-- The trait `CoreLifecycle`, with `ProfileStore` and the files of profiles.
pub record Core (M : Type 0) : Type 1 where
  pub World : Type 0
  pub Bytes : Type 0
  pub core_kind : World → CoreKind
  pub is_running : World → Bool
  pub owns_core : World → Bool
  pub probe_enabled : World → Option Bool
  pub snapshot : World → Snapshot M
  pub current_uid : World → Option String
  pub current_exit_node : List (PrfItem M) → String → World → Option String
  pub delay_test : String → World → DelayResult
  pub reload_profile : String → Bool → World → World × Reply
  pub reapply_selected : String → World → World × Reply
  pub update_remotes : List String → World → World × BatchResult
  pub read_file : String → World → Option Bytes
  pub write_file : String → Bytes → World → World
  pub restore_updated : String → ℕ → World → World
  pub parse_mapping : Bytes → Option M
  pub now : World → ℕ

pub record ProbeOutcome : Type 0 where
  pub forced_refresh : Bool
  pub rolled_back : Bool
  pub may_be_down : Bool
  pub error : Option String

abbrev pub no_probe : ProbeOutcome
no_probe = record { forced_refresh = false; rolled_back = false; may_be_down = false; error = none }

abbrev pub probe_error : String → ProbeOutcome
probe_error e = record no_probe { error = some e }

abbrev is_alive : ProbeVerdict → Bool
is_alive alive = true
is_alive dead = false
is_alive api_issue = false

module _ (Y : Yaml) where
  open Y use {Value, Mapping, entries}

  abbrev pub is_named : String → String → Value → Bool
  is_named key node item = is_text (field Y key item >>= as_str Y) node

  abbrev pub lists_node : String → Value → Bool
  lists_node node group =
      elim (match_mapping Y group >>= get_key Y "proxies" >>= match_sequence Y) [
        | none ↦ false
        | some names ↦ any (λ name. is_text (as_str Y name) node) names
      ]

  abbrev pub is_proxy : String → Value → Bool
  is_proxy node proxy = is_text (match_mapping Y proxy >>= get_key Y "name" >>= as_str Y) node

  abbrev pub any_in : Option (List Value) → (Value → Bool) → Bool
  any_in none p = false
  any_in (some vs) p = any p vs

  abbrev pub has_providers : Mapping → Bool
  has_providers config = elim (get_key Y "proxy-providers" config >>= as_mapping Y) [
    | none ↦ false
    | some providers ↦ not (is_empty (entries providers))
  ]

  -- `config_contains_node`
  unfoldable pub config_contains_node : Mapping → String → Bool
  config_contains_node config node =
      any_in (get_key Y "outbounds" config >>= as_sequence Y) (is_named "tag" node)
      || (has_providers config
          || (any_in (get_key Y "proxies" config >>= match_sequence Y) (is_proxy node)
              || any_in (get_key Y "proxy-groups" config >>= match_sequence Y) (lists_node node)))

abbrev pub item_of : {M : Type 0} → String → List (PrfItem M) → Option (PrfItem M)
item_of uid profiles = find (λ item. is_text item.uid uid) profiles

abbrev pub file_of : {M : Type 0} → String → List (PrfItem M) → Option String
file_of uid profiles = item_of uid profiles >>= λ item. item.file

module _ {M : Type 0} (C : Core M) where
  open C use {
    World, Bytes, core_kind, is_running, owns_core, snapshot, delay_test, reload_profile,
    reapply_selected, update_remotes, read_file, write_file, restore_updated, parse_mapping,
  }

  unfoldable pub reload_with_lifecycle : String → Bool → World → World × Reply
  reload_with_lifecycle uid enable_tun w =
      if not (validate_apply_target (core_kind w) (is_running w) (owns_core w))
      then (w, error "selected sing-box core is externally managed; refusing an implicit restart")
      else if not (is_running w)
      then (w, done)
      else reload_profile uid enable_tun w

  -- the selection, once the reload has succeeded
  abbrev pub then_reapply : String → World × Reply → World × Reply
  then_reapply node (w, error e) = (w, error e)
  then_reapply node (w, done) = if is_running w then reapply_selected node w else (w, done)

  unfoldable pub reload_selected : String → String → Bool → World → World × Reply
  reload_selected uid node enable_tun w = then_reapply node (reload_with_lifecycle uid enable_tun w)

  unfoldable pub profile_snapshot : List (PrfItem M) → String → World → Option (Bytes × ℕ)
  profile_snapshot profiles uid w = elim (item_of uid profiles) [
    | none ↦ none
    | some item ↦ elim item.file [
      | none ↦ none
      | some file ↦ elim (read_file file w) [
        | none ↦ none
        | some bytes ↦ some (bytes, unwrap_or 0 item.updated)
      ]
    ]
  ]

  unfoldable pub restore_profile_snapshot : String → String → Bytes → ℕ → World → World
  restore_profile_snapshot uid file bytes updated w =
      restore_updated uid updated (write_file file bytes w)

  unfoldable pub snapshot_items : Snapshot M → Option (List (PrfItem M))
  snapshot_items (items profiles) = some profiles
  snapshot_items (snapshot_error e) = none

  module _ (contains_node : M → String → Bool) where
    -- `refreshed_config_has_node`
    unfoldable pub refreshed_config_has_node : String → String → World → Bool
    unfolding snapshot_items
    refreshed_config_has_node uid node w =
        elim (snapshot_items (snapshot w)
          >>= file_of uid
          >>= (λ file. read_file file w)
          >>= parse_mapping) [ none ↦ false | some config ↦ contains_node config node ]

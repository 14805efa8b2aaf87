-- ===== src/Subscribe/Timer.antt =====
-- Which remote profiles are due, src-tui/src/subscribe/timer.rs. The clock is the argument `now`, in
-- seconds.
pub mod Due
use clash_verge_cli.Prelude.{
  String, ◌≡◌, refl, sym, ap, ◌∙◌, subst, ◌≡⟨◌⟩◌, ◌∎, ◌≢◌, ◌↔◌, ◌⊎◌, inl, inr, Bool, true, false,
  not, ◌&&◌, ◌||◌, Option, none, some, List, [], ◌∷◌, ◌++◌, map, append-nil, append_assoc, arith,
  ◌==◌, eq_iff, eq_refl, ℕ, zero, suc, ◌+◌, ◌-◌, ◌*◌, ◌/◌, ◌%◌, ◌^◌, ◌≤◌, ◌<◌, min, max, compare,
  Ordering, ltb, leb, eqb, if◌then◌else◌, ltb→lt, lt→ltb, leb→le, le→leb, tests, is_text,
  is_text_iff, Bool-cases, Option-cases, false-ne-true, eq_false_of_ne, length, length-append, all,
  any, is_empty, find, keep, contains, Text, codes, text_eq, text_eq_sound, text_eq_refl, strip,
  starts_with, ends_with, count, push_front, split, split_once, join, is_digit, is_alphanumeric,
  value_from, Lacks, split-append, split_whole, split_once-append, split_once_whole, split-join,
  count-append, count-Lacks, ends_with-Lacks, ends_with-append, All-join, ◌>>=◌, ◌>>◌, bail_if,
  unwrap_or, is_some, or_else, bind-eq-some, bail_if-eq-some, eq_of_some, WhenSome, WhenSome-intro,
  All, All-append, All-imp, Member, here, there, not-Member-nil, Member-cons, All-Member,
  filter_map, Member-filter_map, filter_map-Member,
}
use clash_verge_cli.Profiles.Item.{PrfSelected, PrfExtra, PrfOption, PrfItem}

abbrev pub u64_max : ℕ
u64_max = 18446744073709551615

abbrev pub saturating_add : ℕ → ℕ → ℕ
saturating_add a b = min (a + b) u64_max

abbrev pub saturating_mul : ℕ → ℕ → ℕ
saturating_mul a b = min (a * b) u64_max

-- `option.update_interval.filter(|v| *v > 0)`
abbrev positive : Option ℕ → Option ℕ
positive none = none
positive (some v) = if ltb 0 v then some v else none

module _ {M : Type 0} where
  -- the closure of `filter_map`
  due_uid : ℕ → PrfItem M → Option String
  due_uid now item = do
    bail_if (not (is_text item.itype "remote"))
    option ← item.option
    bail_if (not (unwrap_or true option.allow_auto_update))
    interval_minutes ← positive option.update_interval
    let updated = unwrap_or 0 item.updated
    let due_at = saturating_add updated (saturating_mul interval_minutes 60)
    if leb due_at now then item.uid else none

  unfoldable pub due_remote_uids : ℕ → List (PrfItem M) → List String
  unfolding due_uid
  due_remote_uids now items = filter_map (due_uid now) items

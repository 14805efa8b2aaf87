-- ===== src/Yaml/Merge.antt =====
-- The recursive overlay of mappings, which the program has three times: `merge_unknown_fields` of
-- crates/clash-verge-core/src/config/prfitem.rs, `merge_gui_values` and `merge_mapping_values` of
-- src-tui/src/chain.rs. They differ in the mappings of the overlay that they descend into: `enter`.
pub mod Entries
pub mod Laws
pub mod Decided
use clash_verge_cli.Prelude.{
  Bool, true, not, Option, none, some, List, [], ◌∷◌, ℕ, zero, suc, ◌-◌, if◌then◌else◌, all,
  is_empty, ◌>>=◌,
}
use clash_verge_cli.Yaml.{Kind, mapping, Yaml}

-- Two mappings, the second of which is entered, or nothing.
abbrev pub two : {V M : Type 0} → (M → Bool) → Kind V M → Kind V M → Option (M × M)
two enter (mapping b) (mapping o) = if enter o then some (b, o) else none
two enter _ _ = none

module _ (Y : Yaml) (enter : Yaml.Mapping Y → Bool) where
  open Y use {Value, Mapping, same, kind, of_mapping, get, insert, entries, depth}

  -- `(base.get_mut(key), overlay_value)` where both are mappings
  abbrev pub both : Option Value → Value → Option (Mapping × Mapping)
  both none v = none
  both (some b) v = two enter (kind b) (kind v)

  -- one round of the loop; `rest` is the recursive call
  pub merge_entry : (Mapping → Mapping → Mapping) → Mapping → Value → Value → Mapping
  merge_entry rest base k v = elim (both (get k base) v) [
    | some (b, o) ↦ insert k (of_mapping (rest b o)) base
    | none ↦ insert k v base
  ]

  pub merge_entries : (Mapping → Mapping → Mapping) → Mapping → List (Value × Value) → Mapping
  unfolding merge_entry
  merge_entries rest base [] = base
  merge_entries rest base ((k, v) ∷ es) = merge_entries rest (merge_entry rest base k v) es

  -- at most so many mappings deep
  pub merge_fuel : ℕ → Mapping → Mapping → Mapping
  unfolding merge_entries
  merge_fuel zero base overlay = base
  merge_fuel (suc fuel) base overlay =
      merge_entries (λ b o. merge_fuel fuel b o) base (entries overlay)

  unfoldable pub merge_fields : Mapping → Mapping → Mapping
  unfolding merge_fuel
  merge_fields base overlay = merge_fuel (suc (depth overlay)) base overlay

  -- The value under a key after an overlay by `v`: two mappings are merged, all else is replaced.
  abbrev pub overlaid : (Mapping → Mapping → Mapping) → Option Value → Option Value → Option Value
  overlaid rest b none = b
  overlaid rest b (some v) = elim (both b v) [
    | some (m, o) ↦ some (of_mapping (rest m o))
    | none ↦ some v
  ]

module _ (Y : Yaml) where
  open Y use {Mapping, entries}

  abbrev pub any_mapping : Mapping → Bool
  any_mapping o = true

  -- `!overlay_nested.is_empty()`
  abbrev pub is_filled : Mapping → Bool
  is_filled o = not (is_empty (entries o))

  -- `merge_unknown_fields` and `merge_gui_values`
  unfoldable pub merge_unknown_fields : Mapping → Mapping → Mapping
  unfolding merge_fields
  merge_unknown_fields base overlay = merge_fields Y any_mapping base overlay

  unfoldable pub merge_mapping_values : Mapping → Mapping → Mapping
  unfolding merge_fields
  merge_mapping_values base overlay = merge_fields Y is_filled base overlay

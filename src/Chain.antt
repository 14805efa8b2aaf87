-- ===== src/Chain.antt =====
-- The rule fragments of a profile, src-tui/src/chain.rs. An error is `none`: its message is not told
-- apart.
pub mod Applied
pub mod Accepted
pub mod Dns
use clash_verge_cli.Prelude.{
  String, Bool, false, not, ◌||◌, Option, none, some, List, [], ◌∷◌, ◌++◌, map, ◌==◌, ◌+◌, ◌-◌,
  if◌then◌else◌, keep, contains, ◌>>=◌, ◌>>◌, bail_if, unwrap_or,
}
use clash_verge_cli.Yaml.{Kind, sequence, mapping, Yaml}
use clash_verge_cli.Yaml.Access.{as_str, match_sequence, match_string, get_key}

pub data RulesFragment : Type 0 where
  patch : List String → List String → List String → RulesFragment
  whole_list : List String → RulesFragment

-- Which of the three lists a key names.
abbrev pub is_mapping_key : String → Bool
is_mapping_key name = name == "prepend" || (name == "append" || name == "delete")

abbrev pub choose : String → String → List String → List String → List String
choose key name new old = if name == key then new else old

module _ (Y : Yaml) where
  open Y use {Value, Mapping, kind, of_string, of_sequence, insert, entries}

  unfoldable pub parse_sequence_of_strings : List Value → Option (List String)
  parse_sequence_of_strings [] = some []
  parse_sequence_of_strings (entry ∷ entries) = match_string Y entry >>= λ rule.
      parse_sequence_of_strings entries >>= λ out. some (rule ∷ out)

  unfoldable pub parse_string_array : Value → Option (List String)
  unfolding parse_sequence_of_strings
  parse_string_array value = match_sequence Y value >>= parse_sequence_of_strings

  -- the loop over the entries, on the three lists
  unfoldable pub parse_entries :
      List (Value × Value) → List String → List String → List String → Option RulesFragment
  unfolding parse_string_array
  parse_entries [] prepend append delete = some (patch prepend append delete)
  parse_entries ((key, val) ∷ es) prepend append delete = as_str Y key >>= λ name.
      bail_if (not (is_mapping_key name))
      >> (parse_string_array val >>= λ list.
          parse_entries es (choose "prepend" name list prepend) (choose "append" name list append)
            (choose "delete" name list delete))

  abbrev pub parse_kind : Kind Value Mapping → Option RulesFragment
  unfolding parse_entries parse_sequence_of_strings
  parse_kind (mapping m) = parse_entries (entries m) [] [] []
  parse_kind (sequence seq) = parse_sequence_of_strings seq >>= λ rules. some (whole_list rules)
  parse_kind _ = none

  -- `parse_rules_fragment`, on the value that the document spells
  unfoldable pub parse_rules_fragment : Value → Option RulesFragment
  unfolding parse_kind
  parse_rules_fragment value = parse_kind (kind value)

  abbrev pub upstream : Mapping → List Value
  upstream config = unwrap_or [] (get_key Y "rules" config >>= match_sequence Y)

  -- The entry is a text, and to be deleted.
  abbrev pub is_deleted : List String → Value → Bool
  is_deleted delete entry = elim (match_string Y entry) [
    | none ↦ false
    | some rule ↦ contains delete rule
  ]

  -- the new rules
  unfoldable pub new_rules : List Value → RulesFragment → List Value
  new_rules old (whole_list rules) = map of_string rules
  new_rules old (patch prepend append delete) =
      map of_string prepend
      ++ (keep (λ entry. not (is_deleted delete entry)) old ++ map of_string append)

  unfoldable pub apply_rules_fragment : Mapping → RulesFragment → Mapping
  unfolding new_rules
  apply_rules_fragment config fragment =
      insert (of_string "rules") (of_sequence (new_rules (upstream config) fragment)) config

-- ===== src/Yaml/Access.antt =====
-- The accessors of YAML values that the program calls, as serde_yaml_ng documents them: they look
-- under a tag.
use clash_verge_cli.Prelude.{String, Option, none, some, List, ◌>>=◌}
use clash_verge_cli.Yaml.{Kind, string, sequence, mapping, Yaml}

module _ (Y : Yaml) where
  open Y use {Value, Mapping, kind, untag, of_string, get}

  abbrev pub sequence_of : Kind Value Mapping → Option (List Value)
  sequence_of (sequence vs) = some vs
  sequence_of _ = none

  abbrev pub mapping_of : Kind Value Mapping → Option Mapping
  mapping_of (mapping m) = some m
  mapping_of _ = none

  abbrev pub string_of : Kind Value Mapping → Option String
  string_of (string s) = some s
  string_of _ = none

  -- `as_sequence`, `as_mapping` and `as_str`
  abbrev pub as_sequence : Value → Option (List Value)
  as_sequence v = sequence_of (kind (untag v))

  abbrev pub as_mapping : Value → Option Mapping
  as_mapping v = mapping_of (kind (untag v))

  abbrev pub as_str : Value → Option String
  as_str v = string_of (kind (untag v))

  -- `if let Value::Sequence(vs) = v`, `Value::Mapping` and `Value::String`, which do not look under a tag
  abbrev pub match_sequence : Value → Option (List Value)
  match_sequence v = sequence_of (kind v)

  abbrev pub match_mapping : Value → Option Mapping
  match_mapping v = mapping_of (kind v)

  abbrev pub match_string : Value → Option String
  match_string v = string_of (kind v)

  -- `Mapping::get` at a text
  abbrev pub get_key : String → Mapping → Option Value
  get_key key m = get (of_string key) m

  -- `Value::get` at a text
  abbrev pub field : String → Value → Option Value
  field key v = as_mapping v >>= get_key key

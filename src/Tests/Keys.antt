-- ===== src/Tests/Keys.antt =====
-- The tests of input.rs and keymap.rs; the capitals are those of ASCII.
use clash_verge_cli.Prelude.{
  ◌≡◌, refl, ◌≢◌, Bool, ◌&&◌, none, some, ℕ, leb, codes, split_once, is_whitespace, trim_start,
  trim_end, trim,
}
use clash_verge_cli.Terminal.{
  KeyCode, char, enter, function_key, KeyEvent, connections, rules, content, close_confirmation,
  confirm_close_connection, rules_edit_add_rule_set,
}
use clash_verge_cli.Terminal.Input.{KeyContext, overlay_action, action_under, map_key}
use clash_verge_cli.Terminal.Input.Owners.{map_key-IsAt}
use clash_verge_cli.Terminal.Input.Bindings.{map_key-never_adds_rule_set}
use clash_verge_cli.Terminal.Keymap.{
  Key, no_modifiers, with_control, add_modifier, next_prefix, parse_modifiers, function_number,
  named, code_of, parse_key,
}

abbrev press : KeyCode → KeyEvent
press code = record { code = code; modifiers = no_modifiers }

abbrev closing : KeyContext
closing = record {
  view = connections;
  focus = content;
  overlay = some close_confirmation;
  pending_connection_close = some "id-1";
}

abbrev on_rules : KeyContext
on_rules = record { view = rules; focus = content; overlay = none; pending_connection_close = none }

closed : map_key (press enter) closing ≡ some (confirm_close_connection "id-1")
unfolding map_key action_under overlay_action
closed = refl

map_key-IsAt_example : closing.overlay ≡ some close_confirmation
map_key-IsAt_example = map_key-IsAt (press enter) closing (confirm_close_connection "id-1") closed

map_key-never_adds_rule_set_example :
    map_key (press (char b'r')) on_rules ≢ some rules_edit_add_rule_set
map_key-never_adds_rule_set_example = map_key-never_adds_rule_set (press (char b'r')) on_rules

abbrev is_ascii_uppercase : ℕ → Bool
is_ascii_uppercase c = leb b'A' c && leb c b'Z'

abbrev control_n : Key
control_n = record { code = char b'n'; modifiers = with_control no_modifiers }

control_n-read : parse_key (codes "Ctrl+n") ≡ some control_n
unfolding parse_key parse_modifiers next_prefix add_modifier code_of split_once trim trim_start
    trim_end is_whitespace
control_n-read = refl

function_key-read :
    parse_key (codes "f12") ≡ some (record { code = function_key 12; modifiers = no_modifiers })
unfolding parse_key parse_modifiers next_prefix code_of named function_number split_once trim
    trim_start trim_end is_whitespace
function_key-read = refl

-- ===== src/Terminal/Keymap.antt =====
-- The key remaps of tui.yaml, src-tui/src/tui/keymap.rs. `char::is_uppercase` is an argument.
pub mod Normal
pub mod Fuel
use clash_verge_cli.Prelude.{
  String, Bool, true, false, not, ◌&&◌, ◌||◌, Option, none, some, List, [], ◌∷◌, map, ℕ, zero, suc,
  ◌+◌, ◌-◌, leb, eqb, if◌then◌else◌, length, is_empty, Text, codes, text_eq, split_once, trim,
  lowercase, eq_ignore_ascii_case, uppercase, parse_unsigned, ◌>>=◌, ◌>>◌, bail_if, or_else,
}
use clash_verge_cli.Terminal.{
  KeyCode, char, enter, esc, tab, back_tab, backspace, up, down, left, right, page_up, page_down,
  home_key, end_key, delete, insert_key, function_key, unnamed, KeyModifiers, KeyEvent,
}

pub record Key : Type 0 where
  pub code : KeyCode
  pub modifiers : KeyModifiers

abbrev pub is_char : KeyCode → Bool
is_char (char c) = true
is_char code = false

-- `KeyModifiers::NONE`, and `insert` and `remove` of one bit
abbrev pub no_modifiers : KeyModifiers
no_modifiers = record { control = false; alt = false; shift = false; others = false }

abbrev pub with_control : KeyModifiers → KeyModifiers
with_control m = record { control = true; alt = m.alt; shift = m.shift; others = m.others }

abbrev pub with_alt : KeyModifiers → KeyModifiers
with_alt m = record { control = m.control; alt = true; shift = m.shift; others = m.others }

abbrev pub set_shift : Bool → KeyModifiers → KeyModifiers
set_shift b m = record { control = m.control; alt = m.alt; shift = b; others = m.others }

-- `event.modifiers & (CONTROL | ALT | SHIFT)`
abbrev pub known_modifiers : KeyModifiers → KeyModifiers
known_modifiers m = record { control = m.control; alt = m.alt; shift = m.shift; others = false }

-- `Key::of`
unfoldable pub key_of : KeyEvent → Key
key_of event =
    let modifiers : KeyModifiers = known_modifiers event.modifiers in
    record {
      code = event.code;
      modifiers = if is_char event.code then set_shift false modifiers else modifiers;
    }

module _ (is_uppercase : ℕ → Bool) where
  abbrev pub is_capital : KeyCode → Bool
  is_capital (char c) = is_uppercase c
  is_capital code = false

  -- `Key::event`
  unfoldable pub event_of : Key → KeyEvent
  event_of key = record {
    code = key.code;
    modifiers = if is_capital key.code then set_shift true key.modifiers else key.modifiers;
  }

abbrev pub is_name : Text → List String → Bool
is_name s [] = false
is_name s (n ∷ ns) = text_eq s (codes n) || is_name s ns

-- one prefix of the loop in `Key::parse`
unfoldable pub add_modifier : Text → KeyModifiers → Option KeyModifiers
add_modifier prefix m =
    if is_name prefix ("ctrl" ∷ "control" ∷ [])
    then some (with_control m)
    else if is_name prefix ("alt" ∷ "meta" ∷ [])
    then some (with_alt m)
    else if is_name prefix ("shift" ∷ [])
    then some (set_shift true m)
    else none

-- `split_once('+').filter(|(_, tail)| !tail.is_empty())`
unfoldable pub next_prefix : Text → Option (Text × Text)
next_prefix rest = do
  (prefix, tail) ← split_once b'+' rest
  bail_if (is_empty tail)
  some (prefix, tail)

-- the loop of `Key::parse`, with its modifiers and the rest of the text; each round shortens it
unfoldable pub parse_modifiers : ℕ → KeyModifiers → Text → Option (KeyModifiers × Text)
parse_modifiers zero m rest = none
parse_modifiers (suc f) m rest = elim (next_prefix rest) [
  | none ↦ some (m, rest)
  | some (prefix, tail) ↦ add_modifier (map lowercase prefix) m >>= (λ n. parse_modifiers f n tail)
]

-- the arms of `named`
abbrev key_names : List (List String × KeyCode)
key_names =
    ("enter" ∷ "return" ∷ [], enter)
    ∷ ("esc" ∷ "escape" ∷ [], esc)
    ∷ ("tab" ∷ [], tab)
    ∷ ("backtab" ∷ [], back_tab)
    ∷ ("backspace" ∷ [], backspace)
    ∷ ("space" ∷ [], char b' ')
    ∷ ("up" ∷ [], up)
    ∷ ("down" ∷ [], down)
    ∷ ("left" ∷ [], left)
    ∷ ("right" ∷ [], right)
    ∷ ("pageup" ∷ [], page_up)
    ∷ ("pagedown" ∷ [], page_down)
    ∷ ("home" ∷ [], home_key)
    ∷ ("end" ∷ [], end_key)
    ∷ ("delete" ∷ "del" ∷ [], delete)
    ∷ ("insert" ∷ "ins" ∷ [], insert_key)
    ∷ []

abbrev find_name : Text → List (List String × KeyCode) → Option KeyCode
find_name name [] = none
find_name name ((names, code) ∷ rest) =
    if is_name name names then some code else find_name name rest

-- `strip_prefix('f')?.parse::<u8>().ok()?` and the test of the range
unfoldable pub function_number : Text → Option ℕ
function_number [] = none
function_number (c ∷ s) = do
  bail_if (not (eqb c b'f'))
  number ← parse_unsigned 256 s
  bail_if (not (leb 1 number && leb number 12))
  some number

unfoldable pub named : Text → Option KeyCode
named name = or_else (find_name name key_names) (do some (function_key (← function_number name)))

-- the code that the text behind the modifiers stands for
unfoldable pub code_of : KeyModifiers → Text → Option KeyCode
code_of m (c ∷ []) = some (char (if m.shift then uppercase c else c))
code_of m rest = named (map lowercase rest)

abbrev settled : KeyCode → KeyModifiers → Key
settled code m = record { code = code; modifiers = if is_char code then set_shift false m else m }

-- `Key::parse`
unfoldable pub parse_key : Text → Option Key
parse_key spec = do
  (modifiers, rest) ← parse_modifiers (suc (length (trim spec))) no_modifiers (trim spec)
  code ← code_of modifiers rest
  some (settled code modifiers)

-- The derived equality of `KeyCode`, on a number for each code and what it carries
abbrev code_number : KeyCode → ℕ × ℕ
code_number (char c) = (0, c)
code_number enter = (1, 0)
code_number esc = (2, 0)
code_number tab = (3, 0)
code_number back_tab = (4, 0)
code_number backspace = (5, 0)
code_number up = (6, 0)
code_number down = (7, 0)
code_number left = (8, 0)
code_number right = (9, 0)
code_number page_up = (10, 0)
code_number page_down = (11, 0)
code_number home_key = (12, 0)
code_number end_key = (13, 0)
code_number delete = (14, 0)
code_number insert_key = (15, 0)
code_number (function_key n) = (16, n)
code_number (unnamed n) = (17, n)

abbrev same_bit : Bool → Bool → Bool
same_bit true b = b
same_bit false b = not b

abbrev pub same_key : Key → Key → Bool
same_key j k =
    eqb (code_number j.code).0 (code_number k.code).0
    && (eqb (code_number j.code).1 (code_number k.code).1
        && (same_bit j.modifiers.control k.modifiers.control
            && (same_bit j.modifiers.alt k.modifiers.alt
                && (same_bit j.modifiers.shift k.modifiers.shift
                    && same_bit j.modifiers.others k.modifiers.others))))

-- The remaps, the last that was inserted first
abbrev pub KeyMap : Type 0
KeyMap = List (Key × Option Key)

unfoldable pub remap_of : Key → KeyMap → Option (Option Key)
remap_of key [] = none
remap_of key ((from, to) ∷ remaps) = if same_key from key then some to else remap_of key remaps

-- `Some(target) => target.map(Key::event)`
module _ (is_uppercase : ℕ → Bool) where
  unfoldable pub translate : KeyMap → KeyEvent → Option KeyEvent
  translate remaps event = elim (remap_of (key_of event) remaps) [
    | some (some target) ↦ some (event_of is_uppercase target)
    | some none ↦ none
    | none ↦ some event
  ]

-- the target of one entry of `keys`
unfoldable pub parse_target : Text → Option (Option Key)
parse_target to =
    if eq_ignore_ascii_case (trim to) (codes "none")
    then some none
    else (do some (some (← parse_key to)))

-- the loop of `TuiConfig::parse` over `keys`, in the order of the hash map
unfoldable pub parse_remaps : KeyMap → List (Text × Text) → Option KeyMap
parse_remaps remaps [] = some remaps
parse_remaps remaps ((from, to) ∷ entries) = do
  target ← parse_target to
  key ← parse_key from
  parse_remaps ((key, target) ∷ remaps) entries

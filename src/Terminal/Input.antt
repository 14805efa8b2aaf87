-- ===== src/Terminal/Input.antt =====
-- Which action a key gives rise to, `map_key` of src-tui/src/tui/input.rs.
pub mod Owners
pub mod Bindings
use clash_verge_cli.Prelude.{
  String, Bool, true, false, ◌&&◌, ◌||◌, Option, none, some, List, [], ◌∷◌, ℕ, ◌/◌, eqb,
  if◌then◌else◌, ◌>>=◌,
}
use clash_verge_cli.Terminal.{
  KeyCode, char, enter, esc, tab, back_tab, backspace, up, down, left, right, KeyEvent, View, home,
  proxies, profiles, connections, rules, logs, unlock, settings, Focus, menu, content, Overlay,
  core_update, help, filter, close_confirmation, close_all_connections_confirmation, password_input,
  trust_confirmation, tun_setup_confirmation, service_uninstall_confirmation,
  rules_restart_confirmation, verge, singbox, Action, start_core, stop_core, restart_core,
  confirm_core_update, cancel_core_update, quit, start_import, confirm_trust_import,
  cancel_trust_import, move_next, move_previous, activate, update_profile, switch_view, cycle_focus,
  focus_menu, focus_content, start_filter, submit_filter, toggle_help, dismiss_overlay,
  node_delay_test, node_delay_all, cycle_proxy_sort, toggle_hide_failed_proxies, toggle_chain_mode,
  apply_chain, clear_chain, run_unlock_checks, cycle_log_level, request_close_connection,
  confirm_close_connection, request_close_all_connections, confirm_close_all_connections,
  cycle_clash_mode, open_editor, rules_refresh, rules_edit_toggle, rules_edit_delete,
  rules_edit_move_up, rules_edit_move_down, rules_edit_save, rules_edit_add,
  rules_edit_add_rule_set, rules_edit_delete_rule_set, rules_edit_save_confirmed,
  rules_edit_save_cancelled, rule_form_add, dns_edit_toggle, dns_focus_toggle, dns_add_server,
  dns_delete_entry, dns_add_rule, dns_set_resolver, dns_apply, confirm_tun_setup,
  skip_tun_setup_start, password_char, password_backspace, password_submit, password_cancel,
  confirm_service_uninstall, cancel_service_uninstall,
}

pub record KeyContext : Type 0 where
  pub view : View
  pub focus : Focus
  pub overlay : Option Overlay
  pub pending_connection_close : Option String

abbrev pub is_view : View → View → Bool
is_view home home = true
is_view proxies proxies = true
is_view profiles profiles = true
is_view connections connections = true
is_view rules rules = true
is_view logs logs = true
is_view unlock unlock = true
is_view settings settings = true
is_view v w = false

abbrev pub is_content : Focus → Bool
is_content menu = false
is_content content = true

-- `view_filters` of tui/handlers/navigation.rs
unfoldable pub view_filters : View → Bool
view_filters connections = true
view_filters logs = true
view_filters proxies = true
view_filters profiles = true
view_filters rules = true
view_filters v = false

-- `y`, and `n`, in both cases
abbrev pub is_yes : ℕ → Bool
is_yes c = eqb c b'y' || eqb c b'Y'

abbrev pub is_no : ℕ → Bool
is_no c = eqb c b'n' || eqb c b'N'

-- The arms of a `match` that are tried in order: each has a condition and a result.
abbrev pub first_arm : List (Bool × Option Action) → Option Action
first_arm [] = none
first_arm ((guard, action) ∷ arms) = let rest = first_arm arms in if guard then action else rest

-- the arms for any dialog
abbrev fallback : KeyCode → Option Action
fallback esc = some dismiss_overlay
fallback (char c) = if eqb c b'q' then some dismiss_overlay else none
fallback code = none

-- the `match` on a dialog and a key
unfoldable pub overlay_action : Overlay → KeyCode → Option String → Option Action
overlay_action core_update (char c) pending =
    if is_yes c
    then some confirm_core_update
    else if is_no c || eqb c b'q'
    then some cancel_core_update
    else none
overlay_action core_update enter pending = some confirm_core_update
overlay_action core_update esc pending = some cancel_core_update
overlay_action filter enter pending = some submit_filter
overlay_action close_confirmation enter pending = do
  id ← pending
  some (confirm_close_connection id)
overlay_action close_all_connections_confirmation enter pending = some confirm_close_all_connections
overlay_action password_input (char c) pending = some (password_char c)
overlay_action password_input backspace pending = some password_backspace
overlay_action password_input enter pending = some password_submit
overlay_action password_input esc pending = some password_cancel
overlay_action trust_confirmation (char c) pending =
    if is_yes c
    then some confirm_trust_import
    else if is_no c
    then some cancel_trust_import
    else fallback (char c)
overlay_action trust_confirmation esc pending = some cancel_trust_import
overlay_action tun_setup_confirmation (char c) pending =
    if is_yes c
    then some confirm_tun_setup
    else if is_no c || eqb c b'q'
    then some skip_tun_setup_start
    else none
overlay_action tun_setup_confirmation esc pending = some skip_tun_setup_start
overlay_action service_uninstall_confirmation (char c) pending =
    if is_yes c
    then some confirm_service_uninstall
    else if is_no c || eqb c b'q'
    then some cancel_service_uninstall
    else none
overlay_action service_uninstall_confirmation esc pending = some cancel_service_uninstall
overlay_action rules_restart_confirmation (char c) pending =
    if is_yes c
    then some rules_edit_save_confirmed
    else if is_no c
    then some rules_edit_save_cancelled
    else fallback (char c)
overlay_action rules_restart_confirmation esc pending = some rules_edit_save_cancelled
overlay_action help (char c) pending =
    if eqb c b'q' || eqb c b'?' then some dismiss_overlay else none
overlay_action overlay code pending = fallback code

-- the arms for a character while no dialog is open
unfoldable pub char_arms : ℕ → Bool → View → Focus → List (Bool × Option Action)
char_arms c shifted view focus =
    let on : View → Bool = is_view view in
    let inside : Bool = is_content focus in
    (eqb c b'q', some quit)
    ∷ (eqb c b's' && on home && shifted, some stop_core)
    ∷ (eqb c b's' && on home, some start_core)
    ∷ (eqb c b'r' && on home, some restart_core)
    ∷ (eqb c b'm' && (on home || on settings), some cycle_clash_mode)
    ∷ (eqb c b'1', some (switch_view home))
    ∷ (eqb c b'2', some (switch_view proxies))
    ∷ (eqb c b'3', some (switch_view profiles))
    ∷ (eqb c b'4', some (switch_view connections))
    ∷ (eqb c b'5', some (switch_view rules))
    ∷ (eqb c b'6', some (switch_view logs))
    ∷ (eqb c b'7', some (switch_view unlock))
    ∷ (eqb c b'8', some (switch_view settings))
    ∷ (eqb c b'h', some focus_menu)
    ∷ (eqb c b'l', some focus_content)
    ∷ (eqb c b'/' && view_filters view, some start_filter)
    ∷ (eqb c b'?', some toggle_help)
    ∷ (eqb c b'j', some move_next)
    ∷ (eqb c b'k', some move_previous)
    ∷ (eqb c b'i' && on profiles, some start_import)
    ∷ (eqb c b'u' && on profiles, some update_profile)
    ∷ (eqb c b'd' && on connections && inside, some request_close_connection)
    ∷ (eqb c b'D' && on connections && inside, some request_close_all_connections)
    ∷ (eqb c b'T' && on proxies && shifted, some node_delay_all)
    ∷ (eqb c b't' && on proxies, some node_delay_test)
    ∷ (eqb c b'r' && on unlock, some run_unlock_checks)
    ∷ (eqb c b'L' && on logs, some cycle_log_level)
    ∷ (eqb c b'o' && on proxies, some cycle_proxy_sort)
    ∷ (eqb c b'H' && on proxies, some toggle_hide_failed_proxies)
    ∷ (eqb c b'c' && on proxies, some toggle_chain_mode)
    ∷ (eqb c b'a' && on proxies, some apply_chain)
    ∷ (eqb c b'x' && on proxies, some clear_chain)
    ∷ (eqb c b'r' && on rules, some rules_refresh)
    ∷ (eqb c b'u' && on rules && inside, none)
    ∷ (eqb c b'E' && on rules, some rules_edit_toggle)
    ∷ (eqb c b'a' && on rules, some rules_edit_add)
    ∷ (eqb c b'O' && on rules, some (open_editor singbox))
    ∷ (eqb c b'r' && on rules, some rules_edit_add_rule_set)
    ∷ (eqb c b'x' && on rules, some rules_edit_delete_rule_set)
    ∷ (eqb c b'D' && on rules && inside, some rules_edit_delete)
    ∷ (eqb c b'J' && on rules && inside, some rules_edit_move_down)
    ∷ (eqb c b'K' && on rules && inside, some rules_edit_move_up)
    ∷ (eqb c b'W' && on rules && inside, some rules_edit_save)
    ∷ (eqb c b'f' && on rules, some rule_form_add)
    ∷ (eqb c b'e' && on settings && inside, some (open_editor verge))
    ∷ (eqb c b'd' && on settings, some dns_edit_toggle)
    ∷ (eqb c b'a' && on settings, some dns_add_server)
    ∷ (eqb c b'r' && on settings, some dns_add_rule)
    ∷ (eqb c b'R' && on settings, some dns_set_resolver)
    ∷ (eqb c b'x' && on settings, some dns_delete_entry)
    ∷ (eqb c b'w' && on settings, some dns_apply)
    ∷ []

-- the `match` on the key while no dialog is open
unfoldable pub shell_action : KeyCode → Bool → KeyContext → Option Action
shell_action (char c) shifted context = first_arm (char_arms c shifted context.view context.focus)
shell_action esc shifted context = some dismiss_overlay
shell_action tab shifted context = some cycle_focus
shell_action left shifted context = some focus_menu
shell_action right shifted context = some focus_content
shell_action down shifted context = some move_next
shell_action up shifted context = some move_previous
shell_action enter shifted context = some activate
shell_action back_tab shifted context =
    if is_view context.view settings then some dns_focus_toggle else none
shell_action code shifted context = none

unfoldable pub action_under : Option Overlay → KeyEvent → KeyContext → Option Action
action_under (some overlay) event context =
    overlay_action overlay event.code context.pending_connection_close
action_under none event context = shell_action event.code event.modifiers.shift context

unfoldable pub map_key : KeyEvent → KeyContext → Option Action
map_key event context = action_under context.overlay event context

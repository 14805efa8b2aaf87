-- ===== src/Terminal.antt =====
-- The keys of the terminal interface: the events of crossterm as the program looks into them, the
-- views and dialogs of src-tui/src/app/mod.rs, and the actions of src-tui/src/app/action.rs that a
-- key gives rise to.
pub mod Input
pub mod Keymap
use clash_verge_cli.Prelude.{String, Bool, ℕ}

-- `KeyCode` of crossterm; `unnamed` is any code that the program does not name.
pub data KeyCode : Type 0 where
  char : ℕ → KeyCode
  enter : KeyCode
  esc : KeyCode
  tab : KeyCode
  back_tab : KeyCode
  backspace : KeyCode
  up : KeyCode
  down : KeyCode
  left : KeyCode
  right : KeyCode
  page_up : KeyCode
  page_down : KeyCode
  home_key : KeyCode
  end_key : KeyCode
  delete : KeyCode
  insert_key : KeyCode
  function_key : ℕ → KeyCode
  unnamed : ℕ → KeyCode

-- The bits of `KeyModifiers`; `others` is any bit that the program does not name.
pub record KeyModifiers : Type 0 where
  pub control : Bool
  pub alt : Bool
  pub shift : Bool
  pub others : Bool

pub record KeyEvent : Type 0 where
  pub code : KeyCode
  pub modifiers : KeyModifiers

pub data View : Type 0 where
  home : View
  proxies : View
  profiles : View
  connections : View
  rules : View
  logs : View
  unlock : View
  settings : View

pub data Focus : Type 0 where
  menu : Focus
  content : Focus

pub cycle : Focus → Focus
cycle menu = content
cycle content = menu

pub data Overlay : Type 0 where
  core_update : Overlay
  help : Overlay
  filter : Overlay
  close_confirmation : Overlay
  close_all_connections_confirmation : Overlay
  password_input : Overlay
  trust_confirmation : Overlay
  tun_setup_confirmation : Overlay
  service_uninstall_confirmation : Overlay
  rules_restart_confirmation : Overlay

pub data EditorTarget : Type 0 where
  verge : EditorTarget
  dns : EditorTarget
  singbox : EditorTarget

-- The actions that a key can give rise to
pub data Action : Type 0 where
  start_core : Action
  stop_core : Action
  restart_core : Action
  confirm_core_update : Action
  cancel_core_update : Action
  quit : Action
  start_import : Action
  confirm_trust_import : Action
  cancel_trust_import : Action
  move_next : Action
  move_previous : Action
  activate : Action
  update_profile : Action
  switch_view : View → Action
  cycle_focus : Action
  focus_menu : Action
  focus_content : Action
  start_filter : Action
  submit_filter : Action
  toggle_help : Action
  dismiss_overlay : Action
  node_delay_test : Action
  node_delay_all : Action
  cycle_proxy_sort : Action
  toggle_hide_failed_proxies : Action
  toggle_chain_mode : Action
  apply_chain : Action
  clear_chain : Action
  run_unlock_checks : Action
  cycle_log_level : Action
  request_close_connection : Action
  confirm_close_connection : String → Action
  request_close_all_connections : Action
  confirm_close_all_connections : Action
  cycle_clash_mode : Action
  open_editor : EditorTarget → Action
  rules_refresh : Action
  rules_edit_toggle : Action
  rules_edit_delete : Action
  rules_edit_move_up : Action
  rules_edit_move_down : Action
  rules_edit_save : Action
  rules_edit_add : Action
  rules_edit_add_rule_set : Action
  rules_edit_delete_rule_set : Action
  rules_edit_save_confirmed : Action
  rules_edit_save_cancelled : Action
  rule_form_add : Action
  dns_edit_toggle : Action
  dns_focus_toggle : Action
  dns_add_server : Action
  dns_delete_entry : Action
  dns_add_rule : Action
  dns_set_resolver : Action
  dns_apply : Action
  confirm_tun_setup : Action
  skip_tun_setup_start : Action
  password_char : ℕ → Action
  password_backspace : Action
  password_submit : Action
  password_cancel : Action
  confirm_service_uninstall : Action
  cancel_service_uninstall : Action

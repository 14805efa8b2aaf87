-- ===== src/Terminal/Input/Owners.antt =====
-- Where an action of input.rs may come from: a dialog's answer from that dialog only, and a command
-- of the shell only while no dialog is open.
use clash_verge_cli.Prelude.{
  String, ◌≡◌, subst, Bool, true, false, Option, none, some, List, [], ◌∷◌, arith, ℕ, eqb,
  if◌then◌else◌, eq_of_some,
}
use clash_verge_cli.Terminal.{
  KeyCode, char, esc, KeyEvent, View, Focus, Overlay, core_update, help, filter, close_confirmation,
  close_all_connections_confirmation, password_input, trust_confirmation, tun_setup_confirmation,
  service_uninstall_confirmation, rules_restart_confirmation, Action, confirm_core_update,
  cancel_core_update, confirm_trust_import, cancel_trust_import, submit_filter, dismiss_overlay,
  confirm_close_connection, confirm_close_all_connections, rules_edit_save_confirmed,
  rules_edit_save_cancelled, confirm_tun_setup, skip_tun_setup_start, password_char,
  password_backspace, password_submit, password_cancel, confirm_service_uninstall,
  cancel_service_uninstall,
}
use clash_verge_cli.Terminal.Input.{
  KeyContext, first_arm, fallback, overlay_action, char_arms, shell_action, action_under, map_key,
}

pub data Place : Type 0 where
  dialog : Overlay → Place
  shell : Place
  anywhere : Place

abbrev pub owner : Action → Place
owner confirm_core_update = dialog core_update
owner cancel_core_update = dialog core_update
owner confirm_trust_import = dialog trust_confirmation
owner cancel_trust_import = dialog trust_confirmation
owner submit_filter = dialog filter
owner (confirm_close_connection id) = dialog close_confirmation
owner confirm_close_all_connections = dialog close_all_connections_confirmation
owner rules_edit_save_confirmed = dialog rules_restart_confirmation
owner rules_edit_save_cancelled = dialog rules_restart_confirmation
owner confirm_tun_setup = dialog tun_setup_confirmation
owner skip_tun_setup_start = dialog tun_setup_confirmation
owner (password_char c) = dialog password_input
owner password_backspace = dialog password_input
owner password_submit = dialog password_input
owner password_cancel = dialog password_input
owner confirm_service_uninstall = dialog service_uninstall_confirmation
owner cancel_service_uninstall = dialog service_uninstall_confirmation
owner dismiss_overlay = anywhere
owner action = shell

abbrev pub IsAt : Place → Option Overlay → Type 0
IsAt (dialog overlay) open_overlay = open_overlay ≡ some overlay
IsAt shell open_overlay = open_overlay ≡ none
IsAt anywhere open_overlay = Unit

abbrev IsOwned : Option Overlay → Option Action → Type 0
IsOwned open_overlay none = Unit
IsOwned open_overlay (some action) = IsAt (owner action) open_overlay

chosen-IsOwned :
    (o : Option Overlay) (b : Bool) (x y : Option Action)
    → IsOwned o x
    → IsOwned o y
    → IsOwned o (if b then x else y)
chosen-IsOwned o true x y h k = h
chosen-IsOwned o false x y h k = k

fallback-IsOwned : (o : Option Overlay) (code : KeyCode) → IsOwned o (fallback code)
fallback-IsOwned o (char c) = chosen-IsOwned o (eqb c b'q') (some dismiss_overlay) none tt tt
fallback-IsOwned o esc = tt
fallback-IsOwned o code = tt

overlay_action-IsOwned :
    (overlay : Overlay) (code : KeyCode) (pending : Option String)
    → IsOwned (some overlay) (overlay_action overlay code pending)
unfolding overlay_action
overlay_action-IsOwned core_update code pending = ground arith
overlay_action-IsOwned help code pending = ground arith
overlay_action-IsOwned filter code pending = ground arith
overlay_action-IsOwned close_confirmation code pending = ground arith
overlay_action-IsOwned close_all_connections_confirmation code pending = ground arith
overlay_action-IsOwned password_input code pending = ground arith
overlay_action-IsOwned trust_confirmation code pending = ground arith
overlay_action-IsOwned tun_setup_confirmation code pending = ground arith
overlay_action-IsOwned service_uninstall_confirmation code pending = ground arith
overlay_action-IsOwned rules_restart_confirmation code pending = ground arith

AllOwned : List (Bool × Option Action) → Type 0
AllOwned [] = Unit
AllOwned ((guard, action) ∷ arms) = IsOwned none action × AllOwned arms

first_arm-IsOwned :
    (arms : List (Bool × Option Action)) → AllOwned arms → IsOwned none (first_arm arms)
unfolding AllOwned
first_arm-IsOwned [] h = tt
first_arm-IsOwned ((guard, action) ∷ arms) (h, hs) =
    chosen-IsOwned none guard action (first_arm arms) h (first_arm-IsOwned arms hs)

char_arms-AllOwned :
    (c : ℕ) (shifted : Bool) (view : View) (focus : Focus)
    → AllOwned (char_arms c shifted view focus)
unfolding AllOwned char_arms
char_arms-AllOwned c shifted view focus = ground arith

shell_action-IsOwned :
    (code : KeyCode) (shifted : Bool) (context : KeyContext)
    → IsOwned none (shell_action code shifted context)
unfolding shell_action
shell_action-IsOwned (char c) shifted context =
    first_arm-IsOwned (char_arms c shifted context.view context.focus)
      (char_arms-AllOwned c shifted context.view context.focus)
shell_action-IsOwned code shifted context = ground arith

action_under-IsOwned :
    (o : Option Overlay) (event : KeyEvent) (context : KeyContext)
    → IsOwned o (action_under o event context)
unfolding action_under
action_under-IsOwned none event context =
    shell_action-IsOwned event.code event.modifiers.shift context
action_under-IsOwned (some overlay) event context =
    overlay_action-IsOwned overlay event.code context.pending_connection_close

IsAt-of_IsOwned :
    (o : Option Overlay) (found : Option Action) {action : Action}
    → IsOwned o found
    → found ≡ some action
    → IsAt (owner action) o
IsAt-of_IsOwned o none h e = cc
IsAt-of_IsOwned o (some a) h e = subst (λ a. IsAt (owner a) o) (eq_of_some e) h

-- A key answers a dialog only while that dialog is open, and gives a command of the shell only
-- while no dialog is open; only closing the dialog is possible anywhere.
pub map_key-IsAt :
    (event : KeyEvent) (context : KeyContext) (action : Action)
    → map_key event context ≡ some action
    → IsAt (owner action) context.overlay
unfolding map_key
map_key-IsAt event context action e =
    IsAt-of_IsOwned context.overlay (map_key event context)
      (action_under-IsOwned context.overlay event context) e

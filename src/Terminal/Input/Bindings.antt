-- ===== src/Terminal/Input/Bindings.antt =====
-- What no key can do in input.rs, and what closing a connection takes.
use clash_verge_cli.Prelude.{
  String, ◌≡◌, refl, sym, ap, ◌∙◌, subst, ◌≢◌, inl, inr, Bool, true, false, ◌&&◌, ◌||◌, Option,
  some, List, [], ◌∷◌, arith, ℕ, eqb, Bool-cases, false-ne-true,
}
use clash_verge_cli.Terminal.{
  KeyCode, char, enter, back_tab, KeyEvent, View, rules, Focus, close_confirmation, Action,
  confirm_close_connection, rules_edit_add_rule_set,
}
use clash_verge_cli.Terminal.Input.{
  KeyContext, is_view, first_arm, overlay_action, char_arms, shell_action, action_under, map_key,
}
use clash_verge_cli.Terminal.Input.Owners.{map_key-IsAt}

abbrev adds : Option Action → Bool
adds (some rules_edit_add_rule_set) = true
adds found = false

abbrev may_add : List (Bool × Option Action) → Bool
may_add [] = false
may_add ((guard, action) ∷ arms) = adds action && guard || may_add arms

-- If no arm that holds adds a rule set, the match does not.
adds-first_arm :
    (arms : List (Bool × Option Action)) → may_add arms ≡ false → adds (first_arm arms) ≡ false
adds-first_arm [] h = refl
adds-first_arm ((true, action) ∷ arms) h = ground arith
adds-first_arm ((false, action) ∷ arms) h = adds-first_arm arms (ground arith)

is_view_rules : (view : View) → is_view view rules ≡ true → view ≡ rules
is_view_rules view h = ground arith

adds-char_arms :
    (c : ℕ) (shifted : Bool) (view : View) (focus : Focus)
    → adds (first_arm (char_arms c shifted view focus)) ≡ false
adds-char_arms c shifted view focus = elim (Bool-cases (eqb c b'r' && is_view view rules)) [
  | inl e ↦
      let key : c ≡ b'r' = ground arith in
      let place : view ≡ rules = is_view_rules view (ground arith) in
      unfold char_arms in rw (key, place) refl
  | inr e ↦ adds-first_arm (char_arms c shifted view focus) (unfold char_arms in rw e refl)
]

adds-shell_action :
    (code : KeyCode) (shifted : Bool) (context : KeyContext)
    → adds (shell_action code shifted context) ≡ false
unfolding shell_action
adds-shell_action (char c) shifted context = adds-char_arms c shifted context.view context.focus
adds-shell_action back_tab shifted context = ground arith
adds-shell_action code shifted context = refl

-- No key in any view, with any dialog, asks for a new rule set.
pub map_key-never_adds_rule_set :
    (event : KeyEvent) (context : KeyContext) → map_key event context ≢ some rules_edit_add_rule_set
unfolding map_key action_under
map_key-never_adds_rule_set event context h =
    let at = map_key-IsAt event context rules_edit_add_rule_set h in
    let shell = subst (λ o. action_under o event context ≡ some rules_edit_add_rule_set) at h in
    false-ne-true (sym (adds-shell_action event.code event.modifiers.shift context) ∙ ap adds shell)

overlay_action-closes :
    (code : KeyCode) (pending : Option String) (id : String)
    → overlay_action close_confirmation code pending ≡ some (confirm_close_connection id)
    → (pending ≡ some id) × (code ≡ enter)
unfolding overlay_action
overlay_action-closes code pending id h = ground arith

pub map_key-closes_pending :
    (event : KeyEvent) (context : KeyContext) (id : String)
    → map_key event context ≡ some (confirm_close_connection id)
    → (context.overlay ≡ some close_confirmation)
      × (context.pending_connection_close ≡ some id)
      × (event.code ≡ enter)
unfolding map_key action_under
map_key-closes_pending event context id h =
    let at = map_key-IsAt event context (confirm_close_connection id) h in
    let closing =
      subst (λ o. action_under o event context ≡ some (confirm_close_connection id)) at h in
    let (pending, key) =
      overlay_action-closes event.code context.pending_connection_close id closing in
    (at, pending, key)

-- ===== src/Tests/Exits.antt =====
-- The groups of the tests of lifecycle.rs, and a cycle of selectors.
use clash_verge_cli.Prelude.{String, ◌≡◌, refl, ◌≢◌, ◌↔◌, true, false, none, some, [], ◌∷◌}
use clash_verge_cli.Subscribe.Scheduler.{sing_box}
use clash_verge_cli.Subscribe.Exit.{
  ProxyGroup, Groups, out_of_fuel, search_exit, exit_selection_path, validate_apply_target,
  should_rollback_selected_exit,
}
use clash_verge_cli.Subscribe.Exit.Total.{search_exit_total}
use clash_verge_cli.Subscribe.Exit.Found.{IsSelected, exit_selection_path_iff}

abbrev selector : String → ProxyGroup
selector now = record { group_type = "Selector"; now = some now; all_nodes = none }

abbrev nested : Groups
nested = ("GLOBAL", selector "Proxy") ∷ ("Proxy", selector "Node A") ∷ []

abbrev cycle : Groups
cycle = ("GLOBAL", selector "A") ∷ ("A", selector "B") ∷ ("B", selector "A") ∷ []

nested_exit :
    exit_selection_path nested ≡ some ("Node A", ("GLOBAL", "Proxy") ∷ ("Proxy", "Node A") ∷ [])
unfolding exit_selection_path
nested_exit = refl

cycle_exit : exit_selection_path cycle ≡ none
unfolding exit_selection_path
cycle_exit = refl

external_singbox : validate_apply_target sing_box true false ≡ false
unfolding validate_apply_target
external_singbox = refl

lost_exit : should_rollback_selected_exit "Node A" ("Node B" ∷ []) ≡ true
unfolding should_rollback_selected_exit
lost_exit = refl

search_exit_total_example : search_exit cycle ≢ out_of_fuel
search_exit_total_example = search_exit_total cycle

exit_selection_path_iff_example :
    (exit_selection_path nested ≡ some ("Node A", ("GLOBAL", "Proxy") ∷ ("Proxy", "Node A") ∷ []))
    ↔ IsSelected nested "Node A" (("GLOBAL", "Proxy") ∷ ("Proxy", "Node A") ∷ [])
exit_selection_path_iff_example = exit_selection_path_iff nested "Node A" _

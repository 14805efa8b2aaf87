-- ===== src/Subscribe/Exit/Found.antt =====
-- What `exit_selection_path` of lifecycle.rs returns, on every set of groups.
use clash_verge_cli.Prelude.{
  String, ◌≡◌, refl, sym, ap, ◌∙◌, ◌↔◌, inl, inr, Option, none, some, [], ◌++◌, arith, ◌+◌,
  Option-cases, length, lookup,
}
use clash_verge_cli.Subscribe.Exit.{
  ProxyGroup, Groups, SelectionPath, returned, walk, first_hop, search_exit, exit_selection_path,
}
use clash_verge_cli.Subscribe.Exit.Route.{Leads}
use clash_verge_cli.Subscribe.Exit.Total.{fresh-le-length}
use clash_verge_cli.Subscribe.Exit.Exact.{walk_sound, walk_complete}

-- The choice of the group GLOBAL leads to the exit. The path lists the selectors on the way, GLOBAL
-- among them if it is one.
pub record IsSelected (groups : Groups) (exit : String) (path : SelectionPath) : Type 0 where
  pub global : ProxyGroup
  pub node : String
  pub rest : SelectionPath
  pub found : lookup "GLOBAL" groups ≡ some global
  pub chosen : global.now ≡ some node
  pub leads : Leads groups exit node rest
  pub whole : path ≡ first_hop global node ++ rest

module _ (groups : Groups) (global : ProxyGroup) (node : String)
    (g : lookup "GLOBAL" groups ≡ some global) (n : global.now ≡ some node) where
  search_from : search_exit groups ≡ walk (length groups + 1) groups [] node (first_hop global node)
  unfolding search_exit
  search_from = ground (arith, g, n)

exit_of_search :
    (groups : Groups) (r : Option (String × SelectionPath))
    → search_exit groups ≡ returned r
    → exit_selection_path groups ≡ r
unfolding exit_selection_path
exit_of_search groups r h = rw (h, exit_selection_path) refl

search_of_exit :
    (groups : Groups) {exit : String} {path : SelectionPath}
    → exit_selection_path groups ≡ some (exit, path)
    → search_exit groups ≡ returned (some (exit, path))
unfolding exit_selection_path
search_of_exit groups h = ground arith

no_global : (groups : Groups) → lookup "GLOBAL" groups ≡ none → search_exit groups ≡ returned none
unfolding search_exit
no_global groups g = ground (arith, g)

no_choice :
    (groups : Groups) (global : ProxyGroup)
    → lookup "GLOBAL" groups ≡ some global
    → global.now ≡ none
    → search_exit groups ≡ returned none
unfolding search_exit
no_choice groups global g n = ground (arith, g, n)

IsSelected-of_search :
    (groups : Groups) {exit : String} {path : SelectionPath}
    → search_exit groups ≡ returned (some (exit, path))
    → IsSelected groups exit path
IsSelected-of_search groups {exit} {path} h = elim (Option-cases (lookup "GLOBAL" groups)) [
  | inl g ↦ cc (no_global groups g)
  | inr (global, g) ↦ elim (Option-cases global.now) [
    | inl n ↦ cc (no_choice groups global g n)
    | inr (node, n) ↦
        let (rest, d, e) =
          walk_sound (length groups + 1) groups [] node exit (first_hop global node) path
            (sym (search_from groups global node g n) ∙ h) in
        record {
          global = global;
          node = node;
          rest = rest;
          found = g;
          chosen = n;
          leads = d;
          whole = e;
        }
  ]
]

search_of_selected :
    (groups : Groups) {exit : String} {path : SelectionPath}
    → IsSelected groups exit path
    → search_exit groups ≡ returned (some (exit, path))
search_of_selected groups {exit} {path} s =
    search_from groups s.global s.node s.found s.chosen
    ∙ walk_complete (length groups + 1) groups exit [] (first_hop s.global s.node) s.leads
        (omega (arith, fresh-le-length [] groups)) tt
    ∙ ap (λ t. returned (some (exit, t))) (sym s.whole)

-- A node is returned, with the selectors on the way to it, exactly if the choice of GLOBAL leads to
-- it from selector to selector. A cycle, a selector without a choice, or a policy such as DIRECT on
-- the way gives nothing.
pub exit_selection_path_iff :
    (groups : Groups) (exit : String) (path : SelectionPath)
    → (exit_selection_path groups ≡ some (exit, path)) ↔ IsSelected groups exit path
exit_selection_path_iff groups exit path = (
  (λ h. IsSelected-of_search groups (search_of_exit groups h)),
  λ s. exit_of_search groups (some (exit, path)) (search_of_selected groups s),
)

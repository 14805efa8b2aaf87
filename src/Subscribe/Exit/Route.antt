-- ===== src/Subscribe/Exit/Route.antt =====
-- Where selectors lead, as a relation: the meaning of `exit_selection_path` in lifecycle.rs.
use clash_verge_cli.Prelude.{
  String, ◌≡◌, refl, sym, ap, ap₂, ◌∙◌, subst, ◌⊎◌, inl, inr, true, false, none, some, [], ◌∷◌,
  ◌==◌, false-ne-true, lookup, eq_of_some,
}
use clash_verge_cli.Subscribe.Exit.{ProxyGroup, Groups, SelectionPath, is_policy_node}

-- The node is no selector: it is no group, or a group of another type.
abbrev pub Stops : Groups → String → Type 0
Stops groups node =
    (lookup node groups ≡ none)
    ⊎ ((group : ProxyGroup) × (lookup node groups ≡ some group)
        × ((group.group_type == "Selector") ≡ false))

-- From the node, selector by selector, to the exit; the path lists each selector with its choice.
pub data Leads (groups : Groups) (exit : String) : String → SelectionPath → Type 0 where
  stop :
      {node : String}
      → is_policy_node node ≡ false
      → Stops groups node
      → node ≡ exit
      → Leads groups exit node []
  follow :
      {node selected : String} {path : SelectionPath} (group : ProxyGroup)
      → is_policy_node node ≡ false
      → lookup node groups ≡ some group
      → (group.group_type == "Selector") ≡ true
      → group.now ≡ some selected
      → Leads groups exit selected path
      → Leads groups exit node ((node, selected) ∷ path)

Stops-or_follows :
    (groups : Groups) (node : String) {g : ProxyGroup}
    → Stops groups node
    → lookup node groups ≡ some g
    → (g.group_type == "Selector") ≡ true
    → ⊥
Stops-or_follows groups node (inl a) l k = cc
Stops-or_follows groups node (inr (h, a, b)) l k =
    false-ne-true
      (sym b ∙ ap (λ (g : ProxyGroup). g.group_type == "Selector") (eq_of_some (sym a ∙ l)) ∙ k)

same_choice :
    (groups : Groups) (node : String) {g g' : ProxyGroup} {a b : String}
    → lookup node groups ≡ some g
    → lookup node groups ≡ some g'
    → g.now ≡ some a
    → g'.now ≡ some b
    → a ≡ b
same_choice groups node {g} {g'} l l' n n' =
    eq_of_some (sym n ∙ ap (λ (h : ProxyGroup). h.now) (eq_of_some (sym l ∙ l')) ∙ n')

-- A node leads to one exit, along one path.
pub Leads-unique :
    (groups : Groups) (exit exit' : String) {node : String} {path path' : SelectionPath}
    → Leads groups exit node path
    → Leads groups exit' node path'
    → (exit ≡ exit') × (path ≡ path')
Leads-unique groups exit exit' (stop p s e) (stop q t e') = (sym e ∙ e', refl)
Leads-unique groups exit exit' {node} (stop p s e) (follow g q l k n d) =
    absurd (Stops-or_follows groups node s l k)
Leads-unique groups exit exit' {node} (follow g q l k n d) (stop p s e) =
    absurd (Stops-or_follows groups node s l k)
Leads-unique groups exit exit' {node} (follow {path = p} g q l k n d)
      (follow {selected = b} {path = p'} g' q' l' k' n' d') =
    let same = same_choice groups node l l' n n' in
    let (one, rest) =
      Leads-unique groups exit exit' d (subst (λ x. Leads groups exit' x p') (sym same) d') in
    (one, ap₂ (λ x r. (node, x) ∷ r) same rest)

-- ===== src/Subscribe/Exit/Exact.antt =====
-- `exit_selection_path` of lifecycle.rs finds exactly the exits that selectors lead to.
use clash_verge_cli.Prelude.{
  String, ◌≡◌, refl, sym, ap, ap₂, ◌∙◌, inl, inr, Bool, true, false, ◌||◌, none, some, List, [],
  ◌∷◌, ◌++◌, append-nil, append_assoc, arith, ◌==◌, ℕ, zero, suc, ◌<◌, Bool-cases, Option-cases,
  length, contains, lookup, All, All-imp, contains-All,
}
use clash_verge_cli.Subscribe.Exit.{
  ProxyGroup, Groups, SelectionPath, is_policy_node, returned, walk,
}
use clash_verge_cli.Subscribe.Exit.Route.{Stops, Leads, stop, follow, Leads-unique}
use clash_verge_cli.Subscribe.Exit.Total.{fresh, fresh_drop}

module _ (fuel : ℕ) (groups : Groups) (visited : List String) (node : String)
    (path : SelectionPath) where
  walk_blocked :
      (is_policy_node node || contains visited node) ≡ true
      → walk (suc fuel) groups visited node path ≡ returned none
  unfolding walk
  walk_blocked b = ground (arith, b)

  module _ (free : (is_policy_node node || contains visited node) ≡ false) where
    walk_stop :
        Stops groups node → walk (suc fuel) groups visited node path ≡ returned (some (node, path))
    unfolding walk
    walk_stop (inl l) = ground (arith, l)
    walk_stop (inr (group, l, s)) = ground (arith, l, s)

    module _ (group : ProxyGroup) (l : lookup node groups ≡ some group)
        (s : (group.group_type == "Selector") ≡ true) where
      walk_unselected : group.now ≡ none → walk (suc fuel) groups visited node path ≡ returned none
      unfolding walk
      walk_unselected n = ground (arith, l, s, n)

      walk_follow :
          {selected : String}
          → group.now ≡ some selected
          → walk (suc fuel) groups visited node path
            ≡ walk fuel groups (node ∷ visited) selected (path ++ (node, selected) ∷ [])
      unfolding walk
      walk_follow n = ground (arith, l, s, n)

policy_free : (a b : Bool) → (a || b) ≡ false → a ≡ false
policy_free false b h = refl
policy_free true b h = cc

returned_some : {a b : String × SelectionPath} → returned (some a) ≡ returned (some b) → a ≡ b
returned_some h = cc

halted :
    (groups : Groups) (node exit : String) (path full : SelectionPath)
    → is_policy_node node ≡ false
    → Stops groups node
    → returned (some (node, path)) ≡ returned (some (exit, full))
    → (rest : SelectionPath) × Leads groups exit node rest × (full ≡ path ++ rest)
halted groups node exit path full p s h =
    let e = returned_some h in
    (
      [],
      stop p s (ap (λ (t : String × SelectionPath). t.0) e),
      sym (ap (λ (t : String × SelectionPath). t.1) e) ∙ sym (append-nil path),
    )

pub walk_sound :
    (fuel : ℕ) (groups : Groups) (visited : List String) (node exit : String)
    (path full : SelectionPath)
    → walk fuel groups visited node path ≡ returned (some (exit, full))
    → (rest : SelectionPath) × Leads groups exit node rest × (full ≡ path ++ rest)
unfolding walk
walk_sound zero groups visited node exit path full h = cc
walk_sound (suc fuel) groups visited node exit path full h =
    elim (Bool-cases (is_policy_node node || contains visited node)) [
      | inl b ↦ cc (walk_blocked fuel groups visited node path b)
      | inr b ↦
          let p = policy_free _ _ b in
          elim (Option-cases (lookup node groups)) [
            | inl l ↦
                halted groups node exit path full p (inl l)
                  (sym (walk_stop fuel groups visited node path b (inl l)) ∙ h)
            | inr (group, l) ↦ elim (Bool-cases (group.group_type == "Selector")) [
              | inr s ↦
                  halted groups node exit path full p (inr (group, l, s))
                    (sym (walk_stop fuel groups visited node path b (inr (group, l, s))) ∙ h)
              | inl s ↦ elim (Option-cases group.now) [
                | inl n ↦ cc (walk_unselected fuel groups visited node path b group l s n)
                | inr (selected, n) ↦
                    let (rest, d, e) =
                      walk_sound fuel groups (node ∷ visited) selected exit
                        (path ++ (node, selected) ∷ []) full
                        (sym (walk_follow fuel groups visited node path b group l s n) ∙ h) in
                    (
                      (node, selected) ∷ rest,
                      follow group p l s n d,
                      e ∙ append_assoc path ((node, selected) ∷ []) rest,
                    )
              ]
            ]
          ]
    ]

-- A visited node leads to the exit too, by a longer path than the node at hand.
abbrev IsBehind : Groups → String → SelectionPath → String → Type 0
IsBehind groups exit rest v = (p : SelectionPath) × Leads groups exit v p × (length rest < length p)

not_visited :
    (groups : Groups) (exit node : String) (rest : SelectionPath) (visited : List String)
    → Leads groups exit node rest
    → All (IsBehind groups exit rest) visited
    → contains visited node ≡ false
not_visited groups exit node rest visited d k = elim (Bool-cases (contains visited node)) [
  | inr e ↦ e
  | inl e ↦
      let (p, d', lt) = contains-All (IsBehind groups exit rest) visited node e k in
      absurd
        (omega (arith, ap (λ (r : SelectionPath). length r) (Leads-unique groups exit exit d d').1))
]

pub walk_complete :
    (fuel : ℕ) (groups : Groups) (exit : String) (visited : List String) (path : SelectionPath)
    {node : String} {rest : SelectionPath}
    → Leads groups exit node rest
    → fresh visited groups < fuel
    → All (IsBehind groups exit rest) visited
    → walk fuel groups visited node path ≡ returned (some (exit, path ++ rest))
walk_complete zero groups exit visited path d f k = elim f [ ]
walk_complete (suc fuel) groups exit visited path {node} (stop p s e) f k =
    let new = not_visited groups exit node [] visited (stop p s e) k in
    walk_stop fuel groups visited node path (rw (p, new) refl) s
    ∙ ap₂ (λ x r. returned (some (x, r))) e (sym (append-nil path))
walk_complete (suc fuel) groups exit visited path {node}
      (follow {selected = a} {path = r} group p l s n d) f k =
    let new = not_visited groups exit node ((node, a) ∷ r) visited (follow group p l s n d) k in
    walk_follow fuel groups visited node path (rw (p, new) refl) group l s n
    ∙ walk_complete fuel groups exit (node ∷ visited) (path ++ (node, a) ∷ []) d
        (omega (arith, fresh_drop node visited groups l new))
        (
          ((node, a) ∷ r, follow group p l s n d, omega arith),
          All-imp (λ v (q, b, lt). (q, b, omega arith)) visited k,
        )
    ∙ ap (λ t. returned (some (exit, t))) (append_assoc path ((node, a) ∷ []) r)

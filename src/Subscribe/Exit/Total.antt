-- ===== src/Subscribe/Exit/Total.antt =====
-- The loop of `exit_selection_path` in lifecycle.rs ends: each round visits another group.
use clash_verge_cli.Prelude.{
  String, ◌≡◌, ◌≢◌, inl, inr, false, some, List, [], ◌∷◌, ◌++◌, arith, eq_iff, ℕ, zero, suc, ◌+◌,
  ◌≤◌, ◌<◌, if◌then◌else◌, Option-cases, length, contains, lookup,
}
use clash_verge_cli.Subscribe.Exit.{
  ProxyGroup, Groups, SelectionPath, out_of_fuel, walk, first_hop, search_exit,
}

-- The entries whose group has not been visited.
pub fresh : List String → Groups → ℕ
fresh visited [] = 0
fresh visited ((name, group) ∷ groups) =
    (if contains visited name then 0 else 1) + fresh visited groups

fresh_mono :
    (node : String) (visited : List String) (groups : Groups)
    → fresh (node ∷ visited) groups ≤ fresh visited groups
unfolding fresh
fresh_mono node visited [] = omega arith
fresh_mono node visited ((name, group) ∷ groups) = ground (arith, fresh_mono node visited groups)

pub fresh_drop :
    (node : String) (visited : List String) (groups : Groups) {group : ProxyGroup}
    → lookup node groups ≡ some group
    → contains visited node ≡ false
    → fresh (node ∷ visited) groups < fresh visited groups
unfolding fresh
fresh_drop node visited [] h k = cc
fresh_drop node visited ((name, g) ∷ groups) {group} h k = ground (
  arith,
  fresh_mono node visited groups,
  eq_iff name node,
  eq_iff node name,
  fresh_drop node visited groups {group = group},
)

pub fresh-le-length :
    (visited : List String) (groups : Groups) → fresh visited groups ≤ length groups
unfolding fresh
fresh-le-length visited [] = omega arith
fresh-le-length visited ((name, g) ∷ groups) = ground (arith, fresh-le-length visited groups)

walk_total :
    (fuel : ℕ) (groups : Groups) (visited : List String) (node : String) (path : SelectionPath)
    → fresh visited groups < fuel
    → walk fuel groups visited node path ≢ out_of_fuel
unfolding walk
walk_total zero groups visited node path h = elim h [ ]
walk_total (suc fuel) groups visited node path h = elim (Option-cases (lookup node groups)) [
  | inl e ↦ ground (arith, e)
  | inr (group, e) ↦ elim (Option-cases group.now) [
    | inl n ↦ ground (arith, e, n)
    | inr (selected, n) ↦ ground (
      arith,
      e,
      n,
      fresh_drop node visited groups e,
      walk_total fuel groups (node ∷ visited) selected (path ++ (node, selected) ∷ []),
    )
  ]
]

-- The loop ends for every set of groups, also where the selectors form a cycle.
pub search_exit_total : (groups : Groups) → search_exit groups ≢ out_of_fuel
unfolding search_exit
search_exit_total groups = elim (Option-cases (lookup "GLOBAL" groups)) [
  | inl e ↦ ground (arith, e)
  | inr (global, e) ↦ elim (Option-cases global.now) [
    | inl n ↦ ground (arith, e, n)
    | inr (node, n) ↦ ground (
      arith,
      e,
      n,
      fresh-le-length [] groups,
      walk_total (length groups + 1) groups [] node (first_hop global node),
    )
  ]
]

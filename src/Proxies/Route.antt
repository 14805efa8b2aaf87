-- ===== src/Proxies/Route.antt =====
-- Where traffic goes by default, `outbound_chain` of src-tui/src/app/mod.rs.
pub mod Bounds
pub mod Ends
use clash_verge_cli.Prelude.{
  String, not, ◌||◌, Option, none, some, List, [], ◌∷◌, ◌++◌, ℕ, zero, suc, ◌+◌, ltb, if◌then◌else◌,
  length, find, contains, lookup, codes, eq_ignore_ascii_case, ◌>>=◌, ◌>>◌,
}
use clash_verge_cli.Subscribe.Exit.{Groups}
use clash_verge_cli.Proxies.{is_group}

abbrev pub last_of : List String → Option String
last_of [] = none
last_of (x ∷ []) = some x
last_of (x ∷ y ∷ xs) = last_of (y ∷ xs)

-- what a group has selected
abbrev pub selection : Groups → String → Option String
selection groups name = do group ← lookup name groups; group.now

-- the loop of `outbound_chain`; each round adds a name
unfoldable pub extend : ℕ → Groups → List String → List String
extend zero groups chain = chain
extend (suc f) groups chain = elim (last_of chain >>= selection groups) [
  | none ↦ chain
  | some next ↦
      let rest = extend f groups (chain ++ next ∷ []) in
      if not (ltb (length chain) 8) || contains chain next
      then chain
      else if not (is_group groups next)
      then chain ++ next ∷ []
      else rest
]

-- the group that the mode starts from
unfoldable pub start_of : Groups → String → Option String
start_of groups mode =
    if eq_ignore_ascii_case (codes mode) (codes "global")
    then (if is_group groups "GLOBAL" then some "GLOBAL" else none)
    else (do
      global ← lookup "GLOBAL" groups
      names ← global.all_nodes
      find (is_group groups) names)

unfoldable pub outbound_chain : Groups → String → List String
outbound_chain groups mode =
    if eq_ignore_ascii_case (codes mode) (codes "direct")
    then "DIRECT" ∷ []
    else elim (start_of groups mode) [ none ↦ [] | some start ↦ extend 8 groups (start ∷ []) ]

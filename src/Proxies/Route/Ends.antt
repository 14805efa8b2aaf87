-- ===== src/Proxies/Route/Ends.antt =====
-- Where the chain of `outbound_chain` in app/mod.rs ends: the eight rounds are enough.
use clash_verge_cli.Prelude.{
  String, ◌≡◌, true, false, none, some, List, ◌≤◌, length, contains, ◌>>=◌,
}
use clash_verge_cli.Subscribe.Exit.{Groups}
use clash_verge_cli.Proxies.{is_group}
use clash_verge_cli.Proxies.Route.{last_of, selection}

-- The chain is full, its last name has no selection or selects a name of the chain, or it is no group.
pub data IsEnd (groups : Groups) (chain : List String) : Type 0 where
  full : 8 ≤ length chain → IsEnd groups chain
  unselected : (last_of chain >>= selection groups) ≡ none → IsEnd groups chain
  circular :
      (next : String)
      → (last_of chain >>= selection groups) ≡ some next
      → contains chain next ≡ true
      → IsEnd groups chain
  at_node :
      (node : String)
      → last_of chain ≡ some node
      → is_group groups node ≡ false
      → IsEnd groups chain

-- ===== src/Tests/Nodes.antt =====
-- The tests of app/mod.rs on proxies; the lower case of a text is that of ASCII.
use clash_verge_cli.Prelude.{
  ◌≡◌, refl, ◌↔◌, true, none, some, [], ◌∷◌, map, Text, codes, is_whitespace, trim_start, trim_end,
  trim, lowercase, insert_by, sort_by, Member,
}
use clash_verge_cli.Subscribe.Exit.{ProxyGroup, Groups}
use clash_verge_cli.Proxies.Filter.{split_blanks, words, matches, active}
use clash_verge_cli.Proxies.Route.{extend, start_of, outbound_chain}
use clash_verge_cli.Proxies.Rows.{
  delay_order, ProxyListOptions, delay, failed, node_matches, is_shown, sort_nodes, shown_nodes,
}
use clash_verge_cli.Proxies.Rows.Shown.{IsShown, IsOrdered, shown_nodes_lem}

abbrev main : ProxyGroup
main = record {
  group_type = "Selector";
  now = some "Auto";
  all_nodes = some ("Auto" ∷ "Tokyo" ∷ []);
}

abbrev fast : ProxyGroup
fast = record {
  group_type = "URLTest";
  now = some "Tokyo";
  all_nodes = some ("Osaka" ∷ "Tokyo" ∷ "Paris" ∷ []);
}

abbrev groups : Groups
groups =
    ("Main", main)
    ∷ ("Auto", fast)
    ∷ (
      "GLOBAL",
      record { group_type = "Selector"; now = none; all_nodes = some ("DIRECT" ∷ "Main" ∷ []) },
    )
    ∷ []

abbrev circle : Groups
circle =
    (
      "GLOBAL",
      record { group_type = "Selector"; now = some "GLOBAL"; all_nodes = some ("GLOBAL" ∷ []) },
    )
    ∷ []

rule_mode : outbound_chain groups "rule" ≡ "Main" ∷ "Auto" ∷ "Tokyo" ∷ []
unfolding outbound_chain start_of extend
rule_mode = refl

circle_ends : outbound_chain circle "Global" ≡ "GLOBAL" ∷ []
unfolding outbound_chain start_of extend
circle_ends = refl

abbrev ascii_lowercase : Text → Text
ascii_lowercase s = map lowercase s

abbrev options : ProxyListOptions
options = record {
  filter = some (codes "O auto");
  sort = delay_order;
  hide_failed = true;
  delays = some (("Osaka", some 90) ∷ ("Tokyo", some 40) ∷ ("Paris", none) ∷ []);
}

fastest_first : shown_nodes ascii_lowercase options "Auto" fast ≡ "Tokyo" ∷ "Osaka" ∷ []
unfolding shown_nodes is_shown node_matches active matches words split_blanks sort_nodes sort_by
    insert_by failed delay trim trim_start trim_end is_whitespace
fastest_first = refl

shown_nodes_lem_example :
    (Member "Tokyo" (shown_nodes ascii_lowercase options "Auto" fast)
      ↔ IsShown ascii_lowercase options "Auto" fast "Tokyo")
    × IsOrdered ascii_lowercase options "Auto" fast delay_order
        (shown_nodes ascii_lowercase options "Auto" fast)
shown_nodes_lem_example = shown_nodes_lem ascii_lowercase options "Auto" fast "Tokyo"

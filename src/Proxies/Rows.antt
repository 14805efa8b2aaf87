-- ===== src/Proxies/Rows.antt =====
-- The rows of the list of proxies, `proxy_display_rows` of src-tui/src/app/mod.rs.
pub mod Shown
use clash_verge_cli.Prelude.{
  String, Bool, true, false, not, ◌&&◌, ◌||◌, Option, none, some, List, [], ◌∷◌, ◌++◌, map, ◌==◌, ℕ,
  ◌+◌, ◌-◌, ltb, leb, eqb, if◌then◌else◌, is_text, length, any, keep, lookup, Text, codes, sort_by,
  ◌>>=◌, ◌>>◌, bail_if, unwrap_or, is_some,
}
use clash_verge_cli.Subscribe.Exit.{ProxyGroup, Groups}
use clash_verge_cli.Proxies.{has_nodes}
use clash_verge_cli.Proxies.Filter.{matches, active}

pub data ProxyDisplayRow : Type 0 where
  group_row : String → String → Option String → ℕ → ProxyDisplayRow
  node_row : String → String → Bool → ProxyDisplayRow

pub data ProxySort : Type 0 where
  config : ProxySort
  delay_order : ProxySort
  name_order : ProxySort

pub next : ProxySort → ProxySort
next config = delay_order
next delay_order = name_order
next name_order = config

pub record ProxyListOptions : Type 0 where
  pub filter : Option Text
  pub sort : ProxySort
  pub hide_failed : Bool
  pub delays : Option (List (String × Option ℕ))

-- `none` for a node that was not tested, `some none` for one whose test failed
unfoldable pub delay : ProxyListOptions → String → Option (Option ℕ)
delay options node = do delays ← options.delays; lookup node delays

unfoldable pub failed : ProxyListOptions → String → Bool
failed options node = elim (delay options node) [
  | none ↦ false
  | some measured ↦ not (is_some measured)
]

-- the order of texts: by their code points
abbrev pub text_le : Text → Text → Bool
text_le [] t = true
text_le (c ∷ s) [] = false
text_le (c ∷ s) (d ∷ t) = ltb c d || eqb c d && text_le s t

abbrev pub name_le : String → String → Bool
name_le s t = text_le (codes s) (codes t)

-- the order of the groups
abbrev pub group_le : String × ProxyGroup → String × ProxyGroup → Bool
group_le (left, g) (right, h) =
    if left == "GLOBAL" then true else if right == "GLOBAL" then false else name_le left right

-- the key of `sort_by_key`, and its order
abbrev pub delay_key : Option (Option ℕ) → ℕ × ℕ
delay_key (some (some measured)) = (0, measured)
delay_key none = (1, 0)
delay_key (some none) = (2, 0)

abbrev pub key_le : ℕ × ℕ → ℕ × ℕ → Bool
key_le (a, b) (c, d) = ltb a c || eqb a c && leb b d

abbrev pub delay_le : ProxyListOptions → String → String → Bool
delay_le options a b = key_le (delay_key (delay options a)) (delay_key (delay options b))

module _ (to_lowercase : Text → Text) where
  -- the closure `node_matches`
  unfoldable pub node_matches : ProxyListOptions → String → String → Bool
  node_matches options group node = elim (active options.filter) [
    | none ↦ true
    | some query ↦ matches to_lowercase query (codes group ∷ codes node ∷ [])
  ]

  -- the second filter of the groups
  unfoldable pub is_listed : ProxyListOptions → Option String → String × ProxyGroup → Bool
  is_listed options expanded (name, group) =
      not (is_some (active options.filter))
      || (is_text expanded name || any (node_matches options name) (unwrap_or [] group.all_nodes))

  unfoldable pub ordered_groups : Groups → Option String → ProxyListOptions → Groups
  ordered_groups groups expanded options =
      sort_by group_le
        (keep (is_listed options expanded) (keep (λ entry. has_nodes entry.1) groups))

  abbrev row_of_group : String × ProxyGroup → ProxyDisplayRow
  row_of_group (name, group) =
      group_row name group.group_type group.now (length (unwrap_or [] group.all_nodes))

  -- the two filters of the nodes
  unfoldable pub is_shown : ProxyListOptions → String → ProxyGroup → String → Bool
  is_shown options expanded group node =
      node_matches options expanded node
      && (not options.hide_failed || (is_text group.now node || not (failed options node)))

  unfoldable pub sort_nodes : ProxyListOptions → ProxySort → List String → List String
  sort_nodes options config nodes = nodes
  sort_nodes options name_order nodes = sort_by name_le nodes
  sort_nodes options delay_order nodes = sort_by (delay_le options) nodes

  unfoldable pub shown_nodes : ProxyListOptions → String → ProxyGroup → List String
  shown_nodes options expanded group =
      sort_nodes options options.sort
        (keep (is_shown options expanded group) (unwrap_or [] group.all_nodes))

  abbrev row_of_node : String → ProxyGroup → String → ProxyDisplayRow
  row_of_node expanded group name = node_row expanded name (is_text group.now name)

  unfoldable pub node_rows : Groups → Option String → ProxyListOptions → List ProxyDisplayRow
  node_rows groups expanded options = unwrap_or [] (do
    name ← expanded
    group ← lookup name groups
    bail_if (not (has_nodes group))
    some (map (row_of_node name group) (shown_nodes options name group)))

  unfoldable pub proxy_display_rows :
      Groups → Option String → ProxyListOptions → List ProxyDisplayRow
  proxy_display_rows groups expanded options =
      map row_of_group (ordered_groups groups expanded options) ++ node_rows groups expanded options

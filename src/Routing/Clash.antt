-- ===== src/Routing/Clash.antt =====
-- The rules of a clash configuration, src-tui/src/routing.rs: `from_clash_rule_str` reads a rule and
-- `to_clash_rule_str` writes it.
pub mod Fields
pub mod Written
pub mod Reread
pub mod Lost
use clash_verge_cli.Prelude.{
  Bool, not, ◌&&◌, ◌||◌, Option, none, some, List, [], ◌∷◌, ◌++◌, map, ℕ, ◌+◌, ◌-◌, ltb, eqb,
  if◌then◌else◌, length, any, Text, codes, text_eq, split, join, trim, eq_ignore_ascii_case,
  print_u16, parse_u16, ◌>>=◌, ◌>>◌, bail_if, unwrap_or, is_some,
}
use clash_verge_cli.Routing.{
  GeoKind, ip, site, clash_header, MatchField, domain, domain_suffix, domain_keyword, ip_cidr, port,
  process, rule_set, geo_set, RuleTarget, outbound, direct, block, IRouteRule, simple, logical, raw,
}
use clash_verge_cli.Routing.Geo.{classify_geo_value}

unfoldable pub target_to_clash_str : RuleTarget → Text
target_to_clash_str (outbound name) = name
target_to_clash_str direct = codes "DIRECT"
target_to_clash_str block = codes "REJECT"

unfoldable pub target_from_clash_str : Text → Option RuleTarget
target_from_clash_str s = some (
    if text_eq s (codes "DIRECT")
    then direct
    else if text_eq s (codes "REJECT")
    then block
    else outbound s)

-- `format!("{kind},{value}")`
abbrev pub pair : Text → Text → Text
pair kind value = kind ++ b',' ∷ value

-- The kind of a field in a rule, and its value.
abbrev pub field_header : MatchField → Text
field_header (domain v) = codes "DOMAIN"
field_header (domain_suffix v) = codes "DOMAIN-SUFFIX"
field_header (domain_keyword v) = codes "DOMAIN-KEYWORD"
field_header (ip_cidr v) = codes "IP-CIDR"
field_header (port v) = codes "DST-PORT"
field_header (process v) = codes "PROCESS-NAME"
field_header (rule_set v) = codes "RULE-SET"
field_header (geo_set kind v) = clash_header kind

unfoldable pub field_to_clash_str : MatchField → Option Text
field_to_clash_str (domain v) = some (pair (codes "DOMAIN") v)
field_to_clash_str (domain_suffix v) = some (pair (codes "DOMAIN-SUFFIX") v)
field_to_clash_str (domain_keyword v) = some (pair (codes "DOMAIN-KEYWORD") v)
field_to_clash_str (ip_cidr v) = some (pair (codes "IP-CIDR") v)
field_to_clash_str (port v) = some (pair (codes "DST-PORT") (print_u16 v))
field_to_clash_str (process v) = some (pair (codes "PROCESS-NAME") v)
field_to_clash_str (rule_set v) = some (pair (codes "RULE-SET") v)
field_to_clash_str (geo_set kind value) = some (pair (clash_header kind) value)

abbrev pub tolerated_modifiers : List Text
tolerated_modifiers = codes "no-resolve" ∷ []

unfoldable pub is_modifier : Text → Bool
is_modifier part = any (eq_ignore_ascii_case part) tolerated_modifiers

-- the loop of `split_clash_rule`: the fields and the modifiers of the parts from an index on
unfoldable pub sort_parts : ℕ → List Text → List Text × List Text
sort_parts index [] = ([], [])
sort_parts index (part ∷ parts) =
    let (fields, modifiers) = sort_parts (index + 1) parts in
    if is_modifier part && ltb 0 index
    then (fields, part ∷ modifiers)
    else (part ∷ fields, modifiers)

unfoldable pub split_clash_rule : Text → List Text × List Text
split_clash_rule rule = sort_parts 0 (map trim (split b',' rule))

-- `parts.pop()`: the parts that are left and the last one
unfoldable pub pop : List Text → Option (List Text × Text)
pop [] = none
pop (part ∷ []) = some ([], part)
pop (part ∷ q ∷ parts) = do (rest, last) ← pop (q ∷ parts); some (part ∷ rest, last)

abbrev pub first_part : List Text → Text
first_part [] = []
first_part (part ∷ parts) = part

abbrev pub is_exotic : Text → Bool
is_exotic kind =
    text_eq kind (codes "SUB-RULE")
    || (text_eq kind (codes "AND") || (text_eq kind (codes "OR") || text_eq kind (codes "NOT")))

module _ (published_geo_names : GeoKind → List Text) where
  pub geo_field : GeoKind → Text → Option MatchField
  geo_field kind value = do
    bail_if (not (is_some (classify_geo_value published_geo_names kind value)))
    some (geo_set kind value)

  unfoldable pub field_from_clash_str : Text → Text → Option MatchField
  field_from_clash_str kind value =
      if text_eq kind (codes "DOMAIN")
      then some (domain value)
      else if text_eq kind (codes "DOMAIN-SUFFIX")
      then some (domain_suffix value)
      else if text_eq kind (codes "DOMAIN-KEYWORD")
      then some (domain_keyword value)
      else if text_eq kind (codes "IP-CIDR") || text_eq kind (codes "IP-CIDR6")
      then some (ip_cidr value)
      else if text_eq kind (codes "DST-PORT")
      then (do some (port (← parse_u16 value)))
      else if text_eq kind (codes "PROCESS-NAME")
      then some (process value)
      else if text_eq kind (codes "RULE-SET")
      then some (rule_set value)
      else if text_eq kind (codes "GEOIP")
      then geo_field ip value
      else if text_eq kind (codes "GEOSITE")
      then geo_field site value
      else none

  -- `from_clash_rule_str` on the fields of the rule; `none` where the text is kept as it is
  unfoldable pub from_fields : List Text → Option IRouteRule
  from_fields parts = do
    bail_if (ltb (length parts) 2 || is_exotic (first_part parts))
    (parts, target) ← pop parts
    target ← target_from_clash_str target
    bail_if (not (eqb (length parts) 2))
    (parts, value) ← pop parts
    field ← field_from_clash_str (first_part parts) value
    some (simple (field ∷ []) target)

  unfoldable pub from_clash_rule_str : Text → IRouteRule
  from_clash_rule_str rule = unwrap_or (raw rule) (from_fields (split_clash_rule rule).0)

-- `flat_map(|s| s.split(',')…)` after `filter_map`
unfoldable pub clash_parts : List MatchField → List Text
clash_parts [] = []
clash_parts (field ∷ fields) =
    elim (field_to_clash_str field) [ none ↦ [] | some s ↦ split b',' s ] ++ clash_parts fields

unfoldable pub to_clash_rule_str : IRouteRule → Text
to_clash_rule_str (raw rule) = rule
to_clash_rule_str (simple matches target) =
    join b',' (clash_parts matches ++ target_to_clash_str target ∷ [])
to_clash_rule_str (logical op rules target) = []

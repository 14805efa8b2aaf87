-- ===== src/Singbox/Dns/Lines.antt =====
-- The lines of the DNS editor, `parse_server_spec` and `parse_rule_spec` of dns.rs.
use clash_verge_cli.Prelude.{
  not, Option, none, some, List, [], ◌∷◌, map, ℕ, zero, suc, if◌then◌else◌, is_empty, keep, Text,
  codes, text_eq, split, split_once, trim, parse_u16, ◌>>=◌, ◌>>◌, bail_if,
}
use clash_verge_cli.Singbox.Dns.{
  DnsServerKind, parse_kind, is_remote, DnsServerSpec, DnsRuleSpec, rule_is_empty,
}

-- `split('|').map(str::trim)`
abbrev trimmed_parts : ℕ → Text → List Text
trimmed_parts c line = map trim (split c line)

-- `parts.get(n).filter(|v| !v.is_empty())`
abbrev pub filled : ℕ → List Text → Option Text
filled n [] = none
filled zero (part ∷ parts) = if is_empty part then none else some part
filled (suc n) (part ∷ parts) = filled n parts

-- an optional part that has to be a port
unfoldable pub port_of : Option Text → Option (Option ℕ)
port_of none = some none
port_of (some port) = do some (some (← parse_u16 port))

abbrev pub bare_server : DnsServerKind → Text → DnsServerSpec
bare_server kind tag = record {
  tag = tag;
  kind = kind;
  server = none;
  server_port = none;
  path = none;
  detour = none;
  tls_insecure = none;
  inet4_range = none;
  inet6_range = none;
}

-- `parse_server_spec` on the trimmed parts
unfoldable pub server_of_parts : List Text → Option DnsServerSpec
server_of_parts (kind ∷ tag ∷ rest) = do
  kind ← parse_kind kind
  bail_if (is_empty tag)
  if is_remote kind
      then (do
        address ← filled 0 rest
        port ← port_of (filled 1 rest)
        some (record (bare_server kind tag) {
          server = some address;
          server_port = port;
          detour = filled 2 rest;
        }))
      else some (bare_server kind tag)
server_of_parts parts = none

unfoldable pub parse_server_spec : Text → Option DnsServerSpec
parse_server_spec line = server_of_parts (trimmed_parts b'|' line)

-- the values of one segment
unfoldable pub values_of : Text → List Text
values_of values = keep (λ v. not (is_empty v)) (trimmed_parts b',' values)

-- `match kind.trim()`
unfoldable pub add_condition : Text → List Text → DnsRuleSpec → Option DnsRuleSpec
add_condition kind values r =
    if text_eq kind (codes "suffix")
    then some (record r { domain_suffix = values })
    else if text_eq kind (codes "keyword")
    then some (record r { domain_keyword = values })
    else if text_eq kind (codes "cidr")
    then some (record r { ip_cidr = values })
    else none

-- the loop over the segments
unfoldable pub add_segments : List Text → DnsRuleSpec → Option DnsRuleSpec
add_segments [] r = some r
add_segments (part ∷ parts) r = do
  (kind, values) ← split_once b'=' part
  r ← add_condition (trim kind) (values_of values) r
  add_segments parts r

unfoldable pub rule_of_parts : List Text → Option DnsRuleSpec
rule_of_parts [] = none
rule_of_parts (tag ∷ parts) = do
  bail_if (is_empty tag)
  r ← add_segments parts (record {
    server = tag;
    query_type = [];
    domain_suffix = [];
    domain_keyword = [];
    ip_cidr = [];
  })
  bail_if (rule_is_empty r)
  some r

unfoldable pub parse_rule_spec : Text → Option DnsRuleSpec
parse_rule_spec line = rule_of_parts (trimmed_parts b'|' line)

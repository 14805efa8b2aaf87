-- ===== src/Tests/Resolvers.antt =====
-- The tests of dns.rs; a text of digits and dots is taken for an IP address.
use clash_verge_cli.Prelude.{
  ◌≡◌, refl, ◌↔◌, Bool, false, ◌||◌, none, some, [], ◌∷◌, eqb, all, Text, codes, split, split_once,
  is_digit, is_whitespace, trim_start, trim_end, trim, parse_u16,
}
use clash_verge_cli.Singbox.Dns.{
  https, local, fakeip, as_str, parse_kind, DnsServerSpec, DnsRuleSpec, DnsConfigSpec,
  fakeip_resolver, check_servers, check_upstream, check_resolver, check_final, check_rules,
  validate, DnsEntry, DnsSection, built, resolver_for, remote_entry, bare_entry, fakeip_entry,
  entry_of, build_dns_section,
}
use clash_verge_cli.Singbox.Dns.Valid.{IsValidSpec}
use clash_verge_cli.Singbox.Dns.Accepted.{validate_iff}
use clash_verge_cli.Singbox.Dns.Section.{IsClosed, build_dns_section-IsClosed}
use clash_verge_cli.Singbox.Dns.Lines.{
  port_of, bare_server, server_of_parts, parse_server_spec, values_of, add_condition, add_segments,
  rule_of_parts, parse_rule_spec,
}

abbrev is_ip : Text → Bool
is_ip s = all (λ c. is_digit c || eqb c b'.') s

abbrev local_server : DnsServerSpec
local_server = bare_server local (codes "sys")

abbrev remote_server : DnsServerSpec
remote_server = record (bare_server https (codes "doh")) {
  server = some (codes "dns.example");
  server_port = some 443;
  detour = some (codes "proxy");
}

abbrev fake_server : DnsServerSpec
fake_server = bare_server fakeip (codes "fake")

abbrev ads : DnsRuleSpec
ads = record {
  server = codes "doh";
  query_type = [];
  domain_suffix = codes "a.com" ∷ codes "b" ∷ [];
  domain_keyword = codes "x" ∷ [];
  ip_cidr = [];
}

abbrev settings : DnsConfigSpec
settings = record {
  servers = remote_server ∷ local_server ∷ fake_server ∷ [];
  rules = ads ∷ [];
  domain_resolver = some (codes "sys");
  final_server = some (codes "doh");
}

abbrev entry : DnsEntry
entry = record {
  tag = codes "doh";
  kind = codes "https";
  server = some (codes "dns.example");
  server_port = some 443;
  path = none;
  detour = some (codes "proxy");
  insecure = false;
  domain_resolver = some (codes "sys");
  inet4_range = none;
  inet6_range = none;
}

abbrev local_entry : DnsEntry
local_entry = record {
  tag = codes "sys";
  kind = codes "local";
  server = none;
  server_port = none;
  path = none;
  detour = none;
  insecure = false;
  domain_resolver = none;
  inet4_range = none;
  inet6_range = none;
}

abbrev fake_entry : DnsEntry
fake_entry = record local_entry {
  tag = codes "fake";
  kind = codes "fakeip";
  inet4_range = some (codes "198.18.0.0/15");
  inet6_range = some (codes "fc00::/18");
}

abbrev section : DnsSection
section = record {
  servers = entry ∷ local_entry ∷ fake_entry ∷ [];
  rules = ads ∷ [];
  final = some (codes "doh");
}

section_built : build_dns_section is_ip settings ≡ built section
unfolding build_dns_section validate check_servers check_resolver check_final check_upstream
    check_rules entry_of remote_entry bare_entry fakeip_entry resolver_for as_str
section_built = refl

fake_resolver_refused :
    validate (record settings { domain_resolver = some (codes "fake") }) ≡ some fakeip_resolver
unfolding validate check_servers check_resolver check_upstream
fake_resolver_refused = refl

server_line : parse_server_spec (codes "https|doh|dns.example|443| proxy") ≡ some remote_server
unfolding parse_server_spec server_of_parts parse_kind port_of parse_u16 split trim trim_start
    trim_end is_whitespace
server_line = refl

rule_line : parse_rule_spec (codes "doh|suffix=a.com, b|keyword=x") ≡ some ads
unfolding parse_rule_spec rule_of_parts add_segments add_condition values_of split split_once trim
    trim_start trim_end is_whitespace
rule_line = refl

validate_iff_example : (validate settings ≡ none) ↔ IsValidSpec settings
validate_iff_example = validate_iff settings

build_dns_section-IsClosed_example : IsClosed section
build_dns_section-IsClosed_example = build_dns_section-IsClosed is_ip settings section section_built

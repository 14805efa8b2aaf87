-- ===== src/Singbox/Dns.antt =====
-- The DNS settings for sing-box, src-tui/src/singbox/dns.rs. Texts are lists of code points; the test
-- whether a text is an IP address is an argument. A JSON object is the record of its keys, with
-- `none` where a key is missing.
pub mod Valid
pub mod Accepted
pub mod Section
pub mod Lines
use clash_verge_cli.Prelude.{
  Bool, true, false, not, ◌&&◌, ◌||◌, Option, none, some, List, [], ◌∷◌, map, ℕ, ◌-◌, ◌/◌,
  if◌then◌else◌, any, is_empty, find, Text, codes, text_eq, ◌>>=◌, ◌>>◌, bail_if, unwrap_or,
  is_some, or_else,
}

pub data DnsServerKind : Type 0 where
  udp : DnsServerKind
  tls : DnsServerKind
  https : DnsServerKind
  quic : DnsServerKind
  h3 : DnsServerKind
  local : DnsServerKind
  fakeip : DnsServerKind

-- `DnsServerKind::as_str` and `DnsServerKind::parse`
unfoldable pub as_str : DnsServerKind → Text
as_str udp = codes "udp"
as_str tls = codes "tls"
as_str https = codes "https"
as_str quic = codes "quic"
as_str h3 = codes "h3"
as_str local = codes "local"
as_str fakeip = codes "fakeip"

unfoldable pub parse_kind : Text → Option DnsServerKind
parse_kind kind =
    if text_eq kind (codes "udp")
    then some udp
    else if text_eq kind (codes "tls")
    then some tls
    else if text_eq kind (codes "https")
    then some https
    else if text_eq kind (codes "quic")
    then some quic
    else if text_eq kind (codes "h3")
    then some h3
    else if text_eq kind (codes "local")
    then some local
    else if text_eq kind (codes "fakeip")
    then some fakeip
    else none

abbrev pub is_remote : DnsServerKind → Bool
is_remote local = false
is_remote fakeip = false
is_remote kind = true

abbrev pub is_tls : DnsServerKind → Bool
is_tls tls = true
is_tls https = true
is_tls quic = true
is_tls h3 = true
is_tls kind = false

-- `https` and `h3` take a path
abbrev pub takes_path : DnsServerKind → Bool
takes_path https = true
takes_path h3 = true
takes_path kind = false

abbrev pub is_fakeip : DnsServerKind → Bool
is_fakeip fakeip = true
is_fakeip kind = false

pub record DnsServerSpec : Type 0 where
  pub tag : Text
  pub kind : DnsServerKind
  pub server : Option Text
  pub server_port : Option ℕ
  pub path : Option Text
  pub detour : Option Text
  pub tls_insecure : Option Bool
  pub inet4_range : Option Text
  pub inet6_range : Option Text

pub record DnsRuleSpec : Type 0 where
  pub server : Text
  pub query_type : List Text
  pub domain_suffix : List Text
  pub domain_keyword : List Text
  pub ip_cidr : List Text

-- `DnsRuleSpec::is_empty`
abbrev pub rule_is_empty : DnsRuleSpec → Bool
rule_is_empty r =
    is_empty r.query_type
    && (is_empty r.domain_suffix && (is_empty r.domain_keyword && is_empty r.ip_cidr))

pub record DnsConfigSpec : Type 0 where
  pub servers : List DnsServerSpec
  pub rules : List DnsRuleSpec
  pub domain_resolver : Option Text
  pub final_server : Option Text

-- `DnsConfigSpec::is_empty`
abbrev pub spec_is_empty : DnsConfigSpec → Bool
spec_is_empty spec = is_empty spec.servers && is_empty spec.rules

-- The errors of `validate`, without their wording
pub data Refusal : Type 0 where
  bad_tag : Text → Refusal
  no_address : Text → Refusal
  path_unsupported : Text → Refusal
  tls_unsupported : Text → Refusal
  unknown_resolver : Text → Refusal
  fakeip_resolver : Refusal
  unknown_final : Text → Refusal
  fakeip_final : Refusal
  fakeip_default : Refusal
  empty_rule : Text → Refusal
  unknown_target : Text → Refusal

abbrev pub refuse_if : Bool → Refusal → Option Refusal
refuse_if true refusal = some refusal
refuse_if false refusal = none

abbrev pub contains_text : List Text → Text → Bool
contains_text texts s = any (λ t. text_eq t s) texts

-- the loop over the servers, with the tags that were seen
unfoldable pub check_servers : List Text → List DnsServerSpec → Option Refusal
check_servers seen [] = none
check_servers seen (s ∷ servers) =
    or_else (refuse_if (is_empty s.tag || contains_text seen s.tag) (bad_tag s.tag)) (
      or_else (refuse_if (is_remote s.kind && is_empty (unwrap_or [] s.server)) (no_address s.tag))
        (or_else (refuse_if (is_some s.path && not (takes_path s.kind)) (path_unsupported s.tag)) (
          or_else
            (refuse_if (is_some s.tls_insecure && not (is_tls s.kind)) (tls_unsupported s.tag))
            (check_servers (s.tag ∷ seen) servers))))

-- `servers.iter().find(|server| &server.tag == tag)`
abbrev pub find_server : Text → List DnsServerSpec → Option DnsServerSpec
find_server tag servers = find (λ (s : DnsServerSpec). text_eq s.tag tag) servers

-- the tag is that of a server which is no pool of fake addresses
unfoldable pub check_upstream : List DnsServerSpec → Text → Refusal → Refusal → Option Refusal
check_upstream servers tag unknown fake = elim (find_server tag servers) [
  | none ↦ some unknown
  | some s ↦ refuse_if (is_fakeip s.kind) fake
]

unfoldable pub check_resolver : List DnsServerSpec → Option Text → Option Refusal
check_resolver servers none = none
check_resolver servers (some resolver) =
    check_upstream servers resolver (unknown_resolver resolver) fakeip_resolver

abbrev pub starts_with_fakeip : List DnsServerSpec → Bool
starts_with_fakeip [] = false
starts_with_fakeip (s ∷ servers) = is_fakeip s.kind

unfoldable pub check_final : List DnsServerSpec → Option Text → Option Refusal
check_final servers none = refuse_if (starts_with_fakeip servers) fakeip_default
check_final servers (some final) = check_upstream servers final (unknown_final final) fakeip_final

unfoldable pub check_rules : List Text → List DnsRuleSpec → Option Refusal
check_rules tags [] = none
check_rules tags (r ∷ rules) = or_else (refuse_if (rule_is_empty r) (empty_rule r.server)) (
    or_else (refuse_if (not (contains_text tags r.server)) (unknown_target r.server))
      (check_rules tags rules))

abbrev pub tags_of : List DnsServerSpec → List Text
tags_of servers = map (λ (s : DnsServerSpec). s.tag) servers

-- `DnsConfigSpec::validate`; `none` is `Ok(())`
unfoldable pub validate : DnsConfigSpec → Option Refusal
validate spec = or_else (check_servers [] spec.servers) (
    or_else (check_resolver spec.servers spec.domain_resolver) (
      or_else (check_final spec.servers spec.final_server)
        (check_rules (tags_of spec.servers) spec.rules)))

-- `default_domain_resolver`
unfoldable pub default_domain_resolver : DnsConfigSpec → Option Text
default_domain_resolver spec = do
  tag ← spec.domain_resolver
  if any (λ (s : DnsServerSpec). text_eq s.tag tag && not (is_fakeip s.kind)) spec.servers
      then some tag
      else none

-- One object of `servers` in the section
pub record DnsEntry : Type 0 where
  pub tag : Text
  pub kind : Text
  pub server : Option Text
  pub server_port : Option ℕ
  pub path : Option Text
  pub detour : Option Text
  pub insecure : Bool
  pub domain_resolver : Option Text
  pub inet4_range : Option Text
  pub inet6_range : Option Text

-- The section; a list of a rule that is empty stands for a key that is missing.
pub record DnsSection : Type 0 where
  pub servers : List DnsEntry
  pub rules : List DnsRuleSpec
  pub final : Option Text

pub data Built : Type 0 where
  nothing : Built
  refused : Refusal → Built
  built : DnsSection → Built

-- A detour that is empty is left out.
abbrev detour_of : Option Text → Option Text
detour_of none = none
detour_of (some detour) = if is_empty detour then none else some detour

module _ (is_ip : Text → Bool) where
  -- a server that is reached by its name is told which other server resolves the name
  unfoldable pub resolver_for : Option Text → DnsServerSpec → Option Text
  resolver_for resolver s = do
    server ← s.server
    resolver ← resolver
    bail_if (is_ip server || text_eq resolver s.tag)
    some resolver

  unfoldable pub remote_entry : Option Text → DnsServerSpec → DnsEntry
  remote_entry resolver s = record {
    tag = s.tag;
    kind = as_str s.kind;
    server = some (unwrap_or [] s.server);
    server_port = s.server_port;
    path = s.path;
    detour = detour_of s.detour;
    insecure = is_tls s.kind && unwrap_or false s.tls_insecure;
    domain_resolver = resolver_for resolver s;
    inet4_range = none;
    inet6_range = none;
  }

  unfoldable pub bare_entry : DnsServerSpec → DnsEntry
  bare_entry s = record {
    tag = s.tag;
    kind = as_str s.kind;
    server = none;
    server_port = none;
    path = none;
    detour = none;
    insecure = false;
    domain_resolver = none;
    inet4_range = none;
    inet6_range = none;
  }

  unfoldable pub fakeip_entry : DnsServerSpec → DnsEntry
  unfolding bare_entry
  fakeip_entry s = record (bare_entry s) {
    inet4_range = some (unwrap_or (codes "198.18.0.0/15") s.inet4_range);
    inet6_range = some (unwrap_or (codes "fc00::/18") s.inet6_range);
  }

  -- the body of the loop over the servers
  unfoldable pub entry_of : Option Text → DnsServerSpec → DnsEntry
  entry_of resolver s =
      if is_remote s.kind
      then remote_entry resolver s
      else if is_fakeip s.kind
      then fakeip_entry s
      else bare_entry s

  unfoldable pub build_dns_section : DnsConfigSpec → Built
  unfolding entry_of remote_entry bare_entry fakeip_entry
  build_dns_section spec = if spec_is_empty spec then nothing else elim (validate spec) [
    | some refusal ↦ refused refusal
    | none ↦ built (record {
      servers = map (entry_of spec.domain_resolver) spec.servers;
      rules = spec.rules;
      final = spec.final_server;
    })
  ]

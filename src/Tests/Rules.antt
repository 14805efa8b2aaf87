-- ===== src/Tests/Rules.antt =====
-- The tests of routing.rs on clash rules, with short lists of published names.
use clash_verge_cli.Prelude.{
  ◌≡◌, refl, true, false, List, [], ◌∷◌, arith, Text, codes, split, join, Lacks, is_whitespace,
  trim_start, trim_end, trim, IsVisible,
}
use clash_verge_cli.Routing.{GeoKind, domain_suffix, direct, block, simple, raw}
use clash_verge_cli.Routing.Clash.{
  target_to_clash_str, target_from_clash_str, field_to_clash_str, is_modifier, sort_parts,
  split_clash_rule, pop, field_from_clash_str, from_fields, from_clash_rule_str, clash_parts,
  to_clash_rule_str,
}
use clash_verge_cli.Routing.Clash.Fields.{IsPlain}
use clash_verge_cli.Routing.Clash.Written.{IsPart, visible-IsPlain}
use clash_verge_cli.Routing.Clash.Reread.{reread}
use clash_verge_cli.Routing.Clash.Lost.{modifier_lost}

abbrev names : GeoKind → List Text
names kind = codes "cn" ∷ []

sub_rule_kept :
    from_clash_rule_str names (codes "SUB-RULE,(NETWORK,tcp),DIRECT")
    ≡ raw (codes "SUB-RULE,(NETWORK,tcp),DIRECT")
unfolding from_clash_rule_str from_fields split_clash_rule sort_parts is_modifier split trim
    trim_start trim_end is_whitespace
sub_rule_kept = refl

suffix_read :
    from_clash_rule_str names (codes "DOMAIN-SUFFIX, a.b ,DIRECT")
    ≡ simple (domain_suffix (codes "a.b") ∷ []) direct
unfolding from_clash_rule_str from_fields split_clash_rule sort_parts is_modifier split trim
    trim_start trim_end is_whitespace pop target_from_clash_str field_from_clash_str
suffix_read = refl

suffix_written :
    to_clash_rule_str (simple (domain_suffix (codes "a.b") ∷ []) block)
    ≡ codes "DOMAIN-SUFFIX,a.b,REJECT"
unfolding to_clash_rule_str clash_parts field_to_clash_str split join target_to_clash_str
suffix_written = refl

part : (s : Text) → Lacks b',' s → IsVisible s → is_modifier s ≡ false → IsPart s
part s h v m = record { plain = visible-IsPlain s h v; no_modifier = m }

network-IsPart : IsPart (codes "fc00::/18")
unfolding is_whitespace is_modifier
network-IsPart = part (codes "fc00::/18") (omega arith) (ground arith) refl

proxy-IsPart : IsPart (codes "PROXY")
unfolding is_whitespace is_modifier
proxy-IsPart = part (codes "PROXY") (omega arith) (ground arith) refl

no_resolve-IsPlain : IsPlain (codes "no-resolve")
unfolding is_whitespace
no_resolve-IsPlain = visible-IsPlain (codes "no-resolve") (omega arith) (ground arith)

no_resolve-is_modifier : is_modifier (codes "no-resolve") ≡ true
unfolding is_modifier
no_resolve-is_modifier = refl

reread_example :
    from_clash_rule_str names
      (to_clash_rule_str (from_clash_rule_str names (codes "DST-PORT,+0443,PROXY,no-resolve")))
    ≡ from_clash_rule_str names (codes "DST-PORT,+0443,PROXY,no-resolve")
reread_example = reread names (codes "DST-PORT,+0443,PROXY,no-resolve")

modifier_lost_example :
    to_clash_rule_str (
      from_clash_rule_str names (
        join b',' (codes "IP-CIDR6" ∷ codes "fc00::/18" ∷ codes "PROXY" ∷ codes "no-resolve" ∷ [])))
    ≡ join b',' (codes "IP-CIDR" ∷ codes "fc00::/18" ∷ codes "PROXY" ∷ [])
modifier_lost_example =
    modifier_lost names (codes "fc00::/18") (codes "PROXY") (codes "no-resolve") network-IsPart
      proxy-IsPart no_resolve-IsPlain no_resolve-is_modifier

-- ===== src/Tests/Mappings.antt =====
-- The overlay of mappings, and rule fragments, on trees.
use clash_verge_cli.Prelude.{String, ◌≡◌, refl, ◌≢◌, ◌↔◌, ◌⊎◌, none, some, List, [], ◌∷◌}
use clash_verge_cli.Yaml.Access.{as_mapping, get_key}
use clash_verge_cli.Yaml.Merge.{merge_unknown_fields, merge_mapping_values}
use clash_verge_cli.Yaml.Merge.Decided.{IsDecided, Always, IsFilled, overlays-IsDecided}
use clash_verge_cli.Chain.{
  RulesFragment, patch, whole_list, parse_rules_fragment, apply_rules_fragment,
}
use clash_verge_cli.Chain.Accepted.{IsFragment, parse_rules_fragment_iff}
use clash_verge_cli.Chain.Dns.{apply_dns_override, HasSection, IsOverlaid, apply_dns_override_lem}
use clash_verge_cli.Chain.Applied.{IsChanged, HasRules, apply_rules_fragment_lem}
use clash_verge_cli.Tests.Trees.{trees}
open trees use {
  Value, Mapping, kind, of_string, of_sequence, of_mapping, insert, get, empty, entries,
}

abbrev dns : String → String → Mapping
dns key value =
    insert (of_string "dns") (of_mapping (insert (of_string key) (of_string value) empty)) empty

overlays-IsDecided_example :
    IsDecided trees
      (Always trees)
      (merge_unknown_fields trees)
      (get (of_string "dns") (dns "enable" "true"))
      (get (of_string "dns") (dns "ipv6" "false"))
      (get
        (of_string "dns")
        (merge_unknown_fields trees (dns "enable" "true") (dns "ipv6" "false")))
    × IsDecided trees
        (IsFilled trees)
        (merge_mapping_values trees)
        (get (of_string "dns") (dns "enable" "true"))
        (get (of_string "dns") (dns "ipv6" "false"))
        (get
          (of_string "dns")
          (merge_mapping_values trees (dns "enable" "true") (dns "ipv6" "false")))
overlays-IsDecided_example =
    overlays-IsDecided trees (dns "enable" "true") (dns "ipv6" "false") (of_string "dns")

abbrev settings : Mapping
settings = insert (of_string "ipv6") (of_string "false") empty

settings_filled : entries settings ≢ []
unfolding trees
settings_filled = λ e. cc

not_the_dns : of_string "dns" ≢ of_mapping empty
unfolding trees
not_the_dns = λ e. cc

apply_dns_override_lem_example :
    ((value : Value) × (get_key trees "dns" (dns "enable" "true") ≡ some value)
      × (as_mapping trees value ≡ none)
      × (apply_dns_override trees (dns "enable" "true") settings ≡ none))
    ⊎ ((section : Mapping) × HasSection trees (dns "enable" "true") section
        × ((config : Mapping) × (apply_dns_override trees (dns "enable" "true") settings
              ≡ some config)
            × IsOverlaid trees (of_mapping empty) (dns "enable" "true") section settings config))
apply_dns_override_lem_example =
    apply_dns_override_lem trees (dns "enable" "true") settings (of_mapping empty) not_the_dns
      settings_filled

abbrev new_rule : Value
new_rule = of_sequence (of_string "MATCH,DIRECT" ∷ [])

reads_fragment : parse_rules_fragment trees new_rule ≡ some (whole_list ("MATCH,DIRECT" ∷ []))
unfolding parse_rules_fragment trees
reads_fragment = refl

parse_rules_fragment_iff_example :
    ((fragment : RulesFragment) × (parse_rules_fragment trees new_rule ≡ some fragment))
    ↔ IsFragment trees (kind new_rule)
parse_rules_fragment_iff_example = parse_rules_fragment_iff trees new_rule

abbrev direct_first : RulesFragment
direct_first = patch ("DOMAIN,a.example,DIRECT" ∷ []) [] ("MATCH,PROXY" ∷ [])

not_the_rules : of_string "rules" ≢ of_mapping empty
unfolding trees
not_the_rules = λ e. cc

apply_rules_fragment_lem_example :
    ((old : List Value) × (new : List Value) × HasRules trees (dns "enable" "true") old
      × IsChanged trees direct_first old new
      × (get (of_string "rules") (apply_rules_fragment trees (dns "enable" "true") direct_first)
          ≡ some (of_sequence new)))
    × (get (of_mapping empty) (apply_rules_fragment trees (dns "enable" "true") direct_first)
        ≡ get (of_mapping empty) (dns "enable" "true"))
apply_rules_fragment_lem_example =
    apply_rules_fragment_lem trees (dns "enable" "true") direct_first (of_mapping empty)
      not_the_rules

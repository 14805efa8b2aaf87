-- ===== src/Tests/Outbounds.antt =====
-- A config with one outbound, over any YAML values.
use clash_verge_cli.Prelude.{String, ◌≡◌, refl, sym, ◌∙◌, ◌≢◌, true, [], ◌∷◌, eq_refl}
use clash_verge_cli.Yaml.{Kind, tagged, Yaml}
use clash_verge_cli.Subscribe.Refresh.{config_contains_node}
use clash_verge_cli.Tests.Trees.{trees}

abbrev pub sample : Yaml
sample = trees

-- The config of a file has one outbound, named by the content of the file.
module _ (Y : Yaml) where
  open Y use {
    Mapping, Value, kind, untag, of_string, of_sequence, of_mapping, insert, get, empty,
    kind-of_string, kind-of_sequence, kind-of_mapping, untag_plain, get-insert_self,
  }

  abbrev tag_of : String → Mapping
  tag_of name = insert (of_string "tag") (of_string name) empty

  abbrev pub one_outbound : String → Mapping
  one_outbound name =
      insert (of_string "outbounds") (of_sequence (of_mapping (tag_of name) ∷ [])) empty

  untagged : (v : Value) {k : Kind Value Mapping} → kind v ≡ k → k ≢ tagged → untag v ≡ v
  untagged v e ne = untag_plain v (λ h. ne (sym e ∙ h))

  pub names_outbound : (name : String) → config_contains_node Y (one_outbound name) name ≡ true
  unfolding config_contains_node
  names_outbound name =
      let vs = of_mapping (tag_of name) ∷ [] in
      let ks = kind-of_sequence vs in
      let km = kind-of_mapping (tag_of name) in
      let kt = kind-of_string name in
      rw
        (
          get-insert_self (of_string "outbounds") (of_sequence vs) empty,
          untagged (of_sequence vs) ks (λ h. cc),
          ks,
          untagged (of_mapping (tag_of name)) km (λ h. cc),
          km,
          get-insert_self (of_string "tag") (of_string name) empty,
          untagged (of_string name) kt (λ h. cc),
          kt,
          eq_refl name,
          config_contains_node,
        )
        refl

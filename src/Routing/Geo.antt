-- ===== src/Routing/Geo.antt =====
-- `classify_geo_value` of src-tui/src/singbox/convert.rs: whether a geo reference of a rule has a
-- form for sing-box. The lists of the published names are an argument.
use clash_verge_cli.Prelude.{
  Bool, false, ◌||◌, Option, none, some, List, [], ◌∷◌, ◌++◌, map, eqb, if◌then◌else◌, any,
  is_empty, Text, codes, text_eq, starts_with, trim, lowercase,
}
use clash_verge_cli.Routing.{GeoKind, ip, site}

pub data GeoValueMatch : Type 0 where
  rule_set_tag : Text → GeoValueMatch
  private_networks : GeoValueMatch

pub tag_prefix : GeoKind → Text
tag_prefix ip = codes "geoip"
tag_prefix site = codes "geosite"

abbrev contains_text : Text → List Text → Bool
contains_text s = any (λ t. text_eq t s)

abbrev private_ip_geo_values : List Text
private_ip_geo_values = codes "lan" ∷ codes "private" ∷ codes "local" ∷ []

abbrev geosite_pseudo_values : List (Text × Text)
geosite_pseudo_values =
    (codes "private", codes "geosite-private") ∷ (codes "lan", codes "geosite-private") ∷ []

abbrev tag_of : Text → List (Text × Text) → Option Text
tag_of s [] = none
tag_of s ((value, tag) ∷ pairs) = if text_eq value s then some tag else tag_of s pairs

module _ (published_geo_names : GeoKind → List Text) where
  pub is_published_geo_name : GeoKind → Text → Bool
  is_published_geo_name kind name =
      if is_empty name || any (λ c. eqb c b'/') name
      then false
      else contains_text name (published_geo_names kind)

  published_tag : GeoKind → Text → Option GeoValueMatch
  unfolding tag_prefix is_published_geo_name
  published_tag kind name =
      if is_published_geo_name kind name
      then some (rule_set_tag (tag_prefix kind ++ b'-' ∷ name))
      else none

  classify_normalized : GeoKind → Text → Option GeoValueMatch
  unfolding published_tag
  classify_normalized ip name =
      if contains_text name private_ip_geo_values
      then some private_networks
      else published_tag ip name
  classify_normalized site name = elim (tag_of name geosite_pseudo_values) [
    | some tag ↦ some (rule_set_tag tag)
    | none ↦ published_tag site name
  ]

  pub classify_geo_value : GeoKind → Text → Option GeoValueMatch
  unfolding classify_normalized trim
  classify_geo_value kind value =
      let value : Text = trim value in
      if is_empty value || starts_with b'!' value
      then none
      else classify_normalized kind (map lowercase value)

-- ===== src/Routing/Clash/Written.antt =====
-- A rule that is written by `to_clash_rule_str` is read by `from_clash_rule_str` as the same rule.
use clash_verge_cli.Prelude.{
  ◌≡◌, refl, true, false, some, List, [], ◌∷◌, arith, ◌<◌, is_empty, Text, codes, text_eq, join,
  Lacks, split-append, split_whole, is_whitespace, IsVisible, trim-visible, print_u16, IsDigits,
  print_u16-IsDigits, print_u16-nonempty, parse_u16-print_u16, IsDigits-IsVisible, is_some, All-imp,
}
use clash_verge_cli.Routing.{
  GeoKind, ip, site, clash_header, MatchField, domain, domain_suffix, domain_keyword, ip_cidr, port,
  process, rule_set, geo_set, RuleTarget, outbound, direct, block, simple,
}
use clash_verge_cli.Routing.Geo.{classify_geo_value}
use clash_verge_cli.Routing.Clash.{
  target_to_clash_str, target_from_clash_str, pair, field_header, field_to_clash_str, is_modifier,
  is_exotic, geo_field, field_from_clash_str, from_clash_rule_str, clash_parts, to_clash_rule_str,
}
use clash_verge_cli.Routing.Clash.Fields.{IsPlain, split_clash_rule-join, from_fields-three}

-- What a value or the name of an outbound must not be: cut by a comma, with blanks at its ends, or
-- a modifier.
pub record IsPart (part : Text) : Type 0 where
  pub plain : IsPlain part
  pub no_modifier : is_modifier part ≡ false

-- The text that a field has behind its kind
abbrev pub field_value : MatchField → Text
field_value (domain v) = v
field_value (domain_suffix v) = v
field_value (domain_keyword v) = v
field_value (ip_cidr v) = v
field_value (port v) = print_u16 v
field_value (process v) = v
field_value (rule_set v) = v
field_value (geo_set kind v) = v

module _ (published_geo_names : GeoKind → List Text) where
  abbrev pub IsWritableField : MatchField → Type 0
  IsWritableField (port v) = v < 65536
  IsWritableField (geo_set kind v) =
      IsPart v × (is_some (classify_geo_value published_geo_names kind v) ≡ true)
  IsWritableField field = IsPart (field_value field)

abbrev pub IsWritableTarget : RuleTarget → Type 0
IsWritableTarget (outbound name) =
    IsPart name × (text_eq name (codes "DIRECT") ≡ false) × (text_eq name (codes "REJECT") ≡ false)
IsWritableTarget direct = Unit
IsWritableTarget block = Unit

pub visible-IsPlain : (s : Text) → Lacks b',' s → IsVisible s → IsPlain s
visible-IsPlain s h k = record { comma_free = h; trimmed = trim-visible s k }

digits-lack_comma : (s : Text) → IsDigits s → Lacks b',' s
digits-lack_comma s h = All-imp (λ c e. ground arith) s h

digits-no_modifier : (s : Text) → is_empty s ≡ false → IsDigits s → is_modifier s ≡ false
unfolding is_modifier
digits-no_modifier [] ne h = cc
digits-no_modifier (c ∷ s) ne (e, h) = ground arith

digits-IsPart : (s : Text) → is_empty s ≡ false → IsDigits s → IsPart s
digits-IsPart s ne h = record {
  plain = visible-IsPlain s (digits-lack_comma s h) (IsDigits-IsVisible s h);
  no_modifier = digits-no_modifier s ne h;
}

header-Lacks_comma : (field : MatchField) → Lacks b',' (field_header field)
unfolding clash_header
header-Lacks_comma (domain v) = omega arith
header-Lacks_comma (domain_suffix v) = omega arith
header-Lacks_comma (domain_keyword v) = omega arith
header-Lacks_comma (ip_cidr v) = omega arith
header-Lacks_comma (port v) = omega arith
header-Lacks_comma (process v) = omega arith
header-Lacks_comma (rule_set v) = omega arith
header-Lacks_comma (geo_set ip v) = omega arith
header-Lacks_comma (geo_set site v) = omega arith

header-IsVisible : (field : MatchField) → IsVisible (field_header field)
unfolding clash_header is_whitespace
header-IsVisible (domain v) = ground arith
header-IsVisible (domain_suffix v) = ground arith
header-IsVisible (domain_keyword v) = ground arith
header-IsVisible (ip_cidr v) = ground arith
header-IsVisible (port v) = ground arith
header-IsVisible (process v) = ground arith
header-IsVisible (rule_set v) = ground arith
header-IsVisible (geo_set ip v) = ground arith
header-IsVisible (geo_set site v) = ground arith

header-IsPlain : (field : MatchField) → IsPlain (field_header field)
header-IsPlain field =
    visible-IsPlain (field_header field) (header-Lacks_comma field) (header-IsVisible field)

header-not_exotic : (field : MatchField) → is_exotic (field_header field) ≡ false
unfolding clash_header
header-not_exotic (domain v) = refl
header-not_exotic (domain_suffix v) = refl
header-not_exotic (domain_keyword v) = refl
header-not_exotic (ip_cidr v) = refl
header-not_exotic (port v) = refl
header-not_exotic (process v) = refl
header-not_exotic (rule_set v) = refl
header-not_exotic (geo_set ip v) = refl
header-not_exotic (geo_set site v) = refl

target-IsPart : (t : RuleTarget) → IsWritableTarget t → IsPart (target_to_clash_str t)
unfolding target_to_clash_str is_modifier is_whitespace
target-IsPart (outbound name) (h, _, _) = h
target-IsPart direct h = record {
  plain = visible-IsPlain (codes "DIRECT") (omega arith) (ground arith);
  no_modifier = refl;
}
target-IsPart block h = record {
  plain = visible-IsPlain (codes "REJECT") (omega arith) (ground arith);
  no_modifier = refl;
}

target-read :
    (t : RuleTarget) → IsWritableTarget t → target_from_clash_str (target_to_clash_str t) ≡ some t
unfolding target_from_clash_str target_to_clash_str
target-read (outbound name) (p, d, b) = rw (d, b) refl
target-read direct h = refl
target-read block h = refl

field_to_clash_str-pair :
    (field : MatchField)
    → field_to_clash_str field ≡ some (pair (field_header field) (field_value field))
unfolding field_to_clash_str
field_to_clash_str-pair (domain v) = refl
field_to_clash_str-pair (domain_suffix v) = refl
field_to_clash_str-pair (domain_keyword v) = refl
field_to_clash_str-pair (ip_cidr v) = refl
field_to_clash_str-pair (port v) = refl
field_to_clash_str-pair (process v) = refl
field_to_clash_str-pair (rule_set v) = refl
field_to_clash_str-pair (geo_set kind v) = refl

pub to_clash_rule_str-single :
    (field : MatchField) (t : RuleTarget)
    → IsPart (field_value field)
    → to_clash_rule_str (simple (field ∷ []) t)
      ≡ join b',' (field_header field ∷ field_value field ∷ target_to_clash_str t ∷ [])
unfolding to_clash_rule_str clash_parts
to_clash_rule_str-single field t h =
    rw
      (
        field_to_clash_str-pair field,
        split-append b',' (field_header field) (field_value field) (header-Lacks_comma field),
        split_whole b',' (field_value field) h.plain.comma_free,
      )
      refl

module _ (published_geo_names : GeoKind → List Text) where
  value-IsPart :
      (field : MatchField) → IsWritableField published_geo_names field → IsPart (field_value field)
  value-IsPart (domain v) h = h
  value-IsPart (domain_suffix v) h = h
  value-IsPart (domain_keyword v) h = h
  value-IsPart (ip_cidr v) h = h
  value-IsPart (port v) h =
      digits-IsPart (print_u16 v) (print_u16-nonempty v) (print_u16-IsDigits v)
  value-IsPart (process v) h = h
  value-IsPart (rule_set v) h = h
  value-IsPart (geo_set kind v) h = h.0

  field-read :
      (field : MatchField)
      → IsWritableField published_geo_names field
      → field_from_clash_str published_geo_names (field_header field) (field_value field)
        ≡ some field
  unfolding field_from_clash_str geo_field clash_header
  field-read (domain v) h = refl
  field-read (domain_suffix v) h = refl
  field-read (domain_keyword v) h = refl
  field-read (ip_cidr v) h = refl
  field-read (port v) h = rw (parse_u16-print_u16 v h) refl
  field-read (process v) h = refl
  field-read (rule_set v) h = refl
  field-read (geo_set ip v) h = rw h.1 refl
  field-read (geo_set site v) h = rw h.1 refl

  -- A rule with one field is read back from its text, if its value and the name of its outbound
  -- have no comma, no blanks at their ends and are no modifier, a port fits in sixteen bits, a
  -- geo value has a form for sing-box, and the outbound is not called DIRECT or REJECT.
  pub from_clash_rule_str-to_clash_rule_str :
      (field : MatchField) (t : RuleTarget)
      → IsWritableField published_geo_names field
      → IsWritableTarget t
      → from_clash_rule_str published_geo_names (to_clash_rule_str (simple (field ∷ []) t))
        ≡ simple (field ∷ []) t
  unfolding from_clash_rule_str
  from_clash_rule_str-to_clash_rule_str field t h k =
      let v = value-IsPart field h in
      let w = target-IsPart t k in
      rw
        (
          to_clash_rule_str-single field t v,
          split_clash_rule-join (field_header field) (field_value field) (target_to_clash_str t)
              (header-IsPlain field) v.plain w.plain v.no_modifier w.no_modifier,
          from_fields-three published_geo_names (field_header field) (field_value field)
              (target_to_clash_str t) field t (header-not_exotic field) (target-read t k)
              (field-read field h),
        )
        refl

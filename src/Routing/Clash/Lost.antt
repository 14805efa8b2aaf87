-- ===== src/Routing/Clash/Lost.antt =====
-- What a rule loses when routing.rs reads it and writes it back.
use clash_verge_cli.Prelude.{
  ◌≡◌, refl, sym, inl, inr, true, false, some, List, [], ◌∷◌, arith, Bool-cases, Text, codes,
  text_eq, text_eq_sound, join, split-join, is_whitespace,
}
use clash_verge_cli.Routing.{GeoKind, ip_cidr, RuleTarget, outbound, direct, block, simple}
use clash_verge_cli.Routing.Clash.{
  target_to_clash_str, target_from_clash_str, is_modifier, sort_parts, split_clash_rule,
  field_from_clash_str, from_clash_rule_str, to_clash_rule_str,
}
use clash_verge_cli.Routing.Clash.Fields.{IsPlain, from_fields-three}
use clash_verge_cli.Routing.Clash.Written.{IsPart, visible-IsPlain, to_clash_rule_str-single}

target_text-kept :
    (target : Text)
    → (t : RuleTarget) × (target_from_clash_str target ≡ some t) × (target_to_clash_str t ≡ target)
unfolding target_from_clash_str target_to_clash_str
target_text-kept target = elim (Bool-cases (text_eq target (codes "DIRECT"))) [
  | inl d ↦ (direct, rw d refl, sym (text_eq_sound target (codes "DIRECT") d))
  | inr d ↦ elim (Bool-cases (text_eq target (codes "REJECT"))) [
    | inl b ↦ (block, rw (d, b) refl, sym (text_eq_sound target (codes "REJECT") b))
    | inr b ↦ (outbound target, rw (d, b) refl, refl)
  ]
]

sort_parts-modified :
    (kind value target modifier : Text)
    → is_modifier value ≡ false
    → is_modifier target ≡ false
    → is_modifier modifier ≡ true
    → sort_parts 0 (kind ∷ value ∷ target ∷ modifier ∷ [])
      ≡ (kind ∷ value ∷ target ∷ [], modifier ∷ [])
unfolding sort_parts
sort_parts-modified kind value target modifier h k m = ground (arith, h, k, m)

split_clash_rule-modified :
    (kind value target modifier : Text)
    → IsPlain kind
    → IsPart value
    → IsPart target
    → IsPlain modifier
    → is_modifier modifier ≡ true
    → split_clash_rule (join b',' (kind ∷ value ∷ target ∷ modifier ∷ []))
      ≡ (kind ∷ value ∷ target ∷ [], modifier ∷ [])
unfolding split_clash_rule
split_clash_rule-modified kind value target modifier k v t m h =
    rw
      (
        split-join b',' kind (value ∷ target ∷ modifier ∷ [])
            (k.comma_free, (v.plain.comma_free, (t.plain.comma_free, (m.comma_free, tt)))),
        k.trimmed,
        v.plain.trimmed,
        t.plain.trimmed,
        m.trimmed,
      )
      (sort_parts-modified kind value target modifier v.no_modifier t.no_modifier h)

cidr6-IsPlain : IsPlain (codes "IP-CIDR6")
unfolding is_whitespace
cidr6-IsPlain = visible-IsPlain (codes "IP-CIDR6") (omega arith) (ground arith)

module _ (published_geo_names : GeoKind → List Text) where
  from_clash_rule_str-cidr6 :
      (value target modifier : Text) (to : RuleTarget)
      → IsPart value
      → IsPart target
      → IsPlain modifier
      → is_modifier modifier ≡ true
      → target_from_clash_str target ≡ some to
      → from_clash_rule_str published_geo_names
          (join b',' (codes "IP-CIDR6" ∷ value ∷ target ∷ modifier ∷ []))
        ≡ simple (ip_cidr value ∷ []) to
  unfolding from_clash_rule_str field_from_clash_str
  from_clash_rule_str-cidr6 value target modifier to v t m h e =
      rw
        (
          split_clash_rule-modified (codes "IP-CIDR6") value target modifier cidr6-IsPlain v t m h,
          from_fields-three published_geo_names (codes "IP-CIDR6") value target (ip_cidr value) to
              refl e refl,
        )
        refl

  -- Read and written back, an IP-CIDR6 rule comes back as an IP-CIDR rule without its modifier,
  -- if its value and target are neither cut by a comma nor have blanks at their ends nor are
  -- modifiers themselves.
  pub modifier_lost :
      (value target modifier : Text)
      → IsPart value
      → IsPart target
      → IsPlain modifier
      → is_modifier modifier ≡ true
      → to_clash_rule_str (
          from_clash_rule_str published_geo_names
            (join b',' (codes "IP-CIDR6" ∷ value ∷ target ∷ modifier ∷ [])))
        ≡ join b',' (codes "IP-CIDR" ∷ value ∷ target ∷ [])
  modifier_lost value target modifier v t m h =
      let (to, read, same) = target_text-kept target in
      rw
        (
          from_clash_rule_str-cidr6 value target modifier to v t m h read,
          to_clash_rule_str-single (ip_cidr value) to v,
          same,
        )
        refl

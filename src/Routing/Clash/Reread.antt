-- ===== src/Routing/Clash/Reread.antt =====
-- A rule that is read, written and read again by routing.rs is the rule that was read first.
use clash_verge_cli.Prelude.{
  ◌≡◌, refl, ◌∙◌, subst, ◌≢◌, inl, inr, Bool, true, false, not, Option, none, some, List, [], ◌∷◌,
  map, arith, ℕ, ◌+◌, ◌<◌, eqb, if◌then◌else◌, lt→ltb, Bool-cases, Option-cases, not-false, Text,
  codes, text_eq, push_front, split, Lacks, trim, trim-twice, trim-Lacks, parse_u16,
  parse_u16-bound, ◌>>=◌, bail_if, is_some, bind-eq-some, bail_if-eq-some, eq_of_some, All,
}
use clash_verge_cli.Routing.{
  GeoKind, ip, site, MatchField, domain, domain_suffix, domain_keyword, ip_cidr, port, process,
  rule_set, RuleTarget, IRouteRule, raw,
}
use clash_verge_cli.Routing.Geo.{classify_geo_value}
use clash_verge_cli.Routing.Clash.{
  target_from_clash_str, is_modifier, sort_parts, split_clash_rule, geo_field, field_from_clash_str,
  from_fields, from_clash_rule_str, to_clash_rule_str,
}
use clash_verge_cli.Routing.Clash.Fields.{IsPlain, from_fields-IsRead}
use clash_verge_cli.Routing.Clash.Written.{
  IsPart, IsWritableField, IsWritableTarget, from_clash_rule_str-to_clash_rule_str,
}

split-Lacks : (c : ℕ) (s : Text) → All (Lacks c) (split c s)
unfolding split
split-Lacks c [] = (tt, tt)
split-Lacks c (d ∷ s) = elim (Bool-cases (eqb d c)) [
  | inl e ↦ rw e (tt, split-Lacks c s)
  | inr e ↦ rw e (push (split c s) (split-Lacks c s) (ground arith))
]
  where
    push : (ps : List Text) → All (Lacks c) ps → d ≢ c → All (Lacks c) (push_front d ps)
    push [] h ne = ((ne, tt), tt)
    push (p ∷ ps) (h, hs) ne = ((ne, h), hs)

trim-IsPlain : (parts : List Text) → All (Lacks b',') parts → All IsPlain (map trim parts)
trim-IsPlain [] h = tt
trim-IsPlain (p ∷ parts) (h, hs) =
    (record { comma_free = trim-Lacks b',' p h; trimmed = trim-twice p }, trim-IsPlain parts hs)

sort_parts-IsPart :
    (n : ℕ) (parts : List Text) → 0 < n → All IsPlain parts → All IsPart (sort_parts n parts).0
unfolding sort_parts
sort_parts-IsPart n [] pos h = tt
sort_parts-IsPart n (p ∷ parts) pos (h, hs) =
    let rest = sort_parts-IsPart (n + 1) parts (omega arith) hs in
    elim (Bool-cases (is_modifier p)) [
      | inl e ↦ rw (e, lt→ltb 0 n pos) rest
      | inr e ↦ rw e (record { plain = h; no_modifier = e }, rest)
    ]

sort_parts-first :
    (p : Text) (parts : List Text) → (sort_parts 0 (p ∷ parts)).0 ≡ p ∷ (sort_parts 1 parts).0
unfolding sort_parts
sort_parts-first p parts = ground arith

-- All fields but the first are parts.
abbrev TailIsParts : List Text → Type 0
TailIsParts [] = Unit
TailIsParts (p ∷ parts) = All IsPart parts

fields-are-parts : (rule : Text) → TailIsParts (split_clash_rule rule).0
unfolding split_clash_rule sort_parts
fields-are-parts rule =
    of_parts (map trim (split b',' rule)) (trim-IsPlain _ (split-Lacks b',' rule))
  where
    of_parts : (parts : List Text) → All IsPlain parts → TailIsParts (sort_parts 0 parts).0
    of_parts [] h = tt
    of_parts (p ∷ parts) (h, hs) =
        rw (sort_parts-first p parts) (sort_parts-IsPart 1 parts (omega arith) hs)

chosen :
    (b : Bool) (P : MatchField → Type 0) {x y : Option MatchField}
    → ((f : MatchField) → x ≡ some f → P f)
    → ((f : MatchField) → y ≡ some f → P f)
    → (f : MatchField) → (if b then x else y) ≡ some f
    → P f
chosen true P h k f e = h f e
chosen false P h k f e = k f e

none-ne-some : (f : MatchField) → none ≡ some f → ⊥
none-ne-some f h = cc

refused : (P : MatchField → Type 0) (f : MatchField) → none ≡ some f → P f
refused P f h = absurd (none-ne-some f h)

made : (P : MatchField → Type 0) {a : MatchField} → P a → (f : MatchField) → some a ≡ some f → P f
made P h f e = subst P (eq_of_some e) h

target-IsWritable :
    (target : Text) (t : RuleTarget)
    → IsPart target
    → target_from_clash_str target ≡ some t
    → IsWritableTarget t
unfolding target_from_clash_str
target-IsWritable target t h e = elim (Bool-cases (text_eq target (codes "DIRECT"))) [
  | inl d ↦ subst IsWritableTarget (eq_of_some (rw d at e)) tt
  | inr d ↦ elim (Bool-cases (text_eq target (codes "REJECT"))) [
    | inl b ↦ subst IsWritableTarget (eq_of_some (rw (d, b) at e)) tt
    | inr b ↦ subst IsWritableTarget (eq_of_some (rw (d, b) at e)) (h, d, b)
  ]
]

module _ (published_geo_names : GeoKind → List Text) where
  geo-IsWritable :
      (kind : GeoKind) (value : Text)
      → IsPart value
      → (f : MatchField) → geo_field published_geo_names kind value ≡ some f
      → IsWritableField published_geo_names f
  unfolding geo_field
  geo-IsWritable kind value v f h =
      let (_, e, k) =
        bind-eq-some (bail_if (not (is_some (classify_geo_value published_geo_names kind value)))) _
          h in
      subst (IsWritableField published_geo_names) (eq_of_some k)
        (v, not-false _ (bail_if-eq-some _ e))

  port-IsWritable :
      (value : Text) (f : MatchField)
      → (parse_u16 value >>= (λ p. some (port p))) ≡ some f
      → IsWritableField published_geo_names f
  port-IsWritable value f h =
      let (p, e, k) = bind-eq-some (parse_u16 value) _ h in
      subst (IsWritableField published_geo_names) (eq_of_some k) (parse_u16-bound value p e)

  field-IsWritable :
      (kind value : Text)
      → IsPart value
      → (f : MatchField) → field_from_clash_str published_geo_names kind value ≡ some f
      → IsWritableField published_geo_names f
  unfolding field_from_clash_str
  field-IsWritable kind value v =
      let W = IsWritableField published_geo_names in
      chosen _ W (made W {a = domain value} v) (
        chosen _ W (made W {a = domain_suffix value} v) (
          chosen _ W (made W {a = domain_keyword value} v) (
            chosen _ W (made W {a = ip_cidr value} v) (
              chosen _ W (port-IsWritable value) (
                chosen _ W (made W {a = process value} v) (
                  chosen _ W (made W {a = rule_set value} v) (
                    chosen _ W (geo-IsWritable ip value v)
                      (chosen _ W (geo-IsWritable site value v) (refused W)))))))))

  kept :
      (rule : Text)
      → from_fields published_geo_names (split_clash_rule rule).0 ≡ none
      → from_clash_rule_str published_geo_names rule ≡ raw rule
  unfolding from_clash_rule_str
  kept rule e = rw e refl

  taken :
      (rule : Text) (r : IRouteRule)
      → from_fields published_geo_names (split_clash_rule rule).0 ≡ some r
      → from_clash_rule_str published_geo_names rule ≡ r
  unfolding from_clash_rule_str
  taken rule r e = rw e refl

  -- Every rule text that is read, written and read again is the rule that was read first, also
  -- where its blanks and modifiers are gone.
  pub reread :
      (rule : Text)
      → from_clash_rule_str published_geo_names
          (to_clash_rule_str (from_clash_rule_str published_geo_names rule))
        ≡ from_clash_rule_str published_geo_names rule
  unfolding to_clash_rule_str
  reread rule = elim (Option-cases (from_fields published_geo_names (split_clash_rule rule).0)) [
    | inl e ↦ rw (kept rule e) (kept rule e)
    | inr (r, e) ↦
        let read = from_fields-IsRead published_geo_names _ r e in
        let (v, (t, _)) = subst TailIsParts read.three (fields-are-parts rule) in
        rw (taken rule r e ∙ read.rule_read) (
          from_clash_rule_str-to_clash_rule_str published_geo_names read.field read.to
            (field-IsWritable read.kind read.value v read.field read.field_read)
            (target-IsWritable read.target read.to t read.target_read))
  ]

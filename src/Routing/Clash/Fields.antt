-- ===== src/Routing/Clash/Fields.antt =====
-- How `from_clash_rule_str` takes a rule apart that spells a kind, a value and a target.
use clash_verge_cli.Prelude.{
  ◌≡◌, refl, sym, ap, ◌∙◌, true, false, not, ◌||◌, some, List, [], ◌∷◌, ◌++◌, arith, ltb, eqb,
  not-false, length, Text, join, Lacks, split-join, trim, bail_if, bind-eq-some, bail_if-eq-some,
  eq_of_some,
}
use clash_verge_cli.Routing.{GeoKind, MatchField, RuleTarget, IRouteRule, simple}
use clash_verge_cli.Routing.Clash.{
  target_from_clash_str, is_modifier, sort_parts, split_clash_rule, pop, first_part, is_exotic,
  field_from_clash_str, from_fields,
}

-- A part that the splitting leaves as it is
pub record IsPlain (part : Text) : Type 0 where
  pub comma_free : Lacks b',' part
  pub trimmed : trim part ≡ part

sort_parts-three :
    (kind value target : Text)
    → is_modifier value ≡ false
    → is_modifier target ≡ false
    → sort_parts 0 (kind ∷ value ∷ target ∷ []) ≡ (kind ∷ value ∷ target ∷ [], [])
unfolding sort_parts
sort_parts-three kind value target h k = ground (arith, h, k)

pub split_clash_rule-join :
    (kind value target : Text)
    → IsPlain kind
    → IsPlain value
    → IsPlain target
    → is_modifier value ≡ false
    → is_modifier target ≡ false
    → split_clash_rule (join b',' (kind ∷ value ∷ target ∷ [])) ≡ (kind ∷ value ∷ target ∷ [], [])
unfolding split_clash_rule
split_clash_rule-join kind value target k v t h e =
    rw
      (
        split-join b',' kind (value ∷ target ∷ [])
            (k.comma_free, (v.comma_free, (t.comma_free, tt))),
        k.trimmed,
        v.trimmed,
        t.trimmed,
      )
      (sort_parts-three kind value target h e)

pop-some :
    (parts : List Text) {front : List Text} {last : Text}
    → pop parts ≡ some (front, last)
    → parts ≡ front ++ last ∷ []
unfolding pop
pop-some [] h = cc
pop-some (p ∷ []) h = cc
pop-some (p ∷ q ∷ parts) {front} {last} h =
    let ((rest, l), e, k) = bind-eq-some (pop (q ∷ parts)) _ h in
    let same : ◌≡◌ {A = List Text × Text} (p ∷ rest, l) (front, last) = eq_of_some k in
    ap (λ (t : List Text). p ∷ t) (pop-some (q ∷ parts) e)
    ∙ ap (λ (x : List Text × Text). x.0 ++ x.1 ∷ []) same

pop-two :
    (front : List Text) {rest : List Text} {value : Text}
    → eqb (length front) 2 ≡ true
    → pop front ≡ some (rest, value)
    → front ≡ first_part rest ∷ value ∷ []
unfolding pop
pop-two [] e h = cc
pop-two (a ∷ []) e h = cc
pop-two (a ∷ b ∷ []) {rest} {value} e h =
    let same : ◌≡◌ {A = List Text × Text} (a ∷ [], b) (rest, value) = eq_of_some h in
    ap (λ (x : List Text × Text). first_part x.0 ∷ x.1 ∷ []) same
pop-two (a ∷ b ∷ c ∷ front) e h = ground arith

module _ (published_geo_names : GeoKind → List Text) where
  -- A rule of three fields is read if its kind is known and its value fits.
  pub from_fields-three :
      (kind value target : Text) (field : MatchField) (t : RuleTarget)
      → is_exotic kind ≡ false
      → target_from_clash_str target ≡ some t
      → field_from_clash_str published_geo_names kind value ≡ some field
      → from_fields published_geo_names (kind ∷ value ∷ target ∷ []) ≡ some (simple (field ∷ []) t)
  unfolding from_fields pop
  from_fields-three kind value target field t h e f = rw (h, e, f) refl

  -- Whatever is read has three fields.
  pub record IsRead (parts : List Text) (rule : IRouteRule) : Type 0 where
    pub kind : Text
    pub value : Text
    pub target : Text
    pub field : MatchField
    pub to : RuleTarget
    pub three : parts ≡ kind ∷ value ∷ target ∷ []
    pub target_read : target_from_clash_str target ≡ some to
    pub field_read : field_from_clash_str published_geo_names kind value ≡ some field
    pub rule_read : rule ≡ simple (field ∷ []) to

  pub from_fields-IsRead :
      (parts : List Text) (rule : IRouteRule)
      → from_fields published_geo_names parts ≡ some rule
      → IsRead parts rule
  unfolding from_fields
  from_fields-IsRead parts rule h =
      let (_, _, h) =
        bind-eq-some (bail_if (ltb (length parts) 2 || is_exotic (first_part parts))) _ h in
      let ((front, target), popped, h) = bind-eq-some (pop parts) _ h in
      let (to, target_read, h) = bind-eq-some (target_from_clash_str target) _ h in
      let (_, two, h) = bind-eq-some (bail_if (not (eqb (length front) 2))) _ h in
      let ((rest, value), popped_again, h) = bind-eq-some (pop front) _ h in
      let (field, field_read, h) =
        bind-eq-some (field_from_clash_str published_geo_names (first_part rest) value) _ h in
      let shape = pop-two front (not-false _ (bail_if-eq-some _ two)) popped_again in
      record {
        kind = first_part rest;
        value = value;
        target = target;
        field = field;
        to = to;
        three = pop-some parts popped ∙ ap (λ (f : List Text). f ++ target ∷ []) shape;
        target_read = target_read;
        field_read = field_read;
        rule_read = sym (eq_of_some h);
      }

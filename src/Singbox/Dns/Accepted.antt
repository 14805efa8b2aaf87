-- ===== src/Singbox/Dns/Accepted.antt =====
-- `validate` of dns.rs accepts exactly the valid settings.
use clash_verge_cli.Prelude.{
  ◌≡◌, refl, sym, ap, ◌∙◌, subst, ◌≢◌, ◌↔◌, inl, inr, false, not, ◌&&◌, ◌||◌, Option, none, some,
  List, [], ◌∷◌, arith, Bool-cases, Option-cases, false-ne-true, not-false, is_empty, Text, text_eq,
  text_eq_sound, text_eq_refl, unwrap_or, is_some, WhenSome, All, All-imp, Member, not-Member-nil,
  Member-cons, All-Member, Member-find,
}
use clash_verge_cli.Singbox.Dns.{
  is_remote, is_tls, takes_path, is_fakeip, DnsServerSpec, DnsRuleSpec, rule_is_empty,
  DnsConfigSpec, Refusal, bad_tag, no_address, path_unsupported, tls_unsupported, unknown_resolver,
  fakeip_resolver, unknown_final, fakeip_final, fakeip_default, empty_rule, unknown_target,
  refuse_if, contains_text, check_servers, find_server, check_upstream, check_resolver, check_final,
  check_rules, tags_of, validate,
}
use clash_verge_cli.Singbox.Dns.Valid.{
  IsSound, IsUpstream, DistinctTags, HasDefault, IsValidSpec, refuse_if-none, none-refuse_if,
  or_else-none, none-or_else, is_fakeip_iff, contains_text-Member, Member-contains_text,
  IsSound-of_checks, checks-of_IsSound,
}

-- The tags of the servers are none of those that were seen.
abbrev Fresh : List Text → List DnsServerSpec → Type 0
Fresh seen servers = All (λ (r : DnsServerSpec). contains_text seen r.tag ≡ false) servers

ne-of_text_eq : (s t : Text) → text_eq s t ≡ false → t ≢ s
ne-of_text_eq s t h e = false-ne-true (sym h ∙ ap (text_eq s) e ∙ text_eq_refl s)

text_eq-of_ne : (s t : Text) → t ≢ s → text_eq s t ≡ false
text_eq-of_ne s t ne = elim (Bool-cases (text_eq s t)) [
  | inl e ↦ absurd (ne (sym (text_eq_sound s t e)))
  | inr e ↦ e
]

check_servers-none :
    (seen : List Text) (servers : List DnsServerSpec)
    → check_servers seen servers ≡ none
    → All IsSound servers × DistinctTags servers × Fresh seen servers
unfolding check_servers
check_servers-none seen [] h = (tt, tt, tt)
check_servers-none seen (s ∷ servers) h =
    let (tag, h) =
      or_else-none (refuse_if (is_empty s.tag || contains_text seen s.tag) (bad_tag s.tag)) _ h in
    let (address, h) =
      or_else-none
        (refuse_if (is_remote s.kind && is_empty (unwrap_or [] s.server)) (no_address s.tag)) _ h in
    let (path, h) =
      or_else-none (refuse_if (is_some s.path && not (takes_path s.kind)) (path_unsupported s.tag))
        _ h in
    let (insecure, h) =
      or_else-none
        (refuse_if (is_some s.tls_insecure && not (is_tls s.kind)) (tls_unsupported s.tag)) _ h in
    let t = refuse_if-none _ _ tag in
    let (sound, distinct, fresh) = check_servers-none (s.tag ∷ seen) servers h in
    (
      (
        IsSound-of_checks s (ground (arith, t)) (refuse_if-none _ _ address)
            (refuse_if-none _ _ path) (refuse_if-none _ _ insecure),
        sound,
      ),
      (
        All-imp (λ (r : DnsServerSpec) e. ne-of_text_eq s.tag r.tag (ground (arith, e))) servers
            fresh,
        distinct,
      ),
      (ground (arith, t), All-imp (λ (r : DnsServerSpec) e. ground (arith, e)) servers fresh),
    )

Fresh-after :
    (seen : List Text) (tag : Text) (servers : List DnsServerSpec)
    → All (λ (r : DnsServerSpec). r.tag ≢ tag) servers
    → Fresh seen servers
    → Fresh (tag ∷ seen) servers
Fresh-after seen tag [] h k = tt
Fresh-after seen tag (r ∷ servers) (ne, h) (e, k) =
    (rw (text_eq-of_ne tag r.tag ne) e, Fresh-after seen tag servers h k)

none-check_servers :
    (seen : List Text) (servers : List DnsServerSpec)
    → All IsSound servers
    → DistinctTags servers
    → Fresh seen servers
    → check_servers seen servers ≡ none
unfolding check_servers
none-check_servers seen [] a d f = refl
none-check_servers seen (s ∷ servers) (a, as_before) (d, ds) (f, fs) =
    let (tag, address, path, insecure) = checks-of_IsSound s a in
    rw (tag, f, address, path, insecure)
      (none-check_servers (s.tag ∷ seen) servers as_before ds (Fresh-after seen s.tag servers d fs))

-- With distinct tags the first server with a tag is the only one.
find_server-listed :
    (servers : List DnsServerSpec) {s : DnsServerSpec}
    → DistinctTags servers
    → Member s servers
    → find_server s.tag servers ≡ some s
find_server-listed [] d m = absurd (not-Member-nil m)
find_server-listed (r ∷ servers) {s} (d, ds) m = elim (Member-cons m) [
  | inl e ↦
      rw (ap (λ (x : DnsServerSpec). text_eq r.tag x.tag) e ∙ text_eq_refl r.tag) (ap some (sym e))
  | inr n ↦
      rw (text_eq-of_ne r.tag s.tag (All-Member (λ (x : DnsServerSpec). x.tag ≢ r.tag) servers d n))
        (find_server-listed servers ds n)
]

module _ (servers : List DnsServerSpec) (tag : Text) where
  found-IsUpstream :
      (s : DnsServerSpec)
      → find_server tag servers ≡ some s
      → is_fakeip s.kind ≡ false
      → IsUpstream servers tag
  found-IsUpstream s e f =
      let (m, t) = Member-find (λ (s : DnsServerSpec). text_eq s.tag tag) servers e in
      (s, m, text_eq_sound s.tag tag t, (is_fakeip_iff s.kind).0 f)

  IsUpstream-found :
      DistinctTags servers
      → IsUpstream servers tag
      → (s : DnsServerSpec) × (find_server tag servers ≡ some s) × (is_fakeip s.kind ≡ false)
  IsUpstream-found d (s, m, t, f) = (
    s,
    subst (λ t. find_server t servers ≡ some s) t (find_server-listed servers d m),
    (is_fakeip_iff s.kind).1 f,
  )

missed :
    (servers : List DnsServerSpec) (tag : Text) (unknown fake : Refusal)
    → find_server tag servers ≡ none
    → check_upstream servers tag unknown fake ≢ none
unfolding check_upstream
missed servers tag unknown fake e h = some-ne-none (sym (rw (e, check_upstream) refl) ∙ h)
  where
    some-ne-none : some unknown ≡ none → ⊥
    some-ne-none h = cc

reached :
    (servers : List DnsServerSpec) (tag : Text) (unknown fake : Refusal) (s : DnsServerSpec)
    → find_server tag servers ≡ some s
    → check_upstream servers tag unknown fake ≡ refuse_if (is_fakeip s.kind) fake
unfolding check_upstream
reached servers tag unknown fake s e = rw (e, check_upstream) refl

check_upstream-none :
    (servers : List DnsServerSpec) (tag : Text) (unknown fake : Refusal)
    → check_upstream servers tag unknown fake ≡ none
    → IsUpstream servers tag
check_upstream-none servers tag unknown fake h = elim (Option-cases (find_server tag servers)) [
  | inl e ↦ absurd (missed servers tag unknown fake e h)
  | inr (s, e) ↦
      found-IsUpstream servers tag s e
        (refuse_if-none (is_fakeip s.kind) fake (sym (reached servers tag unknown fake s e) ∙ h))
]

none-check_upstream :
    (servers : List DnsServerSpec) (tag : Text) (unknown fake : Refusal)
    → DistinctTags servers
    → IsUpstream servers tag
    → check_upstream servers tag unknown fake ≡ none
none-check_upstream servers tag unknown fake d u =
    let (s, e, f) = IsUpstream-found servers tag d u in
    reached servers tag unknown fake s e ∙ none-refuse_if (is_fakeip s.kind) fake f

check_rules-none :
    (servers : List DnsServerSpec) (rules : List DnsRuleSpec)
    → check_rules (tags_of servers) rules ≡ none
    → All (λ (r : DnsRuleSpec). (rule_is_empty r ≡ false) × Member r.server (tags_of servers)) rules
unfolding check_rules
check_rules-none servers [] h = tt
check_rules-none servers (r ∷ rules) h =
    let (filled, h) = or_else-none (refuse_if (rule_is_empty r) (empty_rule r.server)) _ h in
    let (known, h) =
      or_else-none
        (refuse_if (not (contains_text (tags_of servers) r.server)) (unknown_target r.server)) _
        h in
    (
      (
        refuse_if-none _ _ filled,
        contains_text-Member (tags_of servers) r.server (not-false _ (refuse_if-none _ _ known)),
      ),
      check_rules-none servers rules h,
    )

none-check_rules :
    (servers : List DnsServerSpec) (rules : List DnsRuleSpec)
    → All (λ (r : DnsRuleSpec). (rule_is_empty r ≡ false) × Member r.server (tags_of servers)) rules
    → check_rules (tags_of servers) rules ≡ none
unfolding check_rules
none-check_rules servers [] h = refl
none-check_rules servers (r ∷ rules) ((filled, known), h) =
    rw (filled, Member-contains_text (tags_of servers) r.server known)
      (none-check_rules servers rules h)

check_resolver_iff :
    (servers : List DnsServerSpec) (resolver : Option Text)
    → DistinctTags servers
    → (check_resolver servers resolver ≡ none) ↔ WhenSome (IsUpstream servers) resolver
unfolding check_resolver
check_resolver_iff servers none d = (λ h. tt, λ h. refl)
check_resolver_iff servers (some tag) d = (
  check_upstream-none servers tag (unknown_resolver tag) fakeip_resolver,
  none-check_upstream servers tag (unknown_resolver tag) fakeip_resolver d,
)

check_final_iff :
    (servers : List DnsServerSpec) (final : Option Text)
    → DistinctTags servers
    → (check_final servers final ≡ none) ↔ HasDefault servers final
unfolding check_final
check_final_iff servers (some tag) d = (
  check_upstream-none servers tag (unknown_final tag) fakeip_final,
  none-check_upstream servers tag (unknown_final tag) fakeip_final d,
)
check_final_iff [] none d = (λ h. tt, λ h. refl)
check_final_iff (s ∷ servers) none d = (
  λ h. (is_fakeip_iff s.kind).0 (refuse_if-none (is_fakeip s.kind) fakeip_default h),
  λ h. none-refuse_if (is_fakeip s.kind) fakeip_default ((is_fakeip_iff s.kind).1 h),
)

Fresh-at_first : (servers : List DnsServerSpec) → Fresh [] servers
Fresh-at_first [] = tt
Fresh-at_first (s ∷ servers) = (refl, Fresh-at_first servers)

-- DNS settings are accepted exactly if each server is sound by itself, no tag stands twice, the
-- bootstrap resolver and the default are listed servers that are no pool of fake addresses, the
-- first server is none where no default is given, and each rule has a condition and a listed
-- server.
pub validate_iff : (spec : DnsConfigSpec) → (validate spec ≡ none) ↔ IsValidSpec spec
unfolding validate
validate_iff spec = (
  λ h.
      let (servers, h) = or_else-none (check_servers [] spec.servers) _ h in
      let (resolver, h) = or_else-none (check_resolver spec.servers spec.domain_resolver) _ h in
      let (final, rules) = or_else-none (check_final spec.servers spec.final_server) _ h in
      let (sound, distinct, _) = check_servers-none [] spec.servers servers in
      record {
        sound = sound;
        distinct = distinct;
        resolver = (check_resolver_iff spec.servers spec.domain_resolver distinct).0 resolver;
        default = (check_final_iff spec.servers spec.final_server distinct).0 final;
        rules = check_rules-none spec.servers spec.rules rules;
      },
  λ v.
      none-or_else _ _
        (none-check_servers [] spec.servers v.sound v.distinct (Fresh-at_first spec.servers))
        (none-or_else _ _
          ((check_resolver_iff spec.servers spec.domain_resolver v.distinct).1 v.resolver)
          (none-or_else _ _
            ((check_final_iff spec.servers spec.final_server v.distinct).1 v.default)
            (none-check_rules spec.servers spec.rules v.rules))),
)

-- ===== src/Singbox/Dns/Section.antt =====
-- What the section that `build_dns_section` of dns.rs makes refers to.
use clash_verge_cli.Prelude.{
  ◌≡◌, refl, sym, ap, ◌∙◌, subst, ◌≢◌, ◌⊎◌, inl, inr, Bool, false, ◌||◌, Option, none, some, List,
  [], ◌∷◌, map, arith, Bool-cases, Option-cases, false-ne-true, Text, codes, text_eq, text_eq_refl,
  bail_if, bind-eq-some, bail_if-eq-some, eq_of_some, WhenSome, WhenSome-intro, All, All-imp,
  Member, here, there, not-Member-nil, Member-cons, All-of_Member,
}
use clash_verge_cli.Singbox.Dns.{
  DnsServerKind, udp, tls, https, quic, h3, local, fakeip, as_str, is_remote, is_fakeip,
  DnsServerSpec, DnsRuleSpec, rule_is_empty, DnsConfigSpec, spec_is_empty, Refusal, tags_of,
  validate, DnsEntry, DnsSection, nothing, refused, built, resolver_for, remote_entry, bare_entry,
  fakeip_entry, entry_of, build_dns_section,
}
use clash_verge_cli.Singbox.Dns.Accepted.{validate_iff}
use clash_verge_cli.Singbox.Dns.Valid.{IsUpstream, HasDefault, IsValidSpec}

-- The tag is that of an entry which is no pool of fake addresses.
abbrev pub IsReal : List DnsEntry → Text → Type 0
IsReal entries tag = (e : DnsEntry) × Member e entries × (e.tag ≡ tag) × (e.kind ≢ codes "fakeip")

pub record IsClosed (section : DnsSection) : Type 0 where
  pub rules :
      All
        (λ (r : DnsRuleSpec). (e : DnsEntry) × Member e section.servers × (e.tag ≡ r.server))
        section.rules
  pub final : WhenSome (IsReal section.servers) section.final
  pub resolvers :
      All
        (λ (e : DnsEntry).
          WhenSome (λ tag. IsReal section.servers tag × (tag ≢ e.tag)) e.domain_resolver)
        section.servers

none-ne-some : {t : Text} → none ≡ some t → ⊥
none-ne-some h = cc

not_fakeip_text :
    (kind : DnsServerKind) → kind ≢ fakeip → text_eq (as_str kind) (codes "fakeip") ≡ false
unfolding as_str
not_fakeip_text udp ne = refl
not_fakeip_text tls ne = refl
not_fakeip_text https ne = refl
not_fakeip_text quic ne = refl
not_fakeip_text h3 ne = refl
not_fakeip_text local ne = refl
not_fakeip_text fakeip ne = absurd (ne refl)

as_str-ne_fakeip : (kind : DnsServerKind) → kind ≢ fakeip → as_str kind ≢ codes "fakeip"
as_str-ne_fakeip kind ne e = false-ne-true (
    sym (not_fakeip_text kind ne)
    ∙ ap (λ t. text_eq t (codes "fakeip")) e
    ∙ text_eq_refl (codes "fakeip"))

module _ (is_ip : Text → Bool) (resolver : Option Text) where
  entry_of-tag : (s : DnsServerSpec) → (entry_of is_ip resolver s).tag ≡ s.tag
  unfolding entry_of remote_entry bare_entry fakeip_entry
  entry_of-tag s = ground arith

  entry_of-kind : (s : DnsServerSpec) → (entry_of is_ip resolver s).kind ≡ as_str s.kind
  unfolding entry_of remote_entry bare_entry fakeip_entry
  entry_of-kind s = ground arith

  Member-entries :
      (servers : List DnsServerSpec) {s : DnsServerSpec}
      → Member s servers
      → Member (entry_of is_ip resolver s) (map (entry_of is_ip resolver) servers)
  Member-entries [] m = absurd (not-Member-nil m)
  Member-entries (r ∷ servers) m = elim (Member-cons m) [
    | inl e ↦ here (ap (entry_of is_ip resolver) e)
    | inr n ↦ there (Member-entries servers n)
  ]

  entry_of-resolver :
      (s : DnsServerSpec)
      → ((entry_of is_ip resolver s).domain_resolver ≡ resolver_for is_ip resolver s)
        ⊎ ((entry_of is_ip resolver s).domain_resolver ≡ none)
  unfolding entry_of remote_entry bare_entry fakeip_entry
  entry_of-resolver s = elim (Bool-cases (is_remote s.kind)) [
    | inl e ↦ inl (rw e refl)
    | inr e ↦ elim (Bool-cases (is_fakeip s.kind)) [
      | inl f ↦ inr (rw (e, f) refl)
      | inr f ↦ inr (rw (e, f) refl)
    ]
  ]

  resolver_for-some :
      (s : DnsServerSpec) {tag : Text}
      → resolver_for is_ip resolver s ≡ some tag
      → (resolver ≡ some tag) × (tag ≢ s.tag)
  unfolding resolver_for
  resolver_for-some s {tag} h =
      let (server, _, h) = bind-eq-some s.server _ h in
      let (found, given, h) = bind-eq-some resolver _ h in
      let (_, other, h) = bind-eq-some (bail_if (is_ip server || text_eq found s.tag)) _ h in
      let same = eq_of_some h in
      let differs : text_eq found s.tag ≡ false = ground (arith, bail_if-eq-some _ other) in
      (
        given ∙ ap some same,
        λ e.
            false-ne-true (sym differs ∙ ap (λ t. text_eq t s.tag) (same ∙ e) ∙ text_eq_refl s.tag),
      )

  resolver-given :
      (s : DnsServerSpec) {tag : Text}
      → (entry_of is_ip resolver s).domain_resolver ≡ some tag
      → (resolver ≡ some tag) × (tag ≢ s.tag)
  resolver-given s h = elim (entry_of-resolver s) [
    | inl e ↦ resolver_for-some s (sym e ∙ h)
    | inr e ↦ absurd (none-ne-some (sym e ∙ h))
  ]

  IsUpstream-IsReal :
      (servers : List DnsServerSpec) {tag : Text}
      → IsUpstream servers tag
      → IsReal (map (entry_of is_ip resolver) servers) tag
  IsUpstream-IsReal servers (s, m, e, ne) = (
    entry_of is_ip resolver s,
    Member-entries servers m,
    entry_of-tag s ∙ e,
    λ k. as_str-ne_fakeip s.kind ne (sym (entry_of-kind s) ∙ k),
  )

module _ (is_ip : Text → Bool) (spec : DnsConfigSpec) (v : IsValidSpec spec) where
  entries : List DnsEntry
  entries = map (entry_of is_ip spec.domain_resolver) spec.servers

  rule_refers :
      (r : DnsRuleSpec)
      → (rule_is_empty r ≡ false) × Member r.server (tags_of spec.servers)
      → (e : DnsEntry) × Member e entries × (e.tag ≡ r.server)
  unfolding entries
  rule_refers r (_, m) =
      let (s, n, e) = server_of spec.servers m in
      (
        entry_of is_ip spec.domain_resolver s,
        Member-entries is_ip spec.domain_resolver spec.servers n,
        entry_of-tag is_ip spec.domain_resolver s ∙ sym e,
      )
    where
      server_of :
          (servers : List DnsServerSpec) {t : Text}
          → Member t (tags_of servers)
          → (s : DnsServerSpec) × Member s servers × (t ≡ s.tag)
      server_of [] m = absurd (not-Member-nil m)
      server_of (s ∷ servers) m = elim (Member-cons m) [
        | inl e ↦ (s, here refl, e)
        | inr n ↦ let (r, k, e) = server_of servers n in (r, there k, e)
      ]

  default-IsReal :
      (final : Option Text) → HasDefault spec.servers final → WhenSome (IsReal entries) final
  unfolding entries
  default-IsReal none h = tt
  default-IsReal (some tag) h = IsUpstream-IsReal is_ip spec.domain_resolver spec.servers h

  resolver-IsReal :
      (e : DnsEntry)
      → Member e entries
      → WhenSome (λ tag. IsReal entries tag × (tag ≢ e.tag)) e.domain_resolver
  unfolding entries
  resolver-IsReal e m =
      let (s, n, same) = entry_from spec.servers m in
      WhenSome-intro _ e.domain_resolver λ tag h.
        let (given, differs) =
          resolver-given is_ip spec.domain_resolver s
            (sym (ap (λ (x : DnsEntry). x.domain_resolver) same) ∙ h) in
        (
          IsUpstream-IsReal is_ip spec.domain_resolver spec.servers
              (subst (WhenSome (IsUpstream spec.servers)) given v.resolver),
          λ k.
              differs
                (k ∙ ap (λ (x : DnsEntry). x.tag) same ∙ entry_of-tag is_ip spec.domain_resolver s),
        )
    where
      entry_from :
          (servers : List DnsServerSpec) {e : DnsEntry}
          → Member e (map (entry_of is_ip spec.domain_resolver) servers)
          → (s : DnsServerSpec) × Member s servers × (e ≡ entry_of is_ip spec.domain_resolver s)
      entry_from [] m = absurd (not-Member-nil m)
      entry_from (s ∷ servers) m = elim (Member-cons m) [
        | inl e ↦ (s, here refl, e)
        | inr n ↦ let (r, k, e) = entry_from servers n in (r, there k, e)
      ]

  section_of_valid : DnsSection
  unfolding entries
  section_of_valid = record { servers = entries; rules = spec.rules; final = spec.final_server }

  section-IsClosed : IsClosed section_of_valid
  unfolding section_of_valid
  section-IsClosed = record {
    rules = All-imp rule_refers spec.rules v.rules;
    final = default-IsReal spec.final_server v.default;
    resolvers = All-of_Member _ entries resolver-IsReal;
  }

-- A section that is built refers to its own servers only: each rule, the default, and the
-- resolver of each server, which is another server; the default and the resolvers are no pool of
-- fake addresses.
pub build_dns_section-IsClosed :
    (is_ip : Text → Bool) (spec : DnsConfigSpec) (section : DnsSection)
    → build_dns_section is_ip spec ≡ built section
    → IsClosed section
unfolding build_dns_section section_of_valid entries
build_dns_section-IsClosed is_ip spec section h = elim (Bool-cases (spec_is_empty spec)) [
  | inl e ↦ absurd (nothing-ne-built section (rw e at h))
  | inr e ↦ elim (Option-cases (validate spec)) [
    | inr (refusal, f) ↦
        absurd (refused-ne-built refusal section (rw (e, f, build_dns_section) at h))
    | inl f ↦
        let valid = (validate_iff spec).0 f in
        subst IsClosed (same_built (rw (e, f, build_dns_section) at h))
          (section-IsClosed is_ip spec valid)
  ]
]
  where
    nothing-ne-built : (s : DnsSection) → nothing ≡ built s → ⊥
    nothing-ne-built s e = cc

    refused-ne-built : (r : Refusal) (s : DnsSection) → refused r ≡ built s → ⊥
    refused-ne-built r s e = cc

    same_built : {s t : DnsSection} → built s ≡ built t → s ≡ t
    same_built e = cc

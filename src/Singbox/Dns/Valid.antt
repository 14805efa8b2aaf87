-- ===== src/Singbox/Dns/Valid.antt =====
-- Which settings `validate` of dns.rs accepts.
use clash_verge_cli.Prelude.{
  ◌≡◌, refl, sym, ap, ◌∙◌, ◌≢◌, ◌↔◌, ◌⊎◌, inl, inr, Bool, true, false, not, ◌&&◌, Option, none,
  some, List, [], ◌∷◌, arith, Bool-cases, false-ne-true, is_empty, Text, text_eq, text_eq_sound,
  text_eq_refl, unwrap_or, is_some, or_else, WhenSome, All, Member, here, there, not-Member-nil,
  Member-cons,
}
use clash_verge_cli.Singbox.Dns.{
  DnsServerKind, https, h3, fakeip, is_remote, is_tls, takes_path, is_fakeip, DnsServerSpec,
  DnsRuleSpec, rule_is_empty, DnsConfigSpec, Refusal, refuse_if, contains_text, tags_of,
}

-- One server by itself
pub record IsSound (s : DnsServerSpec) : Type 0 where
  pub tagged : s.tag ≢ []
  pub addressed : (is_remote s.kind ≡ false) ⊎ (unwrap_or [] s.server ≢ [])
  pub path_fits : (s.path ≡ none) ⊎ ((s.kind ≡ https) ⊎ (s.kind ≡ h3))
  pub tls_fits : (s.tls_insecure ≡ none) ⊎ (is_tls s.kind ≡ true)

-- A tag is that of a server which is no pool of fake addresses.
abbrev pub IsUpstream : List DnsServerSpec → Text → Type 0
IsUpstream servers tag = (s : DnsServerSpec) × Member s servers × (s.tag ≡ tag) × (s.kind ≢ fakeip)

abbrev pub DistinctTags : List DnsServerSpec → Type 0
DistinctTags [] = Unit
DistinctTags (s ∷ servers) =
    All (λ (r : DnsServerSpec). r.tag ≢ s.tag) servers × DistinctTags servers

-- Where unmatched queries go: a given upstream, or the first server
abbrev pub HasDefault : List DnsServerSpec → Option Text → Type 0
HasDefault servers (some final) = IsUpstream servers final
HasDefault [] none = Unit
HasDefault (s ∷ servers) none = s.kind ≢ fakeip

pub record IsValidSpec (spec : DnsConfigSpec) : Type 0 where
  pub sound : All IsSound spec.servers
  pub distinct : DistinctTags spec.servers
  pub resolver : WhenSome (IsUpstream spec.servers) spec.domain_resolver
  pub default : HasDefault spec.servers spec.final_server
  pub rules :
      All
        (λ (r : DnsRuleSpec). (rule_is_empty r ≡ false) × Member r.server (tags_of spec.servers))
        spec.rules

pub refuse_if-none : (b : Bool) (r : Refusal) → refuse_if b r ≡ none → b ≡ false
refuse_if-none true r h = cc
refuse_if-none false r h = refl

pub none-refuse_if : (b : Bool) (r : Refusal) → b ≡ false → refuse_if b r ≡ none
none-refuse_if b r h = rw h refl

pub or_else-none : (a b : Option Refusal) → or_else a b ≡ none → (a ≡ none) × (b ≡ none)
or_else-none none b h = (refl, h)
or_else-none (some r) b h = cc

pub none-or_else : (a b : Option Refusal) → a ≡ none → b ≡ none → or_else a b ≡ none
none-or_else a b h k = rw h k

pub is_fakeip_iff : (kind : DnsServerKind) → (is_fakeip kind ≡ false) ↔ (kind ≢ fakeip)
is_fakeip_iff kind = (λ h e. ground (arith, h, e), λ h. ground (arith, h))

pub contains_text-Member :
    (texts : List Text) (s : Text) → contains_text texts s ≡ true → Member s texts
contains_text-Member [] s h = absurd (false-ne-true h)
contains_text-Member (t ∷ texts) s h = elim (Bool-cases (text_eq t s)) [
  | inl e ↦ here (sym (text_eq_sound t s e))
  | inr e ↦ there (contains_text-Member texts s (rw e at h))
]

pub Member-contains_text :
    (texts : List Text) (s : Text) → Member s texts → contains_text texts s ≡ true
Member-contains_text [] s m = absurd (not-Member-nil m)
Member-contains_text (t ∷ texts) s m = elim (Member-cons m) [
  | inl e ↦ rw (ap (λ x. text_eq t x) e ∙ text_eq_refl t) refl
  | inr n ↦ ground (arith, Member-contains_text texts s n)
]

pub Member-tags_of :
    (servers : List DnsServerSpec) {s : DnsServerSpec}
    → Member s servers
    → Member s.tag (tags_of servers)
Member-tags_of [] m = absurd (not-Member-nil m)
Member-tags_of (s ∷ servers) m = elim (Member-cons m) [
  | inl e ↦ here (ap (λ (x : DnsServerSpec). x.tag) e)
  | inr n ↦ there (Member-tags_of servers n)
]

nonempty_iff : (s : Text) → (is_empty s ≡ false) ↔ (s ≢ [])
nonempty_iff [] = (λ h. cc, λ h. absurd (h refl))
nonempty_iff (c ∷ s) = (λ h e. cc, λ h. refl)

none-of_is_some : {A : Type 0} (o : Option A) → is_some o ≡ false → o ≡ none
none-of_is_some none h = refl
none-of_is_some (some a) h = cc

takes_path-cases : (kind : DnsServerKind) → takes_path kind ≡ true → (kind ≡ https) ⊎ (kind ≡ h3)
takes_path-cases https h = inl refl
takes_path-cases h3 h = inr refl
takes_path-cases kind h = cc

module _ (s : DnsServerSpec) where
  pub IsSound-of_checks :
      is_empty s.tag ≡ false
      → (is_remote s.kind && is_empty (unwrap_or [] s.server)) ≡ false
      → (is_some s.path && not (takes_path s.kind)) ≡ false
      → (is_some s.tls_insecure && not (is_tls s.kind)) ≡ false
      → IsSound s
  IsSound-of_checks t a p i = record {
    tagged = (nonempty_iff s.tag).0 t;
    addressed = elim (Bool-cases (is_remote s.kind)) [
      | inr e ↦ inl e
      | inl e ↦ inr ((nonempty_iff (unwrap_or [] s.server)).0 (rw e at a))
    ];
    path_fits = elim (Bool-cases (is_some s.path)) [
      | inr e ↦ inl (none-of_is_some s.path e)
      | inl e ↦ inr (takes_path-cases s.kind (ground (arith, p, e)))
    ];
    tls_fits = elim (Bool-cases (is_some s.tls_insecure)) [
      | inr e ↦ inl (none-of_is_some s.tls_insecure e)
      | inl e ↦ inr (ground (arith, i, e))
    ];
  }

  pub checks-of_IsSound :
      IsSound s
      → (is_empty s.tag ≡ false)
        × ((is_remote s.kind && is_empty (unwrap_or [] s.server)) ≡ false)
        × ((is_some s.path && not (takes_path s.kind)) ≡ false)
        × ((is_some s.tls_insecure && not (is_tls s.kind)) ≡ false)
  checks-of_IsSound h = (
    (nonempty_iff s.tag).1 h.tagged,
    elim h.addressed [
      | inl e ↦ rw e refl
      | inr e ↦ ground (arith, (nonempty_iff (unwrap_or [] s.server)).1 e)
    ],
    elim h.path_fits [
      | inl e ↦ rw e refl
      | inr k ↦ elim k [ inl e ↦ ground (arith, e) | inr e ↦ ground (arith, e) ]
    ],
    elim h.tls_fits [ inl e ↦ rw e refl | inr e ↦ ground (arith, e) ],
  )

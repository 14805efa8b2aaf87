-- ===== src/Subscribe/Ssrf/Passed.antt =====
-- Which hosts the check of ssrf.rs lets pass, and what it reports otherwise.
use clash_verge_cli.Prelude.{
  String, ◌≡◌, refl, ap, ◌∙◌, ◌≢◌, ◌↔◌, ◌⊎◌, inl, inr, true, none, List, [], ◌∷◌, ℕ, ◌+◌, ◌*◌,
  Bool-cases, Option-cases, contains, All,
}
use clash_verge_cli.Subscribe.Ssrf.{
  IpAddr, v6, passed, is_loopback, is_ula_v6, is_private, is_link_local_v4, is_link_local_v6,
  is_unspecified, blocked_range, check_addrs, Resolution, resolved, resolution_failed, Host, host,
  no_host, check_resolved, check_host, check_url_host,
}

-- The host is trusted, or it has addresses, and none of them is in a blocked range.
abbrev pub IsSafe : (String → Resolution) → List String → String → Type 0
IsSafe resolve allowlist name =
    (contains allowlist name ≡ true)
    ⊎ ((ips : List IpAddr) × (resolve name ≡ resolved ips)
        × (ips ≢ [])
        × All (λ ip. blocked_range ip ≡ none) ips)

addrs_passed :
    (name : String) (ips : List IpAddr)
    → check_addrs name ips ≡ passed
    → All (λ ip. blocked_range ip ≡ none) ips
unfolding check_addrs
addrs_passed name [] h = tt
addrs_passed name (ip ∷ ips) h = elim (Option-cases (blocked_range ip)) [
  | inl e ↦ (e, addrs_passed name ips (rw (e, check_addrs) at h))
  | inr (label, e) ↦ cc
]

safe_addrs :
    (name : String) (ips : List IpAddr)
    → All (λ ip. blocked_range ip ≡ none) ips
    → check_addrs name ips ≡ passed
unfolding check_addrs
safe_addrs name [] h = refl
safe_addrs name (ip ∷ ips) (e, h) = rw (e, check_addrs) (safe_addrs name ips h)

resolved_passed :
    (name : String) (r : Resolution)
    → check_resolved name r ≡ passed
    → (ips : List IpAddr) × (r ≡ resolved ips)
      × (ips ≢ [])
      × All (λ ip. blocked_range ip ≡ none) ips
unfolding check_resolved
resolved_passed name (resolution_failed e) h = cc
resolved_passed name (resolved []) h = cc
resolved_passed name (resolved (ip ∷ ips)) h =
    (ip ∷ ips, refl, (λ e. cc), addrs_passed name (ip ∷ ips) h)

safe_resolved :
    (name : String) (ips : List IpAddr)
    → ips ≢ []
    → All (λ ip. blocked_range ip ≡ none) ips
    → check_resolved name (resolved ips) ≡ passed
unfolding check_resolved
safe_resolved name [] ne h = absurd (ne refl)
safe_resolved name (ip ∷ ips) ne h = safe_addrs name (ip ∷ ips) h

module _ (extract_host : String → Host) (resolve : String → Resolution) (url : String)
    (allowlist : List String) where
  host_passed :
      (h : Host)
      → check_host resolve allowlist h ≡ passed
      → (name : String) × (h ≡ host name) × IsSafe resolve allowlist name
  unfolding check_host
  host_passed (no_host e) = λ h. cc
  host_passed (host name) = elim (Bool-cases (contains allowlist name)) [
    | inl e ↦ λ h. (name, refl, inl e)
    | inr e ↦ rw (e, check_host) (λ h. (name, refl, inr (resolved_passed name (resolve name) h)))
  ]

  safe_host :
      (name : String)
      → IsSafe resolve allowlist name
      → check_host resolve allowlist (host name) ≡ passed
  unfolding check_host
  safe_host name (inl e) = rw (e, check_host) refl
  safe_host name (inr (ips, r, ne, h)) = elim (Bool-cases (contains allowlist name)) [
    | inl e ↦ rw (e, check_host) refl
    | inr e ↦ rw (e, check_host) (ap (check_resolved name) r ∙ safe_resolved name ips ne h)
  ]

  -- A URL passes exactly if it has a host, and that is on the list of trusted hosts or resolves to at
  -- least one address and to none in a blocked range.
  pub check_url_host_iff :
      (check_url_host extract_host resolve url allowlist ≡ passed)
      ↔ ((name : String) × (extract_host url ≡ host name) × IsSafe resolve allowlist name)
  unfolding check_url_host
  check_url_host_iff = (
    (λ h. host_passed (extract_host url) h),
    λ (name, e, safe). ap (check_host resolve allowlist) e ∙ safe_host name safe,
  )

-- `Ipv4Addr::to_ipv6_mapped`
abbrev pub mapped : ℕ → ℕ → ℕ → ℕ → IpAddr
mapped a b c d = v6 0 0 0 0 0 65535 (a * 256 + b) (c * 256 + d)

-- No IPv4-mapped IPv6 address is in a blocked range, whatever the IPv4 address: not ::ffff:127.0.0.1 either.
pub blocked_range-mapped : (a b c d : ℕ) → blocked_range (mapped a b c d) ≡ none
unfolding blocked_range is_loopback is_private is_link_local_v4 is_link_local_v6 is_ula_v6
    is_unspecified
blocked_range-mapped a b c d = refl

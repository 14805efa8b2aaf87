-- ===== src/Subscribe/Ssrf.antt =====
-- The check of a subscription's host, src-tui/src/subscribe/ssrf.rs. The predicates on addresses are
-- those of the standard library's `IpAddr`. The parser of URLs and the name service are arguments.
pub mod Ranges
pub mod Passed
use clash_verge_cli.Prelude.{
  String, Bool, false, ◌&&◌, ◌||◌, Option, none, some, List, [], ◌∷◌, ℕ, ◌-◌, ◌*◌, ◌/◌, leb, eqb,
  if◌then◌else◌, contains, ◌>>=◌,
}

-- The four octets, or the eight segments of 16 bits.
pub data IpAddr : Type 0 where
  v4 : ℕ → ℕ → ℕ → ℕ → IpAddr
  v6 : ℕ → ℕ → ℕ → ℕ → ℕ → ℕ → ℕ → ℕ → IpAddr

pub data CheckError : Type 0 where
  invalid_url : String → CheckError
  dns_failed : String → String → CheckError
  no_address : String → CheckError
  blocked : String → String → IpAddr → CheckError

-- `Result<(), CheckError>`
pub data Checked : Type 0 where
  passed : Checked
  refused : CheckError → Checked

-- The first six segments are 0, and so are the last two but for the value of the last.
abbrev is_low : ℕ → IpAddr → Bool
is_low n (v4 a b c d) = false
is_low n (v6 a b c d e f g h) =
    eqb a 0 && (eqb b 0 && (eqb c 0 && (eqb d 0 && (eqb e 0 && (eqb f 0 && (eqb g 0 && eqb h n))))))

unfoldable pub is_loopback : IpAddr → Bool
is_loopback (v4 a b c d) = eqb a 127
is_loopback ip = is_low 1 ip

-- `segments()[0] & 0xfe00 == 0xfc00`: the mask clears the low nine bits.
unfoldable pub is_ula_v6 : IpAddr → Bool
is_ula_v6 (v4 a b c d) = false
is_ula_v6 (v6 a b c d e f g h) = eqb (a / 512 * 512) 64512

-- `is_unique_local` of the standard library is the test of `is_ula_v6`.
unfoldable pub is_private : IpAddr → Bool
unfolding is_ula_v6
is_private (v4 a b c d) =
    eqb a 10 || (eqb a 172 && (leb 16 b && leb b 31) || eqb a 192 && eqb b 168)
is_private ip = is_ula_v6 ip || is_ula_v6 ip

unfoldable pub is_link_local_v4 : IpAddr → Bool
is_link_local_v4 (v4 a b c d) = eqb a 169 && eqb b 254
is_link_local_v4 ip = false

-- `segments()[0] & 0xffc0 == 0xfe80`
unfoldable pub is_link_local_v6 : IpAddr → Bool
is_link_local_v6 (v4 a b c d) = false
is_link_local_v6 (v6 a b c d e f g h) = eqb (a / 64 * 64) 65152

unfoldable pub is_unspecified : IpAddr → Bool
is_unspecified (v4 a b c d) = eqb a 0 && (eqb b 0 && (eqb c 0 && eqb d 0))
is_unspecified ip = is_low 0 ip

-- the labels of `BLOCKED_RANGES` in their order, by the results of the predicates
abbrev pub first_label : Bool → Bool → Bool → Bool → Bool → Bool → Option String
first_label loopback private link_v4 link_v6 local unspecified =
    if loopback
    then some "loopback"
    else if private
    then some "private"
    else if link_v4
    then some "link-local-v4"
    else if link_v6
    then some "link-local-v6"
    else if local
    then some "unique-local"
    else if unspecified
    then some "unspecified"
    else none

-- the label of the first range in `BLOCKED_RANGES` that has the address
unfoldable pub blocked_range : IpAddr → Option String
unfolding is_loopback is_private is_link_local_v4 is_link_local_v6 is_ula_v6 is_unspecified
blocked_range ip =
    first_label (is_loopback ip) (is_private ip) (is_link_local_v4 ip) (is_link_local_v6 ip)
      (is_ula_v6 ip) (is_unspecified ip)

-- the loop over the addresses
unfoldable pub check_addrs : String → List IpAddr → Checked
check_addrs host [] = passed
check_addrs host (ip ∷ ips) =
    let rest = check_addrs host ips in
    elim (blocked_range ip) [ none ↦ rest | some label ↦ refused (blocked host label ip) ]

-- What `to_socket_addrs` returns.
pub data Resolution : Type 0 where
  resolved : List IpAddr → Resolution
  resolution_failed : String → Resolution

-- What `extract_host` returns.
pub data Host : Type 0 where
  host : String → Host
  no_host : String → Host

unfoldable pub check_resolved : String → Resolution → Checked
unfolding check_addrs
check_resolved name (resolution_failed source) = refused (dns_failed name source)
check_resolved name (resolved []) = refused (no_address name)
check_resolved name (resolved (ip ∷ ips)) = check_addrs name (ip ∷ ips)

unfoldable pub check_host : (String → Resolution) → List String → Host → Checked
unfolding check_resolved
check_host resolve allowlist (no_host message) = refused (invalid_url message)
check_host resolve allowlist (host name) =
    if contains allowlist name then passed else check_resolved name (resolve name)

-- `check_url_host`
unfoldable pub check_url_host :
    (String → Host) → (String → Resolution) → String → List String → Checked
unfolding check_host
check_url_host extract_host resolve url allowlist = check_host resolve allowlist (extract_host url)

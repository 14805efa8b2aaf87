-- ===== src/Tests/Hosts.antt =====
-- The tests of ssrf.rs, with a fixed name service.
use clash_verge_cli.Prelude.{
  String, ◌≡◌, refl, ◌↔◌, none, [], ◌∷◌, arith, ◌==◌, if◌then◌else◌, is_some,
}
use clash_verge_cli.Subscribe.Ssrf.{
  v4, blocked, passed, refused, is_loopback, is_private, blocked_range, Resolution, resolved,
  resolution_failed, Host, host, check_url_host,
}
use clash_verge_cli.Subscribe.Ssrf.Ranges.{number_of, is_internal, blocked_range-internal}
use clash_verge_cli.Subscribe.Ssrf.Passed.{IsSafe, check_url_host_iff, mapped, blocked_range-mapped}

abbrev resolve : String → Resolution
resolve name =
    if name == "example.com"
    then resolved (v4 93 184 216 34 ∷ [])
    else if name == "10.0.0.5"
    then resolved (v4 10 0 0 5 ∷ [])
    else resolution_failed "unknown host"

-- The URLs of the tests are their hosts.
abbrev host_of : String → Host
host_of url = host url

private_refused :
    check_url_host host_of resolve "10.0.0.5" []
    ≡ refused (blocked "10.0.0.5" "private" (v4 10 0 0 5))
unfolding check_url_host blocked_range is_private is_loopback
private_refused = refl

trusted_passes : check_url_host host_of resolve "10.0.0.5" ("10.0.0.5" ∷ []) ≡ passed
unfolding check_url_host
trusted_passes = refl

blocked_range-internal_example :
    is_some (blocked_range (v4 172 31 0 1)) ≡ is_internal (number_of 172 31 0 1)
blocked_range-internal_example =
    blocked_range-internal 172 31 0 1 (omega arith) (omega arith) (omega arith) (omega arith)

check_url_host_iff_example :
    (check_url_host host_of resolve "example.com" [] ≡ passed)
    ↔ ((name : String) × (host_of "example.com" ≡ host name) × IsSafe resolve [] name)
check_url_host_iff_example = check_url_host_iff host_of resolve "example.com" []

blocked_range-mapped_example : blocked_range (mapped 127 0 0 1) ≡ none
blocked_range-mapped_example = blocked_range-mapped 127 0 0 1

-- ===== src/CorePolicy/Classify.antt =====
-- `VersionPolicy` and `classify` of core_policy.rs.
pub mod Usable
use clash_verge_cli.Prelude.{
  String, ◌≡◌, refl, sym, ap, ◌∙◌, subst, ◌≡⟨◌⟩◌, ◌∎, ◌≢◌, ◌↔◌, ◌⊎◌, inl, inr, Bool, true, false,
  not, ◌&&◌, ◌||◌, Option, none, some, List, [], ◌∷◌, ◌++◌, map, append-nil, append_assoc, arith,
  ◌==◌, eq_iff, eq_refl, ℕ, zero, suc, ◌+◌, ◌-◌, ◌*◌, ◌/◌, ◌%◌, ◌^◌, ◌≤◌, ◌<◌, min, max, compare,
  Ordering, ltb, leb, eqb, if◌then◌else◌, ltb→lt, lt→ltb, leb→le, le→leb, tests, is_text,
  is_text_iff, Bool-cases, Option-cases, false-ne-true, eq_false_of_ne, length, length-append, all,
  any, is_empty, find, keep, contains, Text, codes, text_eq, text_eq_sound, text_eq_refl, strip,
  starts_with, ends_with, count, push_front, split, split_once, join, is_digit, is_alphanumeric,
  value_from, Lacks, split-append, split_whole, split_once-append, split_once_whole, split-join,
  count-append, count-Lacks, ends_with-Lacks, ends_with-append, All-join, ◌>>=◌, ◌>>◌, bail_if,
  unwrap_or, is_some, or_else, bind-eq-some, bail_if-eq-some, eq_of_some, WhenSome, WhenSome-intro,
  All, All-append, All-imp, Member, here, there,
}
use clash_verge_cli.CorePolicy.Version.{
  Identifier, numeric, text, Version, cmp_text, cmp_identifier, cmp,
}
use clash_verge_cli.CorePolicy.Parse.{
  u64_bound, parse_u64, has_leading_zero, parse_num, is_identifier_byte, is_malformed_part,
  parse_identifier, parse_identifiers, parse_core, parse_raw, parse,
}

pub data VersionPolicy : Type 0 where
  exact newer_within_major older_than_pinned unsupported_major prerelease : VersionPolicy

-- `VersionPolicy::is_usable`
abbrev pub is_usable : VersionPolicy → Bool
is_usable exact = true
is_usable newer_within_major = true
is_usable _ = false

abbrev pub mihomo_policy_version : Text
mihomo_policy_version = codes "1.19.32"

abbrev pub singbox_policy_version : Text
singbox_policy_version = codes "1.14.2"

abbrev policy_of : Ordering → VersionPolicy
policy_of Ordering.eq = exact
policy_of Ordering.gt = newer_within_major
policy_of Ordering.lt = older_than_pinned

-- the tests of `classify` on the two parsed versions
pub classify_parsed : Version → Version → VersionPolicy
classify_parsed got pin =
    if not (is_empty got.prerelease)
    then prerelease
    else if not (eqb got.major pin.major)
    then unsupported_major
    else policy_of (cmp got pin)

unfoldable pub classify : Text → Text → Option VersionPolicy
unfolding classify_parsed
classify observed required = do
  got ← parse observed
  pin ← parse required
  some (classify_parsed got pin)

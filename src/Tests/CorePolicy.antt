-- ===== src/Tests/CorePolicy.antt =====
-- Versions of core_policy.rs, some from its own tests.
use clash_verge_cli.Prelude.{
  ◌≡◌, refl, ◌↔◌, true, none, some, [], ◌∷◌, ◌++◌, arith, Ordering, codes, split, split_once, join,
}
use clash_verge_cli.CorePolicy.Version.{numeric, text, Version, cmp}
use clash_verge_cli.CorePolicy.Version.Precedence.{Precedes, cmp_precedence}
use clash_verge_cli.CorePolicy.Parse.{parse}
use clash_verge_cli.CorePolicy.Parse.Grammar.{
  IsNumeral, spells_numeric, spells_text, SpellIdentifiers, IsBuildPart, core_text, version_text,
}
use clash_verge_cli.CorePolicy.Parse.Reading.{parse-version_text, parse_empty_prerelease}
use clash_verge_cli.CorePolicy.Parse.Result.{IsWellFormed, parse-IsWellFormed}
use clash_verge_cli.CorePolicy.Classify.{
  VersionPolicy, newer_within_major, is_usable, mihomo_policy_version, classify,
}
use clash_verge_cli.CorePolicy.Classify.Usable.{IsAcceptable, classify_usable_iff}

abbrev v1_19_33 : Version
v1_19_33 = record { major = 1; minor = 19; patch = 33; prerelease = [] }

abbrev v1_19_32 : Version
v1_19_32 = record { major = 1; minor = 19; patch = 32; prerelease = [] }

abbrev v1_19_29 : Version
v1_19_29 = record { major = 1; minor = 19; patch = 29; prerelease = [] }

abbrev v1_0_0_rc1 : Version
v1_0_0_rc1 = record {
  major = 1;
  minor = 0;
  patch = 0;
  prerelease = text (codes "rc") ∷ numeric 1 ∷ [];
}

parse_33 : parse (codes "v1.19.33") ≡ some v1_19_33
unfolding parse split split_once
parse_33 = refl

parse_32 : parse mihomo_policy_version ≡ some v1_19_32
unfolding parse split split_once
parse_32 = refl

parse_29 : parse (codes "1.19.29") ≡ some v1_19_29
unfolding parse split split_once
parse_29 = refl

parse_rc : parse (codes "1.0.0-rc.1+build.5") ≡ some v1_0_0_rc1
unfolding parse split split_once
parse_rc = refl

parse_bad :
    (parse (codes "1.02.0") ≡ none) × (parse (codes "1.2") ≡ none) × (parse (codes "1.2.3-") ≡ none)
unfolding parse split split_once
parse_bad = (refl, refl, refl)

newer : classify (codes "v1.19.33") mihomo_policy_version ≡ some newer_within_major
unfolding classify parse split split_once cmp
newer = refl

IsNumeral-1 : IsNumeral (codes "1") 1
IsNumeral-1 = record { digits = omega arith; canonical = tt; value = refl; fits = omega arith }

IsNumeral-0 : IsNumeral (codes "0") 0
IsNumeral-0 = record { digits = omega arith; canonical = tt; value = refl; fits = omega arith }

rc_parts : SpellIdentifiers (codes "rc" ∷ codes "1" ∷ []) (text (codes "rc") ∷ numeric 1 ∷ [])
rc_parts =
    (spells_text (λ e. cc) (ground arith) (λ h. omega arith), (spells_numeric IsNumeral-1, tt))

build_part : IsBuildPart (codes "b5")
build_part = ((λ e. cc), ground arith)

parse-version_text_example :
    let s =
      version_text
        (codes "1")
        (codes "0")
        (codes "0")
        (codes "rc" ∷ codes "1" ∷ [])
        (codes "b5" ∷ []) in
    (parse s ≡ some v1_0_0_rc1) × (parse (b'v' ∷ s) ≡ some v1_0_0_rc1)
unfolding join
parse-version_text_example =
    parse-version_text (codes "1") (codes "0") (codes "0") (codes "rc" ∷ codes "1" ∷ [])
      (codes "b5" ∷ []) v1_0_0_rc1 IsNumeral-1 IsNumeral-0 IsNumeral-0 rc_parts (build_part, tt)
      refl

abbrev v1_0_0 : Version
v1_0_0 = record { major = 1; minor = 0; patch = 0; prerelease = [] }

parse_empty_prerelease_example :
    parse ((core_text (codes "1") (codes "0") (codes "0") ++ b'-' ∷ []) ++ b'+' ∷ codes "b5")
    ≡ some v1_0_0
unfolding join
parse_empty_prerelease_example =
    parse_empty_prerelease (codes "1") (codes "0") (codes "0") (codes "b5") v1_0_0 IsNumeral-1
      IsNumeral-0 IsNumeral-0 refl build_part refl

parse-IsWellFormed_example : IsWellFormed v1_0_0_rc1
parse-IsWellFormed_example = parse-IsWellFormed (codes "1.0.0-rc.1+build.5") parse_rc

cmp_precedence_example :
    ((cmp v1_0_0_rc1 v1_0_0 ≡ Ordering.lt) ↔ Precedes v1_0_0_rc1 v1_0_0)
    × ((cmp v1_0_0_rc1 v1_0_0 ≡ Ordering.gt) ↔ Precedes v1_0_0 v1_0_0_rc1)
    × ((cmp v1_0_0_rc1 v1_0_0 ≡ Ordering.eq) ↔ (v1_0_0_rc1 ≡ v1_0_0))
cmp_precedence_example = cmp_precedence v1_0_0_rc1 v1_0_0

classify_usable_iff_example :
    (policy : VersionPolicy) × (classify (codes "v1.19.33") mihomo_policy_version ≡ some policy)
    × ((is_usable policy ≡ true) ↔ IsAcceptable v1_19_33 v1_19_32)
classify_usable_iff_example =
    classify_usable_iff (codes "v1.19.33") mihomo_policy_version parse_33 parse_32

older_below : cmp v1_19_29 v1_19_32 ≡ Ordering.lt
unfolding cmp
older_below = refl

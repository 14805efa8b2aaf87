-- ===== src/CorePolicy/Parse/Reading.antt =====
-- The headline statements about `Version::parse` of core_policy.rs.
use clash_verge_cli.Prelude.{
  ◌≡◌, refl, ◌≢◌, false, some, List, [], ◌∷◌, ◌++◌, append_assoc, arith, Text, strip, ends_with,
  join, Lacks, split_once-append, All, All-append,
}
use clash_verge_cli.CorePolicy.Version.{Version}
use clash_verge_cli.CorePolicy.Parse.{parse_raw, parse}
use clash_verge_cli.CorePolicy.Parse.Grammar.{
  IsNumeral, SpellIdentifiers, IsBuildPart, suffix, core_text, version_text,
}
use clash_verge_cli.CorePolicy.Parse.Spelling.{
  parts_bytes, split_suffix, dot-not-plus, suffix-Lacks-plus,
}
use clash_verge_cli.CorePolicy.Parse.Core.{parse_prerelease-spelled, core-Lacks, read_core, strip_v}
use clash_verge_cli.CorePolicy.Parse.Build.{well_formed_build, ends_clear_of_plus}

module _ (a b c : Text) (pre build : List Text) (v : Version) (major : IsNumeral a v.major)
    (minor : IsNumeral b v.minor) (patch : IsNumeral c v.patch)
    (ids : SpellIdentifiers pre v.prerelease) (parts : All IsBuildPart build) where
  abbrev front : Text
  front = core_text a b c ++ suffix b'-' pre

  front-Lacks-plus : Lacks b'+' front
  front-Lacks-plus =
      All-append (λ x. x ≢ b'+') (core_text a b c) (suffix b'-' pre)
        (core-Lacks a b c v major minor patch b'+' (λ h. omega arith) dot-not-plus)
        (suffix-Lacks-plus pre (parts_bytes pre v.prerelease ids))

  read_raw :
      ends_with b'-' (version_text a b c pre build) ≡ false
      → parse_raw (version_text a b c pre build) ≡ some v
  unfolding parse_raw
  read_raw h =
      rw
        (
          split_suffix b'+' front build front-Lacks-plus,
          well_formed_build front build front-Lacks-plus parts,
          split_suffix b'-' (core_text a b c) pre
              (core-Lacks a b c v major minor patch b'-' (λ h. omega arith) (omega arith)),
          h,
          ends_clear_of_plus front build front-Lacks-plus parts,
        )
        (read_core a b c v major minor patch (join b'.' pre)
          (parse_prerelease-spelled pre v.prerelease ids))

  keeps_first : strip b'v' (version_text a b c pre build) ≡ version_text a b c pre build
  keeps_first =
      rw (append_assoc (core_text a b c) (suffix b'-' pre) (suffix b'+' build))
        (strip_v a b c (suffix b'-' pre ++ suffix b'+' build) major.canonical major.digits)

  -- Every text major.minor.patch[-pre.release][+build.parts] is read as the version that it spells,
  -- with or without a `v` in front, if it does not end with a dash.
  pub parse-version_text :
      ends_with b'-' (version_text a b c pre build) ≡ false
      → (parse (version_text a b c pre build) ≡ some v)
        × (parse (b'v' ∷ version_text a b c pre build) ≡ some v)
  unfolding parse
  parse-version_text h = (rw keeps_first (read_raw h), read_raw h)

module _ (a b c part : Text) (v : Version) (major : IsNumeral a v.major)
    (minor : IsNumeral b v.minor) (patch : IsNumeral c v.patch) (release : v.prerelease ≡ [])
    (valid : IsBuildPart part) where
  abbrev dashed : Text
  dashed = core_text a b c ++ b'-' ∷ []

  dashed-Lacks-plus : Lacks b'+' dashed
  dashed-Lacks-plus =
      All-append (λ x. x ≢ b'+') (core_text a b c) (b'-' ∷ [])
        (core-Lacks a b c v major minor patch b'+' (λ h. omega arith) dot-not-plus)
        (omega arith, tt)

  read_dashed :
      ends_with b'-' (dashed ++ suffix b'+' (part ∷ [])) ≡ false
      → parse_raw (dashed ++ suffix b'+' (part ∷ [])) ≡ some v
  unfolding parse_raw
  read_dashed h =
      rw
        (
          split_suffix b'+' dashed (part ∷ []) dashed-Lacks-plus,
          well_formed_build dashed (part ∷ []) dashed-Lacks-plus (valid, tt),
          split_once-append b'-' (core_text a b c) []
              (core-Lacks a b c v major minor patch b'-' (λ h. omega arith) (omega arith)),
          h,
          ends_clear_of_plus dashed (part ∷ []) dashed-Lacks-plus (valid, tt),
        )
        (read_core a b c v major minor patch [] (rw release refl))

  -- A dash with nothing behind it is not refused if build metadata follows, which ends in no dash:
  -- the text major.minor.patch-+build is read as the release.
  pub parse_empty_prerelease :
      ends_with b'-' (dashed ++ b'+' ∷ part) ≡ false → parse (dashed ++ b'+' ∷ part) ≡ some v
  unfolding parse join
  parse_empty_prerelease h =
      rw
        (
          append_assoc (core_text a b c) (b'-' ∷ []) (b'+' ∷ part),
          strip_v a b c (b'-' ∷ b'+' ∷ part) major.canonical major.digits,
          ← append_assoc (core_text a b c) (b'-' ∷ []) (b'+' ∷ part),
        )
        (read_dashed h)

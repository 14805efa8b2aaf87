-- ===== src/CorePolicy/Parse/Core.antt =====
-- What `Version::parse` in core_policy.rs reads before the build metadata.
use clash_verge_cli.Prelude.{
  ◌≡◌, refl, ◌≢◌, some, List, [], ◌∷◌, ◌++◌, arith, ℕ, Text, strip, join, Lacks, split-join,
  All-join, All, All-imp,
}
use clash_verge_cli.CorePolicy.Version.{Identifier, Version}
use clash_verge_cli.CorePolicy.Parse.{parse_prerelease, parse_core}
use clash_verge_cli.CorePolicy.Parse.Grammar.{
  IsDigit, HasNoLeadingZero, IsNumeral, SpellIdentifiers, core_text, parse_num-numeral,
}
use clash_verge_cli.CorePolicy.Parse.Spelling.{
  parse_identifiers-spelled, Lacks-of_digits, parts_bytes, parts-lack-dot, spelled-join-not-empty,
}

pub parse_prerelease-spelled :
    (pre : List Text) (ids : List Identifier)
    → SpellIdentifiers pre ids
    → parse_prerelease (join b'.' pre) ≡ some ids
unfolding join
parse_prerelease-spelled [] [] h = refl
parse_prerelease-spelled [] (id ∷ ids) h = absurd h
parse_prerelease-spelled (p ∷ ps) [] h = absurd h
parse_prerelease-spelled (p ∷ ps) (id ∷ ids) h =
    rw
      (
        spelled-join-not-empty p ps id ids h,
        split-join b'.' p ps (parts-lack-dot (p ∷ ps) (parts_bytes (p ∷ ps) (id ∷ ids) h)),
      )
      (parse_identifiers-spelled (p ∷ ps) (id ∷ ids) h)

-- The three numbers in front, as numerals.
module _ (a b c : Text) (v : Version) (major : IsNumeral a v.major) (minor : IsNumeral b v.minor)
    (patch : IsNumeral c v.patch) where
  numerals-lack : (d : ℕ) → ¬ (IsDigit d) → All (Lacks d) (a ∷ b ∷ c ∷ [])
  numerals-lack d h =
      All-imp (Lacks-of_digits d h) (a ∷ b ∷ c ∷ [])
        (major.digits, (minor.digits, (patch.digits, tt)))

  pub core-Lacks : (d : ℕ) → ¬ (IsDigit d) → b'.' ≢ d → Lacks d (core_text a b c)
  core-Lacks d h ne = All-join (λ x. x ≢ d) ne (a ∷ b ∷ c ∷ []) (numerals-lack d h)

  pub read_core :
      (pre : Text)
      → parse_prerelease pre ≡ some v.prerelease
      → parse_core (core_text a b c) pre ≡ some v
  unfolding parse_core
  read_core pre h =
      rw
        (
          split-join b'.' a (b ∷ c ∷ []) (numerals-lack b'.' (λ h. omega arith)),
          parse_num-numeral a v.major major,
          parse_num-numeral b v.minor minor,
          parse_num-numeral c v.patch patch,
          h,
        )
        refl

-- The text starts with a digit, so that no `v` is stripped.
pub strip_v :
    (a b c s : Text)
    → HasNoLeadingZero a
    → All IsDigit a
    → strip b'v' (core_text a b c ++ s) ≡ core_text a b c ++ s
unfolding join
strip_v [] b c s h k = absurd h
strip_v (x ∷ a) b c s h (d, ds) = ground arith

-- ===== src/CorePolicy/Parse/Build.antt =====
-- The checks of `Version::parse` in core_policy.rs on the build metadata.
use clash_verge_cli.Prelude.{
  ◌≡◌, refl, ◌∙◌, ◌≢◌, false, not, ◌&&◌, List, [], ◌∷◌, ◌++◌, append-nil, arith, ◌≤◌, any, is_empty,
  Text, ends_with, count, split, join, Lacks, split-join, count-append, count-Lacks,
  ends_with-Lacks, ends_with-append, All-join, All,
}
use clash_verge_cli.CorePolicy.Parse.{is_malformed_part, build_is_malformed}
use clash_verge_cli.CorePolicy.Parse.Grammar.{IsBuildPart, suffix}
use clash_verge_cli.CorePolicy.Parse.Spelling.{
  no_malformed_part, build_bytes, parts-lack-dot, parts-lack-plus, dot-not-plus,
  build-join-not-empty,
}

joined-Lacks-plus : (parts : List Text) → All IsBuildPart parts → Lacks b'+' (join b'.' parts)
joined-Lacks-plus parts h =
    All-join (λ d. d ≢ b'+') dot-not-plus parts (parts-lack-plus parts (build_bytes parts h))

pub one_plus :
    (front : Text) (build : List Text)
    → Lacks b'+' front
    → All IsBuildPart build
    → count b'+' (front ++ suffix b'+' build) ≤ 1
one_plus front [] h k = rw (append-nil front, count-Lacks b'+' front h) (omega arith)
one_plus front (p ∷ ps) h k =
    rw
      (
        count-append b'+' front (suffix b'+' (p ∷ ps)),
        count-Lacks b'+' front h,
        count-Lacks b'+' (join b'.' (p ∷ ps)) (joined-Lacks-plus (p ∷ ps) k),
      )
      (omega arith)

parts_well_formed :
    (build : List Text)
    → All IsBuildPart build
    → (not (is_empty (join b'.' build)) && any is_malformed_part (split b'.' (join b'.' build)))
      ≡ false
unfolding join
parts_well_formed [] h = refl
parts_well_formed (p ∷ ps) h =
    rw
      (
        build-join-not-empty p ps h,
        split-join b'.' p ps (parts-lack-dot (p ∷ ps) (build_bytes (p ∷ ps) h)),
      )
      (no_malformed_part (p ∷ ps) h)

pub well_formed_build :
    (front : Text) (build : List Text)
    → Lacks b'+' front
    → All IsBuildPart build
    → build_is_malformed (front ++ suffix b'+' build) (join b'.' build) ≡ false
well_formed_build front build h k =
    ground (arith, one_plus front build h k, parts_well_formed build k)

pub ends_clear_of_plus :
    (front : Text) (build : List Text)
    → Lacks b'+' front
    → All IsBuildPart build
    → ends_with b'+' (front ++ suffix b'+' build) ≡ false
ends_clear_of_plus front [] h k = rw (append-nil front) (ends_with-Lacks b'+' front h)
ends_clear_of_plus front (p ∷ ps) h k =
    ends_with-append b'+' front b'+' (join b'.' (p ∷ ps))
    ∙ ends_behind_plus (join b'.' (p ∷ ps)) (build-join-not-empty p ps k)
        (joined-Lacks-plus (p ∷ ps) k)
  where
    ends_behind_plus :
        (s : Text) → is_empty s ≡ false → Lacks b'+' s → ends_with b'+' (b'+' ∷ s) ≡ false
    ends_behind_plus [] e l = cc
    ends_behind_plus (c ∷ s) e l = ends_with-Lacks b'+' (c ∷ s) l

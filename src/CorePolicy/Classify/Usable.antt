-- ===== src/CorePolicy/Classify/Usable.antt =====
-- Which observed versions core_policy.rs accepts.
use clash_verge_cli.Prelude.{
  ◌≡◌, refl, sym, ◌∙◌, subst, ◌≢◌, ◌↔◌, true, some, [], arith, Ordering, Text, eq_of_some,
}
use clash_verge_cli.CorePolicy.Version.{Version, cmp}
use clash_verge_cli.CorePolicy.Version.Order.{cmp-IsOrder}
use clash_verge_cli.CorePolicy.Parse.{parse}
use clash_verge_cli.CorePolicy.Classify.{VersionPolicy, is_usable, classify_parsed, classify}

-- A release of the pinned major line that is not below the pin.
abbrev pub IsAcceptable : Version → Version → Type 0
IsAcceptable got pin = (got.prerelease ≡ []) × (got.major ≡ pin.major) × (cmp got pin ≢ Ordering.lt)

classify_parsed-usable :
    (got pin : Version) → (is_usable (classify_parsed got pin) ≡ true) ↔ IsAcceptable got pin
unfolding classify_parsed
classify_parsed-usable got pin = ground arith

IsAcceptable-below :
    (got pin low : Version)
    → low.major ≡ pin.major
    → cmp low pin ≡ Ordering.lt
    → IsAcceptable got pin
    → IsAcceptable got low
IsAcceptable-below got pin low major below (release, same, above) =
    (release, same ∙ sym major, λ e. above (cmp-IsOrder.lt_trans got low pin e below))

module _ (observed required : Text) {got pin : Version} (o : parse observed ≡ some got)
    (r : parse required ≡ some pin) where
  -- Two well-formed versions are classified, and the observed one is usable exactly if it is a
  -- release of the same major line that is not older than the pinned version.
  pub classify_usable_iff :
      (policy : VersionPolicy) × (classify observed required ≡ some policy)
      × ((is_usable policy ≡ true) ↔ IsAcceptable got pin)
  unfolding classify
  classify_usable_iff = (classify_parsed got pin, rw (o, r) refl, classify_parsed-usable got pin)

  classified :
      {policy : VersionPolicy}
      → classify observed required ≡ some policy
      → classify_parsed got pin ≡ policy
  unfolding classify
  classified h = eq_of_some (cc)

  -- A version that is usable under one pin stays usable under each older pin of the same major line.
  pub classify_usable_below :
      (older : Text) {low : Version}
      → parse older ≡ some low
      → low.major ≡ pin.major
      → cmp low pin ≡ Ordering.lt
      → {policy : VersionPolicy} → classify observed required ≡ some policy
      → is_usable policy ≡ true
      → (kept : VersionPolicy) × (classify observed older ≡ some kept) × (is_usable kept ≡ true)
  unfolding classify
  classify_usable_below older {low} l major below {policy} h usable = (
    classify_parsed got low,
    rw (o, l) refl,
    (classify_parsed-usable got low).1 (
        IsAcceptable-below got pin low major below (
          (classify_parsed-usable got pin).0
            (subst (λ q. is_usable q ≡ true) (sym (classified h)) usable))),
  )

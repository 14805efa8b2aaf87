-- ===== src/CorePolicy/Version/Precedence.antt =====
-- The precedence of semantic versioning, and that the comparison of core_policy.rs decides it.
use clash_verge_cli.Prelude.{
  ◌≡◌, refl, sym, ap, ◌∙◌, ◌↔◌, ◌⊎◌, inl, inr, List, [], ◌∷◌, arith, ℕ, ◌<◌, compare, Ordering,
}
use clash_verge_cli.CorePolicy.Comparator.{then_with, flip, IsOrder, compare-IsOrder, lex}
use clash_verge_cli.CorePolicy.Version.{
  Identifier, numeric, text, Version, cmp_text, cmp_identifier, cmp_prerelease, cmp,
}
use clash_verge_cli.CorePolicy.Version.Order.{
  cmp_identifier-IsOrder, first_difference-lex, cmp-IsOrder,
}

-- Two lists at their first difference; a list stands before its extensions.
abbrev pub Earlier : {A : Type 0} → (A → A → Type 0) → List A → List A → Type 0
Earlier R [] [] = ⊥
Earlier R [] (y ∷ ys) = Unit
Earlier R (x ∷ xs) [] = ⊥
Earlier R (x ∷ xs) (y ∷ ys) = R x y ⊎ ((x ≡ y) × Earlier R xs ys)

-- Numbers stand before texts, numbers by value, and texts by their bytes.
abbrev pub IsBelow : Identifier → Identifier → Type 0
IsBelow (numeric a) (numeric b) = a < b
IsBelow (numeric a) (text b) = Unit
IsBelow (text a) (numeric b) = ⊥
IsBelow (text a) (text b) = Earlier (λ c d. c < d) a b

-- A prerelease stands before its release.
abbrev pub IsPrior : List Identifier → List Identifier → Type 0
IsPrior [] ys = ⊥
IsPrior (x ∷ xs) [] = Unit
IsPrior (x ∷ xs) (y ∷ ys) = Earlier IsBelow (x ∷ xs) (y ∷ ys)

abbrev pub Precedes : Version → Version → Type 0
Precedes v w =
    (v.major < w.major)
    ⊎ ((v.major ≡ w.major)
        × ((v.minor < w.minor)
            ⊎ ((v.minor ≡ w.minor)
                × ((v.patch < w.patch)
                    ⊎ ((v.patch ≡ w.patch) × IsPrior v.prerelease w.prerelease)))))

then_with-lt :
    (a b : Ordering)
    → (then_with a b ≡ Ordering.lt) ↔ ((a ≡ Ordering.lt) ⊎ ((a ≡ Ordering.eq) × (b ≡ Ordering.lt)))
then_with-lt Ordering.lt b = (λ h. inl refl, λ h. refl)
then_with-lt Ordering.gt b = (λ h. cc, λ h. elim h [ inl e ↦ cc | inr (e, f) ↦ cc ])
then_with-lt Ordering.eq b = (λ h. inr (refl, h), λ h. elim h [ inl e ↦ cc | inr (e, f) ↦ f ])

compare_lt : (a b : ℕ) → (compare a b ≡ Ordering.lt) ↔ (a < b)
compare_lt a b = (λ h. ground (arith, h), λ h. ground (arith, h))

compare_eq : (a b : ℕ) → (compare a b ≡ Ordering.eq) ↔ (a ≡ b)
compare_eq a b = (compare-IsOrder.eq_same a b, λ e. ap (compare a) (sym e) ∙ compare-IsOrder.same a)

lex_lt :
    {A : Type 0} (cmp : A → A → Ordering) (R : A → A → Type 0)
    → IsOrder cmp
    → ((x y : A) → (cmp x y ≡ Ordering.lt) ↔ R x y)
    → (xs ys : List A) → (lex cmp xs ys ≡ Ordering.lt) ↔ Earlier R xs ys
unfolding lex
lex_lt cmp R o d [] [] = (λ h. cc, λ h. absurd h)
lex_lt cmp R o d [] (y ∷ ys) = (λ h. tt, λ h. refl)
lex_lt cmp R o d (x ∷ xs) [] = (λ h. cc, λ h. absurd h)
lex_lt cmp R o d (x ∷ xs) (y ∷ ys) =
    let t = then_with-lt (cmp x y) (lex cmp xs ys) in
    let rest = lex_lt cmp R o d xs ys in
    (
      (λ h. elim (t.0 h) [
        | inl e ↦ inl ((d x y).0 e)
        | inr (e, f) ↦ inr (o.eq_same x y e, rest.0 f)
      ]),
      (λ h. elim h [
        | inl e ↦ t.1 (inl ((d x y).1 e))
        | inr (e, f) ↦ t.1 (inr (ap (cmp x) (sym e) ∙ o.same x, rest.1 f))
      ]),
    )

identifier_lt : (a b : Identifier) → (cmp_identifier a b ≡ Ordering.lt) ↔ IsBelow a b
unfolding cmp_identifier cmp_text
identifier_lt (numeric a) (numeric b) = compare_lt a b
identifier_lt (numeric a) (text b) = (λ h. tt, λ h. refl)
identifier_lt (text a) (numeric b) = (λ h. cc, λ h. absurd h)
identifier_lt (text a) (text b) = lex_lt compare (λ c d. c < d) compare-IsOrder compare_lt a b

prerelease_lt : (xs ys : List Identifier) → (cmp_prerelease xs ys ≡ Ordering.lt) ↔ IsPrior xs ys
unfolding cmp_prerelease
prerelease_lt [] [] = (λ h. cc, λ h. absurd h)
prerelease_lt [] (y ∷ ys) = (λ h. cc, λ h. absurd h)
prerelease_lt (x ∷ xs) [] = (λ h. tt, λ h. refl)
prerelease_lt (x ∷ xs) (y ∷ ys) =
    let same = first_difference-lex (x ∷ xs) (y ∷ ys) in
    let order =
      lex_lt cmp_identifier IsBelow cmp_identifier-IsOrder identifier_lt (x ∷ xs) (y ∷ ys) in
    (λ h. order.0 (sym same ∙ h), λ h. same ∙ order.1 h)

step :
    (a b : Ordering) {P E Q : Type 0}
    → ((a ≡ Ordering.lt) ↔ P)
    → ((a ≡ Ordering.eq) ↔ E)
    → ((b ≡ Ordering.lt) ↔ Q)
    → (then_with a b ≡ Ordering.lt) ↔ (P ⊎ (E × Q))
step a b p e q = (
  (λ h. elim ((then_with-lt a b).0 h) [ inl l ↦ inl (p.0 l) | inr (s, t) ↦ inr (e.0 s, q.0 t) ]),
  (λ h. elim h [
    | inl l ↦ (then_with-lt a b).1 (inl (p.1 l))
    | inr (s, t) ↦ (then_with-lt a b).1 (inr (e.1 s, q.1 t))
  ]),
)

then_with_assoc : (a b c : Ordering) → then_with (then_with a b) c ≡ then_with a (then_with b c)
then_with_assoc Ordering.lt b c = refl
then_with_assoc Ordering.eq b c = refl
then_with_assoc Ordering.gt b c = refl

regrouped :
    (v w : Version)
    → cmp v w
      ≡ then_with (compare v.major w.major) (
          then_with
            (compare v.minor w.minor)
            (then_with (compare v.patch w.patch) (cmp_prerelease v.prerelease w.prerelease)))
unfolding cmp
regrouped v w =
    then_with_assoc (compare v.major w.major) _ (cmp_prerelease v.prerelease w.prerelease)
    ∙ ap (then_with (compare v.major w.major))
        (then_with_assoc (compare v.minor w.minor) (compare v.patch w.patch) _)

-- The comparison is the precedence of semantic versioning: by major, minor and patch, then a prerelease
-- before its release, then the identifiers at their first difference, where a number stands before a
-- text and a list before its extensions. Only equal versions tie.
pub cmp_precedence :
    (v w : Version)
    → ((cmp v w ≡ Ordering.lt) ↔ Precedes v w)
      × ((cmp v w ≡ Ordering.gt) ↔ Precedes w v)
      × ((cmp v w ≡ Ordering.eq) ↔ (v ≡ w))
cmp_precedence v w =
    let below = decided v w in
    let above = decided w v in
    let flipped = cmp-IsOrder.flipped v w in
    (
      below,
      ((λ h. above.0 (flipped ∙ ap flip h)), (λ h. cmp-IsOrder.flipped w v ∙ ap flip (above.1 h))),
      (cmp-IsOrder.eq_same v w, λ e. ap (cmp v) (sym e) ∙ cmp-IsOrder.same v),
    )
  where
    decided : (v w : Version) → (cmp v w ≡ Ordering.lt) ↔ Precedes v w
    decided v w =
        let all =
          step (compare v.major w.major) _ (compare_lt v.major w.major) (compare_eq v.major w.major)
            (step (compare v.minor w.minor) _ (compare_lt v.minor w.minor)
              (compare_eq v.minor w.minor)
              (step (compare v.patch w.patch) _ (compare_lt v.patch w.patch)
                (compare_eq v.patch w.patch) (prerelease_lt v.prerelease w.prerelease))) in
        let same = regrouped v w in (λ h. all.0 (sym same ∙ h), λ h. same ∙ all.1 h)

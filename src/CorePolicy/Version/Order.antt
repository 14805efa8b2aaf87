-- ===== src/CorePolicy/Version/Order.antt =====
-- The comparison of versions is a total order whose ties are equal versions, as core_policy.rs
-- needs for `classify`, and agrees with the lexicographic order of the identifiers.
use clash_verge_cli.Prelude.{◌≡◌, refl, ap, List, [], ◌∷◌, arith, ℕ, compare, Ordering, length}
use clash_verge_cli.CorePolicy.Comparator.{
  then_with, flip, IsOrder, compare-IsOrder, lex, lex-IsOrder,
}
use clash_verge_cli.CorePolicy.Version.{
  Identifier, numeric, text, Version, cmp_text, cmp_identifier, first_difference, cmp_prerelease,
  cmp_core, cmp,
}

cmp_identifier_same : (a : Identifier) → cmp_identifier a a ≡ Ordering.eq
unfolding cmp_identifier cmp_text
cmp_identifier_same (numeric a) = compare-IsOrder.same a
cmp_identifier_same (text a) = (lex-IsOrder compare compare-IsOrder).same a

cmp_identifier_eq_same : (a b : Identifier) → cmp_identifier a b ≡ Ordering.eq → a ≡ b
unfolding cmp_identifier cmp_text
cmp_identifier_eq_same (numeric a) (numeric b) h = ap numeric (compare-IsOrder.eq_same a b h)
cmp_identifier_eq_same (numeric a) (text b) h = cc
cmp_identifier_eq_same (text a) (numeric b) h = cc
cmp_identifier_eq_same (text a) (text b) h =
    ap text ((lex-IsOrder compare compare-IsOrder).eq_same a b h)

cmp_identifier_flipped : (a b : Identifier) → cmp_identifier b a ≡ flip (cmp_identifier a b)
unfolding cmp_identifier cmp_text
cmp_identifier_flipped (numeric a) (numeric b) = compare-IsOrder.flipped a b
cmp_identifier_flipped (numeric a) (text b) = refl
cmp_identifier_flipped (text a) (numeric b) = refl
cmp_identifier_flipped (text a) (text b) = (lex-IsOrder compare compare-IsOrder).flipped a b

cmp_identifier_lt_trans :
    (a b c : Identifier)
    → cmp_identifier a b ≡ Ordering.lt
    → cmp_identifier b c ≡ Ordering.lt
    → cmp_identifier a c ≡ Ordering.lt
unfolding cmp_identifier cmp_text
cmp_identifier_lt_trans (numeric a) (numeric b) (numeric c) h k = compare-IsOrder.lt_trans a b c h k
cmp_identifier_lt_trans (numeric a) (numeric b) (text c) h k = refl
cmp_identifier_lt_trans (numeric a) (text b) (numeric c) h k = cc
cmp_identifier_lt_trans (numeric a) (text b) (text c) h k = refl
cmp_identifier_lt_trans (text a) (numeric b) c h k = cc
cmp_identifier_lt_trans (text a) (text b) (numeric c) h k = cc
cmp_identifier_lt_trans (text a) (text b) (text c) h k =
    (lex-IsOrder compare compare-IsOrder).lt_trans a b c h k

pub cmp_identifier-IsOrder : IsOrder cmp_identifier
cmp_identifier-IsOrder = record {
  same = cmp_identifier_same;
  eq_same = cmp_identifier_eq_same;
  flipped = cmp_identifier_flipped;
  lt_trans = cmp_identifier_lt_trans;
}

-- The loop with its fallback to the lengths is the lexicographic order.
pub first_difference-lex :
    (xs ys : List Identifier)
    → then_with (first_difference xs ys) (compare (length xs) (length ys))
      ≡ lex cmp_identifier xs ys
unfolding first_difference lex
first_difference-lex [] [] = refl
first_difference-lex [] (y ∷ ys) = ground arith
first_difference-lex (x ∷ xs) [] = ground arith
first_difference-lex (x ∷ xs) (y ∷ ys) = ground (arith, first_difference-lex xs ys)

-- What the versions compare by, as one sequence of keys: a release is above its prereleases.
abbrev rank : List Identifier → ℕ
rank [] = 1
rank (x ∷ xs) = 0

abbrev standard : Version → Version → Ordering
standard v w = then_with (cmp_core v w) (
    then_with (compare (rank v.prerelease) (rank w.prerelease))
      (lex cmp_identifier v.prerelease w.prerelease))

cmp_prerelease-lex :
    (xs ys : List Identifier)
    → cmp_prerelease xs ys ≡ then_with (compare (rank xs) (rank ys)) (lex cmp_identifier xs ys)
unfolding cmp_prerelease lex
cmp_prerelease-lex [] [] = refl
cmp_prerelease-lex [] (y ∷ ys) = refl
cmp_prerelease-lex (x ∷ xs) [] = refl
cmp_prerelease-lex (x ∷ xs) (y ∷ ys) = first_difference-lex (x ∷ xs) (y ∷ ys)

cmp-standard : (v w : Version) → cmp v w ≡ standard v w
unfolding cmp
cmp-standard v w = rw (cmp_prerelease-lex v.prerelease w.prerelease) refl

ids : IsOrder (lex cmp_identifier)
ids = lex-IsOrder cmp_identifier cmp_identifier-IsOrder

standard_eq_same : (v w : Version) → standard v w ≡ Ordering.eq → v ≡ w
standard_eq_same v w h = ground (arith, ids.eq_same v.prerelease w.prerelease)

standard_lt_trans :
    (v w x : Version)
    → standard v w ≡ Ordering.lt
    → standard w x ≡ Ordering.lt
    → standard v x ≡ Ordering.lt
standard_lt_trans v w x h k = ground (
  arith,
  ids.lt_trans v.prerelease w.prerelease x.prerelease,
  ids.eq_same v.prerelease w.prerelease,
  ids.eq_same w.prerelease x.prerelease,
  ids.same w.prerelease,
)

standard_flipped : (v w : Version) → standard w v ≡ flip (standard v w)
standard_flipped v w = ground (arith, ids.flipped v.prerelease w.prerelease)

standard_same : (v : Version) → standard v v ≡ Ordering.eq
standard_same v = ground (arith, ids.same v.prerelease)

-- The comparison is a total order, and only equal versions tie.
pub cmp-IsOrder : IsOrder cmp
cmp-IsOrder = record {
  same = λ v. rw (cmp-standard v v) (standard_same v);
  eq_same = λ v w h. standard_eq_same v w (rw (cmp-standard v w) at h);
  flipped = λ v w. rw (cmp-standard v w, cmp-standard w v) (standard_flipped v w);
  lt_trans = λ v w x h k.
      rw (cmp-standard v x)
        (standard_lt_trans v w x (rw (cmp-standard v w) at h) (rw (cmp-standard w x) at k));
}

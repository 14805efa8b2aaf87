-- ===== src/CorePolicy/Comparator.antt =====
-- Three-way comparisons as Rust's `Ord` gives them, and the laws of a total order.
use clash_verge_cli.Prelude.{◌≡◌, refl, List, [], ◌∷◌, arith, ℕ, compare, Ordering}

-- `Ordering::then_with`
abbrev pub then_with : Ordering → Ordering → Ordering
then_with Ordering.eq next = next
then_with Ordering.lt next = Ordering.lt
then_with Ordering.gt next = Ordering.gt

abbrev pub flip : Ordering → Ordering
flip Ordering.lt = Ordering.gt
flip Ordering.eq = Ordering.eq
flip Ordering.gt = Ordering.lt

pub record IsOrder {A : Type 0} (cmp : A → A → Ordering) : Type 0 where
  pub same : (a : A) → cmp a a ≡ Ordering.eq
  pub eq_same : (a b : A) → cmp a b ≡ Ordering.eq → a ≡ b
  pub flipped : (a b : A) → cmp b a ≡ flip (cmp a b)
  pub lt_trans : (a b c : A) → cmp a b ≡ Ordering.lt → cmp b c ≡ Ordering.lt → cmp a c ≡ Ordering.lt

compare_same : (a : ℕ) → compare a a ≡ Ordering.eq
compare_same a = ground arith

compare_eq_same : (a b : ℕ) → compare a b ≡ Ordering.eq → a ≡ b
compare_eq_same a b h = ground arith

compare_flipped : (a b : ℕ) → compare b a ≡ flip (compare a b)
compare_flipped a b = ground arith

compare_lt_trans :
    (a b c : ℕ) → compare a b ≡ Ordering.lt → compare b c ≡ Ordering.lt → compare a c ≡ Ordering.lt
compare_lt_trans a b c h k = ground arith

pub compare-IsOrder : IsOrder compare
compare-IsOrder = record {
  same = compare_same;
  eq_same = compare_eq_same;
  flipped = compare_flipped;
  lt_trans = compare_lt_trans;
}

-- The lexicographic comparison of two sequences, a proper prefix first.
module _ {A : Type 0} (cmp : A → A → Ordering) where
  unfoldable pub lex : List A → List A → Ordering
  lex [] [] = Ordering.eq
  lex [] (y ∷ ys) = Ordering.lt
  lex (x ∷ xs) [] = Ordering.gt
  lex (x ∷ xs) (y ∷ ys) = then_with (cmp x y) (lex xs ys)

  module _ (o : IsOrder cmp) where
    lex_same : (xs : List A) → lex xs xs ≡ Ordering.eq
    unfolding lex
    lex_same [] = refl
    lex_same (x ∷ xs) = ground (arith, o.same x, lex_same xs)

    lex_eq_same : (xs ys : List A) → lex xs ys ≡ Ordering.eq → xs ≡ ys
    unfolding lex
    lex_eq_same [] [] h = refl
    lex_eq_same [] (y ∷ ys) h = cc
    lex_eq_same (x ∷ xs) [] h = cc
    lex_eq_same (x ∷ xs) (y ∷ ys) h = ground (arith, o.eq_same x y, lex_eq_same xs ys)

    lex_flipped : (xs ys : List A) → lex ys xs ≡ flip (lex xs ys)
    unfolding lex
    lex_flipped [] [] = refl
    lex_flipped [] (y ∷ ys) = refl
    lex_flipped (x ∷ xs) [] = refl
    lex_flipped (x ∷ xs) (y ∷ ys) = ground (arith, o.flipped x y, lex_flipped xs ys)

    lex_lt_trans :
        (xs ys zs : List A)
        → lex xs ys ≡ Ordering.lt
        → lex ys zs ≡ Ordering.lt
        → lex xs zs ≡ Ordering.lt
    unfolding lex
    lex_lt_trans [] [] zs h k = cc
    lex_lt_trans [] (y ∷ ys) [] h k = cc
    lex_lt_trans [] (y ∷ ys) (z ∷ zs) h k = refl
    lex_lt_trans (x ∷ xs) [] zs h k = cc
    lex_lt_trans (x ∷ xs) (y ∷ ys) [] h k = cc
    lex_lt_trans (x ∷ xs) (y ∷ ys) (z ∷ zs) h k =
        ground
          (arith, o.lt_trans x y z, o.eq_same x y, o.eq_same y z, o.same y, lex_lt_trans xs ys zs)

    pub lex-IsOrder : IsOrder lex
    lex-IsOrder = record {
      same = lex_same;
      eq_same = lex_eq_same;
      flipped = lex_flipped;
      lt_trans = lex_lt_trans;
    }

-- ===== src/Prelude/Sorting.antt =====
-- `sort_by` of the standard library, which is stable: equal elements keep their order.
use Prim.Native.Nat.{suc}
use mathlib.Core.Path.{◌≡◌, refl, sym, ap, ◌∙◌, subst}
use mathlib.Core.Logic.{◌⊎◌, inl, inr}
use mathlib.Core.Bool.{Bool, true, false}
use mathlib.Core.List.{List, [], ◌∷◌}
use native.Mathlib.Omega.{arith}
use clash_verge_cli.Prelude.Tests.{if◌then◌else◌, Bool-cases}
use clash_verge_cli.Prelude.Lists.{length}
use clash_verge_cli.Prelude.Predicates.{Member, here, there, not-Member-nil, Member-cons}

module _ {A : Type 0} (le : A → A → Bool) where
  unfoldable pub insert_by : A → List A → List A
  insert_by x [] = x ∷ []
  insert_by x (y ∷ ys) = if le x y then x ∷ y ∷ ys else y ∷ insert_by x ys

  unfoldable pub sort_by : List A → List A
  unfolding insert_by
  sort_by [] = []
  sort_by (x ∷ xs) = insert_by x (sort_by xs)

  -- No element stands before a smaller one next to it.
  abbrev pub Sorted : List A → Type 0
  Sorted [] = Unit
  Sorted (x ∷ []) = Unit
  Sorted (x ∷ y ∷ ys) = (le x y ≡ true) × Sorted (y ∷ ys)

  insert_by-Member :
      (x : A) (ys : List A) {z : A} → Member z (insert_by x ys) → (z ≡ x) ⊎ Member z ys
  unfolding insert_by
  insert_by-Member x [] m = Member-cons m
  insert_by-Member x (y ∷ ys) m = elim (Bool-cases (le x y)) [
    | inl e ↦ Member-cons (rw e at m)
    | inr e ↦ elim (Member-cons (rw e at m)) [
      | inl same ↦ inr (here same)
      | inr n ↦ elim (insert_by-Member x ys n) [ inl k ↦ inl k | inr k ↦ inr (there k) ]
    ]
  ]

  Member-insert_by_old : (x : A) (ys : List A) {z : A} → Member z ys → Member z (insert_by x ys)
  unfolding insert_by
  Member-insert_by_old x [] m = absurd (not-Member-nil m)
  Member-insert_by_old x (y ∷ ys) m = elim (Bool-cases (le x y)) [
    | inl e ↦ rw e (there m)
    | inr e ↦ rw e (elim (Member-cons m) [
      | inl same ↦ here same
      | inr n ↦ there (Member-insert_by_old x ys n)
    ])
  ]

  Member-insert_by_new : (x : A) (ys : List A) → Member x (insert_by x ys)
  unfolding insert_by
  Member-insert_by_new x [] = here refl
  Member-insert_by_new x (y ∷ ys) = elim (Bool-cases (le x y)) [
    | inl e ↦ rw e (here refl)
    | inr e ↦ rw e (there (Member-insert_by_new x ys))
  ]

  pub sort_by-Member : (xs : List A) {z : A} → Member z (sort_by xs) → Member z xs
  unfolding sort_by
  sort_by-Member [] m = m
  sort_by-Member (x ∷ xs) m = elim (insert_by-Member x (sort_by xs) m) [
    | inl same ↦ here same
    | inr n ↦ there (sort_by-Member xs n)
  ]

  pub Member-sort_by : (xs : List A) {z : A} → Member z xs → Member z (sort_by xs)
  unfolding sort_by
  Member-sort_by [] m = m
  Member-sort_by (x ∷ xs) m = elim (Member-cons m) [
    | inl same ↦
        subst (λ z. Member z (insert_by x (sort_by xs))) (sym same)
          (Member-insert_by_new x (sort_by xs))
    | inr n ↦ Member-insert_by_old x (sort_by xs) (Member-sort_by xs n)
  ]

  length-insert_by : (x : A) (ys : List A) → length (insert_by x ys) ≡ suc (length ys)
  unfolding insert_by
  length-insert_by x [] = refl
  length-insert_by x (y ∷ ys) = ground (arith, length-insert_by x ys)

  pub length-sort_by : (xs : List A) → length (sort_by xs) ≡ length xs
  unfolding sort_by
  length-sort_by [] = refl
  length-sort_by (x ∷ xs) = length-insert_by x (sort_by xs) ∙ ap suc (length-sort_by xs)

  module _ (total : (x y : A) → le x y ≡ false → le y x ≡ true) where
    insert_by-Sorted : (x : A) (ys : List A) → Sorted ys → Sorted (insert_by x ys)
    unfolding insert_by
    insert_by-Sorted x [] h = tt
    insert_by-Sorted x (y ∷ []) h = elim (Bool-cases (le x y)) [
      | inl e ↦ rw e (e, tt)
      | inr e ↦ rw e (total x y e, tt)
    ]
    insert_by-Sorted x (y ∷ z ∷ ys) (k, h) = elim (Bool-cases (le x y)) [
      | inl e ↦ rw e (e, (k, h))
      | inr e ↦ elim (Bool-cases (le x z)) [
        | inl f ↦ rw (e, f) (total x y e, (f, h))
        | inr f ↦ rw (e, f) (k, subst Sorted (after x z ys f) (insert_by-Sorted x (z ∷ ys) h))
      ]
    ]
      where
        after : (x z : A) (ys : List A) → le x z ≡ false → insert_by x (z ∷ ys) ≡ z ∷ insert_by x ys
        after x z ys f = rw f refl

    pub sort_by-Sorted : (xs : List A) → Sorted (sort_by xs)
    unfolding sort_by
    sort_by-Sorted [] = tt
    sort_by-Sorted (x ∷ xs) = insert_by-Sorted x (sort_by xs) (sort_by-Sorted xs)

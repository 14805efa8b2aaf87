-- ===== src/Prelude/Predicates.antt =====
-- Predicates on lists by recursion, which compute to tuples and sums.
use mathlib.Core.Path.{◌≡◌, refl, sym, subst, ◌∙◌, ap}
use mathlib.Core.Option.{Option, none, some}
use mathlib.Core.Logic.{◌⊎◌, inl, inr}
use Prim.Native.String.{String}
use mathlib.Core.Bool.{Bool, true}
use text.Mathlib.Text.{◌==◌}
use text.Mathlib.TextEquality.{eq_iff}
use clash_verge_cli.Prelude.Options.{eq_of_some}
use clash_verge_cli.Prelude.Lists.{find, keep, contains}
use clash_verge_cli.Prelude.Tests.{Bool-cases, Option-cases, false-ne-true}
use mathlib.Core.List.{List, [], ◌∷◌, ◌++◌}

module _ {ℓ κ} {A : Type ℓ} (P : A → Type κ) where
  abbrev pub All : List A → Type κ
  All [] = Unit
  All (x ∷ xs) = P x × All xs

  pub All-append : (xs ys : List A) → All xs → All ys → All (xs ++ ys)
  All-append [] ys _ k = k
  All-append (x ∷ xs) ys (p, h) k = (p, All-append xs ys h k)

pub All-imp {ℓ κ μ} :
    {A : Type ℓ} {P : A → Type κ} {Q : A → Type μ} (f : (x : A) → P x → Q x) (xs : List A)
    → All P xs
    → All Q xs
All-imp f [] h = tt
All-imp f (x ∷ xs) (p, h) = (f x p, All-imp f xs h)

-- An element with its place in the list.
pub data Member {ℓ} {A : Type ℓ} (a : A) : List A → Type ℓ where
  here : {x : A} {xs : List A} → a ≡ x → Member a (x ∷ xs)
  there : {x : A} {xs : List A} → Member a xs → Member a (x ∷ xs)

pub not-Member-nil {ℓ} : {A : Type ℓ} {a : A} → ¬ (Member a [])
not-Member-nil m = elim m [ ]

pub Member-cons {ℓ} :
    {A : Type ℓ} {a x : A} {xs : List A} → Member a (x ∷ xs) → (a ≡ x) ⊎ Member a xs
Member-cons (here e) = inl e
Member-cons (there m) = inr m

pub All-Member {ℓ κ} :
    {A : Type ℓ} (P : A → Type κ) (xs : List A) {a : A} → All P xs → Member a xs → P a
All-Member P [] h m = absurd (not-Member-nil m)
All-Member P (x ∷ xs) (p, h) m = elim (Member-cons m) [
  | inl e ↦ subst P (sym e) p
  | inr n ↦ All-Member P xs h n
]

pub All-of_Member {ℓ κ} :
    {A : Type ℓ} (P : A → Type κ) (xs : List A) → ((x : A) → Member x xs → P x) → All P xs
All-of_Member P [] h = tt
All-of_Member P (x ∷ xs) h = (h x (here refl), All-of_Member P xs (λ y m. h y (there m)))

pub Member-append_first {ℓ} :
    {A : Type ℓ} {a : A} (xs ys : List A) → Member a xs → Member a (xs ++ ys)
Member-append_first [] ys m = absurd (not-Member-nil m)
Member-append_first (x ∷ xs) ys m = elim (Member-cons m) [
  | inl e ↦ here e
  | inr n ↦ there (Member-append_first xs ys n)
]

pub Member-append_second {ℓ} :
    {A : Type ℓ} {a : A} (xs ys : List A) → Member a ys → Member a (xs ++ ys)
Member-append_second [] ys m = m
Member-append_second (x ∷ xs) ys m = there (Member-append_second xs ys m)

pub Member-append_cases {ℓ} :
    {A : Type ℓ} {a : A} (xs ys : List A) → Member a (xs ++ ys) → Member a xs ⊎ Member a ys
Member-append_cases [] ys m = inr m
Member-append_cases (x ∷ xs) ys m = elim (Member-cons m) [
  | inl e ↦ inl (here e)
  | inr n ↦ elim (Member-append_cases xs ys n) [ inl k ↦ inl (there k) | inr k ↦ inr k ]
]

pub Member-append_last {ℓ} : {A : Type ℓ} (xs : List A) (a : A) → Member a (xs ++ a ∷ [])
Member-append_last [] a = here refl
Member-append_last (x ∷ xs) a = there (Member-append_last xs a)

-- `iter().filter_map(f)`
module _ {ℓ κ} {A : Type ℓ} {B : Type κ} (f : A → Option B) where
  abbrev pub filter_map : List A → List B
  filter_map [] = []
  filter_map (x ∷ xs) = let rest = filter_map xs in elim (f x) [ none ↦ rest | some b ↦ b ∷ rest ]

module _ {ℓ κ} {A : Type ℓ} {B : Type κ} (f : A → Option B) where
  filter_map-none : (x : A) (xs : List A) → f x ≡ none → filter_map f (x ∷ xs) ≡ filter_map f xs
  filter_map-none x xs e = rw (e, filter_map) refl

  filter_map-some :
      (x : A) (xs : List A) {b : B} → f x ≡ some b → filter_map f (x ∷ xs) ≡ b ∷ filter_map f xs
  filter_map-some x xs e = rw (e, filter_map) refl

  pub Member-filter_map :
      (xs : List A) {b : B} → Member b (filter_map f xs) → (a : A) × Member a xs × (f a ≡ some b)
  Member-filter_map [] m = absurd (not-Member-nil m)
  Member-filter_map (x ∷ xs) {b} m =
      let ih = Member-filter_map xs {b = b} in
      elim (Option-cases (f x)) [
        | inl e ↦
            let (a, n, h) = ih (subst (Member b) (filter_map-none x xs e) m) in (a, there n, h)
        | inr (c, e) ↦ elim (Member-cons (subst (Member b) (filter_map-some x xs e) m)) [
          | inl same ↦ (x, here refl, e ∙ ap some (sym same))
          | inr n ↦ let (a, k, h) = ih n in (a, there k, h)
        ]
      ]

  pub filter_map-Member :
      (xs : List A) {a : A} {b : B} → Member a xs → f a ≡ some b → Member b (filter_map f xs)
  filter_map-Member [] m h = absurd (not-Member-nil m)
  filter_map-Member (x ∷ xs) {a} {b} m h =
      let ih = filter_map-Member xs {a = a} {b = b} in
      elim (Member-cons m) [
        | inl same ↦ subst (Member b) (sym (filter_map-some x xs (ap f (sym same) ∙ h))) (here refl)
        | inr n ↦ elim (Option-cases (f x)) [
          | inl e ↦ subst (Member b) (sym (filter_map-none x xs e)) (ih n h)
          | inr (c, e) ↦ subst (Member b) (sym (filter_map-some x xs e)) (there (ih n h))
        ]
      ]

pub contains-All {κ} :
    (P : String → Type κ) (xs : List String) (s : String) → contains xs s ≡ true → All P xs → P s
contains-All P [] s h k = absurd (false-ne-true h)
contains-All P (x ∷ xs) s h (p, k) = elim (Bool-cases (x == s)) [
  | inl e ↦ subst P ((eq_iff x s).0 e) p
  | inr e ↦ contains-All P xs s (rw e at h) k
]

module _ {ℓ} {A : Type ℓ} (p : A → Bool) where
  pub Member-find : (xs : List A) {a : A} → find p xs ≡ some a → Member a xs × (p a ≡ true)
  Member-find [] h = cc
  Member-find (x ∷ xs) {a} h = elim (Bool-cases (p x)) [
    | inl e ↦ let same = eq_of_some (rw e at h) in (here (sym same), ap p (sym same) ∙ e)
    | inr e ↦ let (m, t) = Member-find xs (rw e at h) in (there m, t)
  ]

  pub keep-Member : (xs : List A) {a : A} → Member a (keep p xs) → Member a xs × (p a ≡ true)
  keep-Member [] m = absurd (not-Member-nil m)
  keep-Member (x ∷ xs) {a} m =
      let ih = keep-Member xs {a = a} in
      elim (Bool-cases (p x)) [
        | inl e ↦ elim (Member-cons (rw e at m)) [
          | inl same ↦ (here same, ap p same ∙ e)
          | inr n ↦ let (k, t) = ih n in (there k, t)
        ]
        | inr e ↦ let (k, t) = ih (rw e at m) in (there k, t)
      ]

  pub Member-keep : (xs : List A) {a : A} → Member a xs → p a ≡ true → Member a (keep p xs)
  Member-keep [] m h = absurd (not-Member-nil m)
  Member-keep (x ∷ xs) {a} m h = elim (Bool-cases (p x)) [
    | inl e ↦
        rw e (elim (Member-cons m) [ inl same ↦ here same | inr n ↦ there (Member-keep xs n h) ])
    | inr e ↦ rw e (elim (Member-cons m) [
      | inl same ↦ absurd (false-ne-true (sym e ∙ ap p (sym same) ∙ h))
      | inr n ↦ Member-keep xs n h
    ])
  ]

pub contains-Member : (xs : List String) (s : String) → Member s xs → contains xs s ≡ true
contains-Member [] s m = absurd (not-Member-nil m)
contains-Member (x ∷ xs) s m = elim (Bool-cases (x == s)) [
  | inl e ↦ rw e refl
  | inr e ↦ elim (Member-cons m) [
    | inl same ↦ absurd (false-ne-true (sym e ∙ (eq_iff x s).1 (sym same)))
    | inr n ↦ rw e (contains-Member xs s n)
  ]
]

pub Member-contains : (xs : List String) (s : String) → contains xs s ≡ true → Member s xs
Member-contains [] s h = absurd (false-ne-true h)
Member-contains (x ∷ xs) s h = elim (Bool-cases (x == s)) [
  | inl e ↦ here (sym ((eq_iff x s).0 e))
  | inr e ↦ there (Member-contains xs s (rw e at h))
]

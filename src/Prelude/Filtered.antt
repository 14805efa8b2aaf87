-- ===== src/Prelude/Filtered.antt =====
-- What a filter leaves of a list, as a relation.
use mathlib.Core.Path.{◌≡◌}
use mathlib.Core.Logic.{inl, inr}
use mathlib.Core.Bool.{Bool, true, false}
use mathlib.Core.List.{List, [], ◌∷◌}
use clash_verge_cli.Prelude.Lists.{keep}
use clash_verge_cli.Prelude.Tests.{Bool-cases}

-- The second list has, in the order of the first, exactly the elements with the property.
pub data IsFiltered {A : Type 0} (P : A → Type 0) : List A → List A → Type 0 where
  end_of_list : IsFiltered P [] []
  taken : {x : A} {xs ys : List A} → P x → IsFiltered P xs ys → IsFiltered P (x ∷ xs) (x ∷ ys)
  left_out : {x : A} {xs ys : List A} → ¬ (P x) → IsFiltered P xs ys → IsFiltered P (x ∷ xs) ys

pub keep-IsFiltered :
    {A : Type 0} (P : A → Type 0) (p : A → Bool)
    → ((x : A) → p x ≡ true → P x)
    → ((x : A) → p x ≡ false → ¬ (P x))
    → (xs : List A) → IsFiltered P xs (keep p xs)
keep-IsFiltered P p holds fails [] = end_of_list
keep-IsFiltered P p holds fails (x ∷ xs) = elim (Bool-cases (p x)) [
  | inl e ↦ rw e (taken (holds x e) (keep-IsFiltered P p holds fails xs))
  | inr e ↦ rw e (left_out (fails x e) (keep-IsFiltered P p holds fails xs))
]

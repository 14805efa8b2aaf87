-- ===== src/Prelude/Trim.antt =====
-- `str::trim` and the comparison without case of the standard library, as the program calls them.
use Prim.Native.Nat.{ℕ, ◌+◌, ◌-◌}
use mathlib.Core.Path.{◌≡◌, refl}
use mathlib.Core.Logic.{inl, inr}
use mathlib.Core.Bool.{Bool, false, ◌&&◌, ◌||◌}
use mathlib.Core.List.{[], ◌∷◌, map}
use native.Mathlib.Omega.{arith}
use clash_verge_cli.Prelude.Tests.{leb, eqb, if◌then◌else◌, Bool-cases}
use clash_verge_cli.Prelude.Lists.{is_empty}
use clash_verge_cli.Prelude.Predicates.{All}
use clash_verge_cli.Prelude.Texts.{Text, text_eq, Lacks}

-- `char::is_whitespace`
unfoldable pub is_whitespace : ℕ → Bool
is_whitespace c =
    leb 9 c && leb c 13
    || (eqb c 32
        || (eqb c 0x85
            || (eqb c 0xa0
                || (eqb c 0x1680
                    || (leb 0x2000 c && leb c 0x200a
                        || (eqb c 0x2028
                            || (eqb c 0x2029
                                || (eqb c 0x202f || (eqb c 0x205f || eqb c 0x3000)))))))))

unfoldable pub trim_start : Text → Text
trim_start [] = []
trim_start (c ∷ s) = let rest = trim_start s in if is_whitespace c then rest else c ∷ s

unfoldable pub trim_end : Text → Text
trim_end [] = []
trim_end (c ∷ s) =
    let rest = trim_end s in if is_empty rest && is_whitespace c then [] else c ∷ rest

unfoldable pub trim : Text → Text
trim s = trim_end (trim_start s)

-- `char::to_ascii_lowercase`
abbrev pub lowercase : ℕ → ℕ
lowercase c = if leb b'A' c && leb c b'Z' then c + 32 else c

abbrev pub eq_ignore_ascii_case : Text → Text → Bool
eq_ignore_ascii_case s t = text_eq (map lowercase s) (map lowercase t)

-- Trimming twice is trimming once.
trim_end-twice : (s : Text) → trim_end (trim_end s) ≡ trim_end s
unfolding trim_end
trim_end-twice [] = refl
trim_end-twice (c ∷ s) = ground (arith, trim_end-twice s)

trim_start-of_visible :
    (c : ℕ) (s : Text) → is_whitespace c ≡ false → trim_start (trim_end (c ∷ s)) ≡ trim_end (c ∷ s)
unfolding trim_start trim_end
trim_start-of_visible c s h = ground (arith, h)

trim_start-trim : (s : Text) → trim_start (trim_end (trim_start s)) ≡ trim_end (trim_start s)
unfolding trim_start trim_end
trim_start-trim [] = refl
trim_start-trim (c ∷ s) = elim (Bool-cases (is_whitespace c)) [
  | inl e ↦ rw e (trim_start-trim s)
  | inr e ↦ rw e (trim_start-of_visible c s e)
]

pub trim-twice : (s : Text) → trim (trim s) ≡ trim s
unfolding trim
trim-twice s = rw (trim_start-trim s) (trim_end-twice (trim_start s))

module _ (c : ℕ) where
  trim_start-Lacks : (s : Text) → Lacks c s → Lacks c (trim_start s)
  unfolding trim_start
  trim_start-Lacks [] h = tt
  trim_start-Lacks (d ∷ s) (ne, h) = elim (Bool-cases (is_whitespace d)) [
    | inl e ↦ rw e (trim_start-Lacks s h)
    | inr e ↦ rw e (ne, h)
  ]

  trim_end-Lacks : (s : Text) → Lacks c s → Lacks c (trim_end s)
  unfolding trim_end
  trim_end-Lacks [] h = tt
  trim_end-Lacks (d ∷ s) (ne, h) = elim (Bool-cases (is_empty (trim_end s) && is_whitespace d)) [
    | inl e ↦ rw e tt
    | inr e ↦ rw e (ne, trim_end-Lacks s h)
  ]

  pub trim-Lacks : (s : Text) → Lacks c s → Lacks c (trim s)
  unfolding trim
  trim-Lacks s h = trim_end-Lacks (trim_start s) (trim_start-Lacks s h)

-- What has no white space is not trimmed.
abbrev pub IsVisible : Text → Type 0
IsVisible = All (λ c. is_whitespace c ≡ false)

trim_start-visible : (s : Text) → IsVisible s → trim_start s ≡ s
unfolding trim_start
trim_start-visible [] h = refl
trim_start-visible (c ∷ s) (e, h) = rw e refl

trim_end-visible : (s : Text) → IsVisible s → trim_end s ≡ s
unfolding trim_end
trim_end-visible [] h = refl
trim_end-visible (c ∷ s) (e, h) = ground (arith, trim_end-visible s h)

pub trim-visible : (s : Text) → IsVisible s → trim s ≡ s
unfolding trim
trim-visible s h = rw (trim_start-visible s h) (trim_end-visible s h)

-- `char::to_ascii_uppercase`
abbrev pub uppercase : ℕ → ℕ
uppercase c = if leb b'a' c && leb c b'z' then c - 32 else c

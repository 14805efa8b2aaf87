-- ===== src/Prelude/Numbers.antt =====
-- Numbers as texts: printed by `format!` and read by `str::parse`.
use Prim.Native.Nat.{ℕ, zero, suc, ◌+◌, ◌-◌, ◌*◌, ◌/◌, ◌%◌, ◌<◌}
use mathlib.Core.Path.{◌≡◌, refl}
use mathlib.Core.Logic.{inl, inr}
use mathlib.Core.Bool.{true, false, not, ◌||◌}
use mathlib.Core.Option.{Option, some}
use mathlib.Core.List.{[], ◌∷◌, ◌++◌}
use native.Mathlib.Omega.{arith}
use clash_verge_cli.Prelude.Tests.{ltb, if◌then◌else◌, lt→ltb, Bool-cases}
use clash_verge_cli.Prelude.Lists.{all, is_empty}
use clash_verge_cli.Prelude.Options.{◌>>◌, bail_if}
use clash_verge_cli.Prelude.Predicates.{All, All-append, All-imp}
use clash_verge_cli.Prelude.Texts.{Text, strip, is_digit, value_from}
use clash_verge_cli.Prelude.Trim.{is_whitespace, IsVisible}

-- The decimal digits of a number; the fuel is the number of digits that are left.
decimal : ℕ → ℕ → Text
decimal zero n = []
decimal (suc f) n =
    let high = decimal f (n / 10) in
    if ltb n 10 then (b'0' + n) ∷ [] else high ++ (b'0' + n % 10) ∷ []

-- A `u16` has five digits at most.
pub print_u16 : ℕ → Text
unfolding decimal
print_u16 n = decimal 5 n

-- `parse` of an unsigned number below a bound: a plus sign may stand in front.
abbrev pub parse_unsigned : ℕ → Text → Option ℕ
parse_unsigned limit s = do
  bail_if (is_empty (strip b'+' s) || not (all is_digit (strip b'+' s)))
  bail_if (not (ltb (value_from 0 (strip b'+' s)) limit))
  some (value_from 0 (strip b'+' s))

unfoldable pub parse_u16 : Text → Option ℕ
parse_u16 s = parse_unsigned 65536 s

abbrev bound : ℕ → ℕ
bound zero = 1
bound (suc f) = 10 * bound f

value_from-append :
    (k : ℕ) (s : Text) (c : ℕ) → value_from k (s ++ c ∷ []) ≡ 10 * value_from k s + (c - b'0')
value_from-append k [] c = refl
value_from-append k (d ∷ s) c = value_from-append (10 * k + (d - b'0')) s c

value-decimal : (f n : ℕ) → n < bound f → value_from 0 (decimal f n) ≡ n
unfolding decimal
value-decimal zero n h = omega arith
value-decimal (suc f) n h =
    ground
      (arith, value_from-append 0 (decimal f (n / 10)) (b'0' + n % 10), value-decimal f (n / 10))

abbrev pub IsDigits : Text → Type 0
IsDigits = All (λ c. is_digit c ≡ true)

decimal-IsDigits : (f n : ℕ) → IsDigits (decimal f n)
unfolding decimal
decimal-IsDigits zero n = tt
decimal-IsDigits (suc f) n = elim (Bool-cases (ltb n 10)) [
  | inl e ↦ rw e (ground arith, tt)
  | inr e ↦ rw e (
      All-append (λ c. is_digit c ≡ true) (decimal f (n / 10)) _ (decimal-IsDigits f (n / 10))
        (ground arith, tt))
]

decimal-nonempty : (f n : ℕ) → is_empty (decimal (suc f) n) ≡ false
unfolding decimal
decimal-nonempty f n = elim (Bool-cases (ltb n 10)) [
  | inl e ↦ rw e refl
  | inr e ↦ rw e (last (decimal f (n / 10)) (b'0' + n % 10))
]
  where
    last : (s : Text) (c : ℕ) → is_empty (s ++ c ∷ []) ≡ false
    last [] c = refl
    last (d ∷ s) c = refl

pub print_u16-IsDigits : (n : ℕ) → IsDigits (print_u16 n)
unfolding print_u16
print_u16-IsDigits n = decimal-IsDigits 5 n

pub print_u16-nonempty : (n : ℕ) → is_empty (print_u16 n) ≡ false
unfolding print_u16
print_u16-nonempty n = decimal-nonempty 4 n

all-IsDigits : (s : Text) → IsDigits s → all is_digit s ≡ true
all-IsDigits [] h = refl
all-IsDigits (c ∷ s) (e, h) = ground (arith, all-IsDigits s h)

strip-IsDigits : (s : Text) → IsDigits s → strip b'+' s ≡ s
strip-IsDigits [] h = refl
strip-IsDigits (c ∷ s) (e, h) = ground arith

value-print_u16 : (n : ℕ) → n < 65536 → value_from 0 (print_u16 n) ≡ n
unfolding print_u16
value-print_u16 n h = value-decimal 5 n (omega arith)

-- A port that is printed is read back.
pub parse_u16-print_u16 : (n : ℕ) → n < 65536 → parse_u16 (print_u16 n) ≡ some n
unfolding parse_u16
parse_u16-print_u16 n h =
    rw
      (
        strip-IsDigits (print_u16 n) (print_u16-IsDigits n),
        all-IsDigits (print_u16 n) (print_u16-IsDigits n),
        print_u16-nonempty n,
        value-print_u16 n h,
        lt→ltb n 65536 h,
      )
      refl

-- A port that is read fits in sixteen bits.
pub parse_u16-bound : (s : Text) (n : ℕ) → parse_u16 s ≡ some n → n < 65536
unfolding parse_u16
parse_u16-bound s n h = ground arith

pub IsDigits-IsVisible : (s : Text) → IsDigits s → IsVisible s
unfolding is_whitespace
IsDigits-IsVisible = All-imp (λ c e. ground arith)

-- ===== src/CorePolicy/Parse/Grammar.antt =====
-- What a version text looks like, said without the code of `Version::parse` in core_policy.rs:
-- numerals, identifiers, and how a text spells a version.
use clash_verge_cli.Prelude.{
  ◌≡◌, refl, ◌≢◌, ◌⊎◌, inl, inr, Bool, true, some, List, [], ◌∷◌, ◌++◌, arith, ℕ, ◌≤◌, ◌<◌,
  Bool-cases, false-ne-true, all, Text, join, is_digit, value_from, All, All-imp,
}
use clash_verge_cli.CorePolicy.Version.{Identifier, numeric, text}
use clash_verge_cli.CorePolicy.Parse.{u64_bound, parse_num, is_identifier_byte}

abbrev pub IsDigit : ℕ → Type 0
IsDigit c = (b'0' ≤ c) × (c ≤ b'9')

-- A letter, a digit or a dash.
abbrev pub IsIdentifierByte : ℕ → Type 0
IsIdentifierByte c =
    (IsDigit c) ⊎ ((b'a' ≤ c) × (c ≤ b'z')) ⊎ ((b'A' ≤ c) × (c ≤ b'Z')) ⊎ (c ≡ b'-')

abbrev pub HasNoLeadingZero : Text → Type 0
HasNoLeadingZero [] = ⊥
HasNoLeadingZero (c ∷ []) = Unit
HasNoLeadingZero (c ∷ d ∷ s) = c ≢ b'0'

-- A nonempty run of digits with no leading zero, whose value fits in 64 bits.
pub record IsNumeral (s : Text) (n : ℕ) : Type 0 where
  pub digits : All IsDigit s
  pub canonical : HasNoLeadingZero s
  pub value : value_from 0 s ≡ n
  pub fits : n < u64_bound

pub data SpellsIdentifier : Text → Identifier → Type 0 where
  spells_numeric : {s : Text} {n : ℕ} → IsNumeral s n → SpellsIdentifier s (numeric n)
  spells_text :
      {s : Text} → s ≢ [] → All IsIdentifierByte s → ¬ (All IsDigit s) → SpellsIdentifier s (text s)

abbrev pub SpellIdentifiers : List Text → List Identifier → Type 0
SpellIdentifiers [] [] = Unit
SpellIdentifiers [] (id ∷ ids) = ⊥
SpellIdentifiers (p ∷ ps) [] = ⊥
SpellIdentifiers (p ∷ ps) (id ∷ ids) = SpellsIdentifier p id × SpellIdentifiers ps ids

-- A part of the build metadata.
abbrev pub IsBuildPart : Text → Type 0
IsBuildPart s = (s ≢ []) × All IsIdentifierByte s

-- Nothing, or the mark `d` and the parts behind it.
abbrev pub suffix : ℕ → List Text → Text
suffix d [] = []
suffix d (p ∷ ps) = d ∷ join b'.' (p ∷ ps)

-- major.minor.patch[-pre.release][+build.parts]
abbrev pub core_text : Text → Text → Text → Text
core_text a b c = join b'.' (a ∷ b ∷ c ∷ [])

abbrev pub version_text : Text → Text → Text → List Text → List Text → Text
version_text a b c pre build = (core_text a b c ++ suffix b'-' pre) ++ suffix b'+' build

is_digit_of : (c : ℕ) → IsDigit c → is_digit c ≡ true
is_digit_of c h = ground arith

IsDigit-of : (c : ℕ) → is_digit c ≡ true → IsDigit c
IsDigit-of c h = ground arith

is_identifier_byte_of : (c : ℕ) → IsIdentifierByte c → is_identifier_byte c ≡ true
is_identifier_byte_of c h = ground arith

IsIdentifierByte-of : (c : ℕ) → is_identifier_byte c ≡ true → IsIdentifierByte c
IsIdentifierByte-of c h = ground arith

all_of {ℓ} :
    {P : ℕ → Type ℓ} (p : ℕ → Bool) (f : (c : ℕ) → P c → p c ≡ true) (s : Text)
    → All P s
    → all p s ≡ true
all_of p f [] h = refl
all_of p f (c ∷ s) (h, k) = rw (f c h, all_of p f s k) refl

of_all {ℓ} :
    {P : ℕ → Type ℓ} (p : ℕ → Bool) (f : (c : ℕ) → p c ≡ true → P c) (s : Text)
    → all p s ≡ true
    → All P s
of_all p f [] h = tt
of_all p f (c ∷ s) h = elim (Bool-cases (p c)) [
  | inl e ↦ (f c e, of_all p f s (rw e at h))
  | inr e ↦ absurd (false-ne-true (rw e at h))
]

pub all_digits : (s : Text) → All IsDigit s → all is_digit s ≡ true
all_digits = all_of is_digit is_digit_of

pub digits_of_all : (s : Text) → all is_digit s ≡ true → All IsDigit s
digits_of_all = of_all is_digit IsDigit-of

pub all_identifier_bytes : (s : Text) → All IsIdentifierByte s → all is_identifier_byte s ≡ true
all_identifier_bytes = all_of is_identifier_byte is_identifier_byte_of

pub identifier_bytes_of_all : (s : Text) → all is_identifier_byte s ≡ true → All IsIdentifierByte s
identifier_bytes_of_all = of_all is_identifier_byte IsIdentifierByte-of

pub digits-are-bytes : (s : Text) → All IsDigit s → All IsIdentifierByte s
digits-are-bytes = All-imp (λ c h. inl h)

-- A numeral is read as its value.
pub parse_num-numeral : (s : Text) (n : ℕ) → IsNumeral s n → parse_num (some s) ≡ some n
unfolding parse_num
parse_num-numeral [] n h = absurd h.canonical
parse_num-numeral (c ∷ []) n h = ground (arith, all_digits (c ∷ []) h.digits)
parse_num-numeral (c ∷ d ∷ s) n h = ground (arith, all_digits (c ∷ d ∷ s) h.digits)

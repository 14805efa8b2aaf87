-- ===== src/CorePolicy/Parse/Spelling.antt =====
-- `Version::parse` of core_policy.rs reads each version text as the version that it spells, with or
-- without the `v` in front and the build metadata behind.
use clash_verge_cli.Prelude.{
  ◌≡◌, refl, ◌≢◌, inl, inr, false, some, List, [], ◌∷◌, ◌++◌, append-nil, arith, ℕ, Bool-cases, all,
  any, is_empty, Text, split_once, join, is_digit, Lacks, split_once-append, split_once_whole,
  All-join, unwrap_or, All, All-imp,
}
use clash_verge_cli.CorePolicy.Version.{Identifier, numeric}
use clash_verge_cli.CorePolicy.Parse.{is_malformed_part, parse_identifier, parse_identifiers}
use clash_verge_cli.CorePolicy.Parse.Grammar.{
  IsDigit, IsIdentifierByte, IsNumeral, SpellsIdentifier, spells_numeric, spells_text,
  SpellIdentifiers, IsBuildPart, suffix, all_digits, digits_of_all, all_identifier_bytes,
  digits-are-bytes,
}

not_all_digits : (s : Text) → ¬ (All IsDigit s) → all is_digit s ≡ false
not_all_digits s h = elim (Bool-cases (all is_digit s)) [
  | inl e ↦ absurd (h (digits_of_all s e))
  | inr e ↦ e
]

parse_identifier-spelled :
    (s : Text) (id : Identifier) → SpellsIdentifier s id → parse_identifier s ≡ some id
unfolding parse_identifier
parse_identifier-spelled s _ (spells_numeric h) = numeral s _ h
  where
    numeral : (s : Text) (n : ℕ) → IsNumeral s n → parse_identifier s ≡ some (numeric n)
    numeral [] n h = absurd h.canonical
    numeral (c ∷ []) n h = ground (
      arith,
      all_digits (c ∷ []) h.digits,
      all_identifier_bytes (c ∷ []) (digits-are-bytes (c ∷ []) h.digits),
    )
    numeral (c ∷ d ∷ s) n h = ground (
      arith,
      all_digits (c ∷ d ∷ s) h.digits,
      all_identifier_bytes (c ∷ d ∷ s) (digits-are-bytes (c ∷ d ∷ s) h.digits),
    )
parse_identifier-spelled [] _ (spells_text ne bytes mixed) = absurd (ne refl)
parse_identifier-spelled (c ∷ s) _ (spells_text ne bytes mixed) =
    rw (all_identifier_bytes (c ∷ s) bytes, not_all_digits (c ∷ s) mixed) refl

pub parse_identifiers-spelled :
    (parts : List Text) (ids : List Identifier)
    → SpellIdentifiers parts ids
    → parse_identifiers parts ≡ some ids
unfolding parse_identifiers
parse_identifiers-spelled [] [] h = refl
parse_identifiers-spelled [] (id ∷ ids) h = absurd h
parse_identifiers-spelled (p ∷ ps) [] h = absurd h
parse_identifiers-spelled (p ∷ ps) (id ∷ ids) (h, hs) =
    rw (parse_identifier-spelled p id h, parse_identifiers-spelled ps ids hs) refl

-- The bytes of the parts keep clear of the separators.
pub Lacks-of_digits : (d : ℕ) → ¬ (IsDigit d) → (s : Text) → All IsDigit s → Lacks d s
Lacks-of_digits d h = All-imp (λ c k e. h (rw e at k))

Lacks-of_bytes : (d : ℕ) → ¬ (IsIdentifierByte d) → (s : Text) → All IsIdentifierByte s → Lacks d s
Lacks-of_bytes d h = All-imp (λ c k e. h (rw e at k))

spelled_bytes : (s : Text) (id : Identifier) → SpellsIdentifier s id → All IsIdentifierByte s
spelled_bytes s _ (spells_numeric h) = digits-are-bytes s h.digits
spelled_bytes s _ (spells_text ne bytes mixed) = bytes

pub parts_bytes :
    (parts : List Text) (ids : List Identifier)
    → SpellIdentifiers parts ids
    → All (All IsIdentifierByte) parts
parts_bytes [] ids h = tt
parts_bytes (p ∷ ps) [] h = absurd h
parts_bytes (p ∷ ps) (id ∷ ids) (h, hs) = (spelled_bytes p id h, parts_bytes ps ids hs)

-- `split_once` at a mark takes the suffix off.
pub split_suffix :
    (d : ℕ) (s : Text) (parts : List Text)
    → Lacks d s
    → unwrap_or (s ++ suffix d parts, []) (split_once d (s ++ suffix d parts))
      ≡ (s, join b'.' parts)
unfolding join
split_suffix d s [] h = rw (append-nil s, split_once_whole d s h) refl
split_suffix d s (p ∷ ps) h = rw (split_once-append d s (join b'.' (p ∷ ps)) h) refl

bytes-not-plus : ¬ (IsIdentifierByte b'+')
bytes-not-plus h = ground arith

bytes-not-dot : ¬ (IsIdentifierByte b'.')
bytes-not-dot h = ground arith

pub no_malformed_part :
    (parts : List Text) → All IsBuildPart parts → any is_malformed_part parts ≡ false
no_malformed_part [] h = refl
no_malformed_part ([] ∷ ps) ((ne, bytes), hs) = absurd (ne refl)
no_malformed_part ((c ∷ s) ∷ ps) ((ne, bytes), hs) =
    rw (all_identifier_bytes (c ∷ s) bytes, no_malformed_part ps hs) refl

pub build_bytes : (parts : List Text) → All IsBuildPart parts → All (All IsIdentifierByte) parts
build_bytes = All-imp (λ s h. h.1)

pub parts-lack-dot : (parts : List Text) → All (All IsIdentifierByte) parts → All (Lacks b'.') parts
parts-lack-dot = All-imp (Lacks-of_bytes b'.' bytes-not-dot)

pub parts-lack-plus :
    (parts : List Text) → All (All IsIdentifierByte) parts → All (Lacks b'+') parts
parts-lack-plus = All-imp (Lacks-of_bytes b'+' bytes-not-plus)

pub dot-not-plus : ◌≢◌ {A = ℕ} b'.' b'+'
dot-not-plus = omega arith

pub suffix-Lacks-plus :
    (parts : List Text) → All (All IsIdentifierByte) parts → Lacks b'+' (suffix b'-' parts)
suffix-Lacks-plus [] h = tt
suffix-Lacks-plus (p ∷ ps) h =
    (omega arith, All-join (λ d. d ≢ b'+') dot-not-plus (p ∷ ps) (parts-lack-plus (p ∷ ps) h))

join-not-empty : (c : ℕ) (s : Text) (ps : List Text) → is_empty (join b'.' ((c ∷ s) ∷ ps)) ≡ false
unfolding join
join-not-empty c s [] = refl
join-not-empty c s (p ∷ ps) = refl

pub build-join-not-empty :
    (p : Text) (ps : List Text) → All IsBuildPart (p ∷ ps) → is_empty (join b'.' (p ∷ ps)) ≡ false
build-join-not-empty [] ps h = absurd (h.0.0 refl)
build-join-not-empty (c ∷ s) ps h = join-not-empty c s ps

pub spelled-join-not-empty :
    (p : Text) (ps : List Text) (id : Identifier) (ids : List Identifier)
    → SpellIdentifiers (p ∷ ps) (id ∷ ids)
    → is_empty (join b'.' (p ∷ ps)) ≡ false
spelled-join-not-empty [] ps _ ids (spells_numeric h, hs) = absurd h.canonical
spelled-join-not-empty [] ps _ ids (spells_text ne bytes mixed, hs) = absurd (ne refl)
spelled-join-not-empty (c ∷ s) ps id ids h = join-not-empty c s ps

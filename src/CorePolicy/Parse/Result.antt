-- ===== src/CorePolicy/Parse/Result.antt =====
-- What `Version::parse` of core_policy.rs guarantees of the version that it returns.
use clash_verge_cli.Prelude.{
  ◌≡◌, refl, sym, ◌∙◌, subst, ◌≢◌, Bool, true, false, ◌||◌, Option, none, some, List, [], ◌∷◌,
  arith, ℕ, ◌<◌, if◌then◌else◌, false-ne-true, all, Text, strip, ends_with, split, split_once,
  is_digit, ◌>>=◌, ◌>>◌, bail_if, unwrap_or, is_some, bind-eq-some, bail_if-eq-some, eq_of_some,
  WhenSome, WhenSome-intro, All,
}
use clash_verge_cli.CorePolicy.Version.{Identifier, numeric, text, Version}
use clash_verge_cli.CorePolicy.Parse.{
  u64_bound, parse_u64, has_leading_zero, parse_num, is_malformed_part, parse_identifier,
  parse_identifiers, first, rest, parse_prerelease, parse_core, build_is_malformed, parse_raw,
  parse,
}
use clash_verge_cli.CorePolicy.Parse.Grammar.{
  IsDigit, IsIdentifierByte, all_digits, identifier_bytes_of_all,
}

abbrev pub IsValidIdentifier : Identifier → Type 0
IsValidIdentifier (numeric n) = n < u64_bound
IsValidIdentifier (text s) = (s ≢ []) × All IsIdentifierByte s × ¬ (All IsDigit s)

pub record IsWellFormed (v : Version) : Type 0 where
  pub major_fits : v.major < u64_bound
  pub minor_fits : v.minor < u64_bound
  pub patch_fits : v.patch < u64_bound
  pub identifiers : All IsValidIdentifier v.prerelease

parse_u64-lt : (s : Text) {n : ℕ} → parse_u64 s ≡ some n → n < u64_bound
parse_u64-lt s h = ground arith

parse_num-lt : (s : Option Text) {n : ℕ} → parse_num s ≡ some n → n < u64_bound
unfolding parse_num
parse_num-lt none h = cc
parse_num-lt (some s) h = ground arith

some_id-valid :
    (part : Text)
    → is_malformed_part part ≡ false
    → all is_digit part ≡ false
    → IsValidIdentifier (text part)
some_id-valid [] h k = cc
some_id-valid (c ∷ s) h k = (
  (λ e. cc),
  identifier_bytes_of_all (c ∷ s) (ground arith),
  λ ds. false-ne-true (sym k ∙ all_digits (c ∷ s) ds),
)

parse_identifier-valid :
    (part : Text) {id : Identifier} → parse_identifier part ≡ some id → IsValidIdentifier id
unfolding parse_identifier
parse_identifier-valid part {id} h =
    let (u, sound, next) = bind-eq-some (bail_if (is_malformed_part part)) _ h in
    chosen (bail_if-eq-some (is_malformed_part part) sound) (all is_digit part) refl next
  where
    chosen :
        is_malformed_part part ≡ false
        → (digits : Bool) → all is_digit part ≡ digits
        → (if digits
            then (bail_if (has_leading_zero part) >> (parse_u64 part >>= (λ n. some (numeric n))))
            else some (text part))
          ≡ some id
        → IsValidIdentifier id
    chosen sound true e next =
        let (u, canonical, numeral) = bind-eq-some (bail_if (has_leading_zero part)) _ next in
        let (n, read, same) = bind-eq-some (parse_u64 part) (λ n. some (numeric n)) numeral in
        subst IsValidIdentifier (eq_of_some same) (parse_u64-lt part read)
    chosen sound false e next =
        subst IsValidIdentifier (eq_of_some next) (some_id-valid part sound e)

parse_identifiers-valid :
    (parts : List Text) {ids : List Identifier}
    → parse_identifiers parts ≡ some ids
    → All IsValidIdentifier ids
unfolding parse_identifiers
parse_identifiers-valid [] h = subst (All IsValidIdentifier) (eq_of_some h) tt
parse_identifiers-valid (p ∷ ps) h =
    let (id, first, next) = bind-eq-some (parse_identifier p) _ h in
    let (ids, later, same) = bind-eq-some (parse_identifiers ps) (λ l. some (id ∷ l)) next in
    let valid : All IsValidIdentifier (id ∷ ids) =
      (parse_identifier-valid p first, parse_identifiers-valid ps later) in
    subst (All IsValidIdentifier) (eq_of_some same) valid

parse_prerelease-valid :
    (pre : Text) (ids : List Identifier)
    → parse_prerelease pre ≡ some ids
    → All IsValidIdentifier ids
parse_prerelease-valid [] ids h = subst (All IsValidIdentifier) (eq_of_some h) tt
parse_prerelease-valid (c ∷ s) ids h = parse_identifiers-valid (split b'.' (c ∷ s)) h

assembled :
    (m n p : Option ℕ) (extra : Bool) (ids : Option (List Identifier)) {v : Version}
    → (m >>= λ major. n >>= λ minor. p >>= λ patch. bail_if extra >>= λ _.
        ids >>= λ l. some (record { major = major; minor = minor; patch = patch; prerelease = l }))
      ≡ some v
    → WhenSome (λ k. k < u64_bound) m
    → WhenSome (λ k. k < u64_bound) n
    → WhenSome (λ k. k < u64_bound) p
    → WhenSome (All IsValidIdentifier) ids
    → IsWellFormed v
assembled (some m) (some n) (some p) false (some ids) h hm hn hp hi =
    subst IsWellFormed (eq_of_some h)
      (record { major_fits = hm; minor_fits = hn; patch_fits = hp; identifiers = hi })
assembled _ _ _ _ _ h hm hn hp hi = cc

parse_core-IsWellFormed :
    (core pre : Text) {v : Version} → parse_core core pre ≡ some v → IsWellFormed v
unfolding parse_core
parse_core-IsWellFormed core pre h =
    let nums = split b'.' core in
    let fits = λ (s : Option Text).
      WhenSome-intro (λ k. k < u64_bound) (parse_num s) (λ k e. parse_num-lt s e) in
    assembled (parse_num (first nums)) (parse_num (first (rest nums)))
      (parse_num (first (rest (rest nums)))) (is_some (first (rest (rest (rest nums)))))
      (parse_prerelease pre) h (fits (first nums)) (fits (first (rest nums)))
      (fits (first (rest (rest nums))))
      (WhenSome-intro (All IsValidIdentifier) (parse_prerelease pre) (parse_prerelease-valid pre))

behind_checks :
    (malformed cut : Bool) (core pre : Text) {v : Version}
    → (bail_if malformed >> (bail_if cut >> parse_core core pre)) ≡ some v
    → IsWellFormed v
behind_checks true cut core pre h = cc
behind_checks false true core pre h = cc
behind_checks false false core pre h = parse_core-IsWellFormed core pre h

-- Whatever the input, a version that is returned fits in its 64-bit fields, and each of its
-- prerelease identifiers is a 64-bit number or a nonempty text of letters, digits and dashes that is
-- not all digits.
pub parse-IsWellFormed : (input : Text) {v : Version} → parse input ≡ some v → IsWellFormed v
unfolding parse parse_raw
parse-IsWellFormed input h =
    let raw = strip b'v' input in
    let (front, build) = unwrap_or (raw, []) (split_once b'+' raw) in
    let (core, pre) = unwrap_or (front, []) (split_once b'-' front) in
    behind_checks (build_is_malformed raw build) (ends_with b'-' raw || ends_with b'+' raw) core pre
      h

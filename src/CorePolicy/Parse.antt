-- ===== src/CorePolicy/Parse.antt =====
-- `Version::parse` of core_policy.rs. A text is the list of its bytes; the message of an error is
-- left out, so that `none` is any `bail!`.
pub mod Grammar
pub mod Spelling
pub mod Core
pub mod Build
pub mod Reading
pub mod Result
use clash_verge_cli.Prelude.{
  String, ◌≡◌, refl, sym, ap, ◌∙◌, subst, ◌≡⟨◌⟩◌, ◌∎, ◌≢◌, ◌↔◌, ◌⊎◌, inl, inr, Bool, true, false,
  not, ◌&&◌, ◌||◌, Option, none, some, List, [], ◌∷◌, ◌++◌, map, arith, ◌==◌, eq_iff, eq_refl, ℕ,
  zero, suc, ◌+◌, ◌-◌, ◌*◌, ◌/◌, ◌%◌, ◌^◌, ◌≤◌, ◌<◌, min, max, compare, Ordering, ltb, leb, eqb,
  if◌then◌else◌, ltb→lt, lt→ltb, leb→le, le→leb, tests, is_text, is_text_iff, Bool-cases,
  Option-cases, false-ne-true, eq_false_of_ne, length, length-append, all, any, is_empty, find,
  keep, contains, Text, codes, text_eq, text_eq_sound, text_eq_refl, strip, starts_with, ends_with,
  count, push_front, split, split_once, join, is_digit, is_alphanumeric, value_from, Lacks,
  split-append, split_whole, split_once-append, split_once_whole, split-join, count-append,
  count-Lacks, ends_with-Lacks, ends_with-append, All-join, ◌>>=◌, ◌>>◌, bail_if, unwrap_or,
  is_some, or_else, bind-eq-some, bail_if-eq-some, All, All-append, All-imp, Member, here, there,
}
use clash_verge_cli.CorePolicy.Version.{
  Identifier, numeric, text, Version, cmp_text, cmp_identifier, cmp,
}

abbrev pub u64_bound : ℕ
u64_bound = 2 ^ 64

-- `s.parse::<u64>()` on a text of digits
abbrev pub parse_u64 : Text → Option ℕ
parse_u64 s = let n = value_from 0 s in if ltb n u64_bound then some n else none

-- `s.len() > 1 && s.starts_with('0')`
abbrev pub has_leading_zero : Text → Bool
has_leading_zero s = ltb 1 (length s) && starts_with b'0' s

-- the closure `parse_num`
pub parse_num : Option Text → Option ℕ
parse_num s = do
  s ← s
  bail_if (is_empty s || has_leading_zero s || not (all is_digit s))
  parse_u64 s

abbrev pub is_identifier_byte : ℕ → Bool
is_identifier_byte c = is_alphanumeric c || eqb c b'-'

abbrev pub is_malformed_part : Text → Bool
is_malformed_part part = is_empty part || not (all is_identifier_byte part)

-- the closure that maps one part of the prerelease
pub parse_identifier : Text → Option Identifier
parse_identifier part = do
  bail_if (is_malformed_part part)
  if all is_digit part
      then (do bail_if (has_leading_zero part); some (numeric (← parse_u64 part)))
      else some (text part)

-- `collect::<Result<Vec<_>>>()`
pub parse_identifiers : List Text → Option (List Identifier)
unfolding parse_identifier
parse_identifiers [] = some []
parse_identifiers (part ∷ parts) = do
  id ← parse_identifier part
  some (id ∷ (← parse_identifiers parts))

-- `iter.next()`
abbrev first : List Text → Option Text
first [] = none
first (p ∷ ps) = some p

abbrev rest : List Text → List Text
rest [] = []
rest (p ∷ ps) = ps

abbrev parse_prerelease : Text → Option (List Identifier)
parse_prerelease pre = if is_empty pre then some [] else parse_identifiers (split b'.' pre)

-- the tail of `parse`, on the text before the build metadata
pub parse_core : Text → Text → Option Version
unfolding parse_num parse_identifiers
parse_core core pre = do
  let nums = split b'.' core
  major ← parse_num (first nums)
  minor ← parse_num (first (rest nums))
  patch ← parse_num (first (rest (rest nums)))
  bail_if (is_some (first (rest (rest (rest nums)))))
  prerelease ← parse_prerelease pre
  some (record { major = major; minor = minor; patch = patch; prerelease = prerelease })

abbrev build_is_malformed : Text → Text → Bool
build_is_malformed raw build =
    ltb 1 (count b'+' raw) || (not (is_empty build) && any is_malformed_part (split b'.' build))

-- `Version::parse` behind the optional `v`
pub parse_raw : Text → Option Version
parse_raw raw = do
  let (without_build, build) = unwrap_or (raw, []) (split_once b'+' raw)
  bail_if (build_is_malformed raw build)
  let (core, pre) = unwrap_or (without_build, []) (split_once b'-' without_build)
  bail_if (ends_with b'-' raw || ends_with b'+' raw)
  parse_core core pre

-- `Version::parse`
unfoldable pub parse : Text → Option Version
unfolding parse_raw parse_core
parse input = parse_raw (strip b'v' input)

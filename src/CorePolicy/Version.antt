-- ===== src/CorePolicy/Version.antt =====
-- Versions and their comparison, core_policy.rs. A text is the list of its bytes, and Rust compares
-- texts byte by byte.
pub mod Order
pub mod Precedence
use clash_verge_cli.Prelude.{
  String, ◌≡◌, refl, sym, ap, ap₂, ◌∙◌, subst, ◌≡⟨◌⟩◌, ◌∎, ◌≢◌, ◌↔◌, ◌⊎◌, inl, inr, ite, if_pos,
  if_neg, Bool, true, false, not, ◌&&◌, ◌||◌, Option, none, some, List, [], ◌∷◌, ◌++◌, map,
  append-nil, append_assoc, arith, ◌==◌, eq_iff, eq_refl, ℕ, zero, suc, ◌+◌, ◌-◌, ◌*◌, ◌/◌, ◌%◌,
  ◌^◌, ◌≤◌, ◌<◌, min, max, compare, Ordering, ltb, leb, eqb, if◌then◌else◌, ltb→lt, lt→ltb, leb→le,
  le→leb, tests, is_text, is_text_iff, Bool-cases, Option-cases, false-ne-true, eq_false_of_ne,
  not-false, length, length-append, all, any, is_empty, find, keep, contains, lookup, Text, codes,
  text_eq, text_eq_sound, text_eq_refl, strip, starts_with, ends_with, count, push_front, split,
  split_once, join, is_digit, is_alphanumeric, value_from, Lacks, split-append, split_whole,
  split_once-append, split_once_whole, split-join, count-append, count-Lacks, ends_with-Lacks,
  ends_with-append, All-join, is_whitespace, trim_start, trim_end, trim, lowercase,
  eq_ignore_ascii_case, trim-twice, trim-Lacks, IsVisible, trim-visible, uppercase, insert_by,
  sort_by, Sorted, sort_by-Member, Member-sort_by, length-sort_by, sort_by-Sorted, IsFiltered,
  end_of_list, taken, left_out, keep-IsFiltered, print_u16, parse_unsigned, parse_u16, IsDigits,
  print_u16-IsDigits, print_u16-nonempty, parse_u16-print_u16, parse_u16-bound, IsDigits-IsVisible,
  ◌>>=◌, ◌>>◌, bail_if, unwrap_or, is_some, or_else, bind-eq-some, bail_if-eq-some, eq_of_some,
  WhenSome, WhenSome-intro, All, All-append, All-imp, Member, here, there, not-Member-nil,
  Member-cons, All-Member, All-of_Member, Member-append_first, Member-append_second,
  Member-append_cases, Member-append_last, filter_map, Member-filter_map, filter_map-Member,
  contains-All, Member-find, keep-Member, Member-keep, contains-Member, Member-contains,
}
use clash_verge_cli.CorePolicy.Comparator.{
  then_with, flip, IsOrder, compare-IsOrder, lex, lex-IsOrder,
}

pub data Identifier : Type 0 where
  numeric : ℕ → Identifier
  text : List ℕ → Identifier

pub record Version : Type 0 where
  pub major : ℕ
  pub minor : ℕ
  pub patch : ℕ
  pub prerelease : List Identifier

-- `a.cmp(b)` on two texts
unfoldable pub cmp_text : List ℕ → List ℕ → Ordering
unfolding lex
cmp_text = lex compare

-- the `match (left, right)` of the loop
pub cmp_identifier : Identifier → Identifier → Ordering
cmp_identifier (numeric a) (numeric b) = compare a b
cmp_identifier (numeric a) (text b) = Ordering.lt
cmp_identifier (text a) (numeric b) = Ordering.gt
cmp_identifier (text a) (text b) = cmp_text a b

-- the loop over the zipped identifiers, which returns the first difference
pub first_difference : List Identifier → List Identifier → Ordering
first_difference [] rights = Ordering.eq
first_difference (left ∷ lefts) [] = Ordering.eq
first_difference (left ∷ lefts) (right ∷ rights) =
    then_with (cmp_identifier left right) (first_difference lefts rights)

-- the `match` on which of the two is a prerelease
pub cmp_prerelease : List Identifier → List Identifier → Ordering
cmp_prerelease [] [] = Ordering.eq
cmp_prerelease [] (right ∷ rights) = Ordering.gt
cmp_prerelease (left ∷ lefts) [] = Ordering.lt
cmp_prerelease (left ∷ lefts) (right ∷ rights) =
    then_with (first_difference (left ∷ lefts) (right ∷ rights))
      (compare (length (left ∷ lefts)) (length (right ∷ rights)))

-- the comparison of the tuples `(major, minor, patch)`
abbrev pub cmp_core : Version → Version → Ordering
cmp_core v w =
    then_with (compare v.major w.major)
      (then_with (compare v.minor w.minor) (compare v.patch w.patch))

-- `Version::cmp`
unfoldable pub cmp : Version → Version → Ordering
unfolding cmp_prerelease first_difference cmp_identifier cmp_text
cmp v w = then_with (cmp_core v w) (cmp_prerelease v.prerelease w.prerelease)

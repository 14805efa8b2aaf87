-- ===== src/Prelude/Texts.antt =====
-- Texts as lists of code points, with the operations of Rust's `str` that the program calls:
-- `split`, `split_once`, `strip_prefix`, `join`, and decimal numbers. For an ASCII text the code
-- points are its bytes.
use Prim.Native.Char.{code}
use Prim.Native.String.{String}
use Prim.Native.Nat.{ℕ, ◌+◌, ◌-◌, ◌*◌}
use mathlib.Core.Path.{◌≡◌, refl, ap, ◌∙◌}
use mathlib.Core.Logic.{◌≢◌}
use mathlib.Core.Bool.{Bool, true, false, ◌&&◌, ◌||◌}
use mathlib.Core.Option.{Option, none, some}
use mathlib.Core.List.{List, [], ◌∷◌, ◌++◌}
use native.Mathlib.Omega.{arith}
use clash_verge_cli.Prelude.Tests.{leb, eqb, if◌then◌else◌}
use clash_verge_cli.Prelude.Predicates.{All, All-append}

abbrev pub Text : Type 0
Text = List ℕ

-- The code points of a literal.
abbrev pub codes : String → Text
codes String.[] = []
codes (String.◌∷◌ c s) = code c ∷ codes s

-- `==` on texts
abbrev pub text_eq : Text → Text → Bool
text_eq [] [] = true
text_eq [] (d ∷ t) = false
text_eq (c ∷ s) [] = false
text_eq (c ∷ s) (d ∷ t) = eqb c d && text_eq s t

pub text_eq_sound : (s t : Text) → text_eq s t ≡ true → s ≡ t
text_eq_sound [] [] h = refl
text_eq_sound [] (d ∷ t) h = cc
text_eq_sound (c ∷ s) [] h = cc
text_eq_sound (c ∷ s) (d ∷ t) h = ground (arith, text_eq_sound s t)

pub text_eq_refl : (s : Text) → text_eq s s ≡ true
text_eq_refl [] = refl
text_eq_refl (c ∷ s) = ground (arith, text_eq_refl s)

-- `strip_prefix(c).unwrap_or(s)` for one character
abbrev pub strip : ℕ → Text → Text
strip c [] = []
strip c (d ∷ s) = if eqb d c then s else d ∷ s

abbrev pub starts_with : ℕ → Text → Bool
starts_with c [] = false
starts_with c (d ∷ s) = eqb d c

-- `ends_with(c)`
abbrev pub ends_with : ℕ → Text → Bool
ends_with c [] = false
ends_with c (d ∷ []) = eqb d c
ends_with c (d ∷ e ∷ s) = ends_with c (e ∷ s)

abbrev pub count : ℕ → Text → ℕ
count c [] = 0
count c (d ∷ s) = (if eqb d c then 1 else 0) + count c s

abbrev pub push_front : ℕ → List Text → List Text
push_front d [] = (d ∷ []) ∷ []
push_front d (p ∷ ps) = (d ∷ p) ∷ ps

-- `split(c)`
unfoldable pub split : ℕ → Text → List Text
split c [] = [] ∷ []
split c (d ∷ s) = if eqb d c then [] ∷ split c s else push_front d (split c s)

abbrev prepend : ℕ → Option (Text × Text) → Option (Text × Text)
prepend d none = none
prepend d (some (a, b)) = some (d ∷ a, b)

-- `split_once(c)`
unfoldable pub split_once : ℕ → Text → Option (Text × Text)
split_once c [] = none
split_once c (d ∷ s) = if eqb d c then some ([], s) else prepend d (split_once c s)

-- `parts.join(c)` for one character
unfoldable pub join : ℕ → List Text → Text
join c [] = []
join c (p ∷ []) = p
join c (p ∷ q ∷ ps) = p ++ c ∷ join c (q ∷ ps)

abbrev pub is_digit : ℕ → Bool
is_digit c = leb b'0' c && leb c b'9'

abbrev pub is_alphanumeric : ℕ → Bool
is_alphanumeric c = is_digit c || (leb b'a' c && leb c b'z') || (leb b'A' c && leb c b'Z')

-- the number that digits spell behind the number `n`
abbrev pub value_from : ℕ → Text → ℕ
value_from n [] = n
value_from n (c ∷ s) = value_from (10 * n + (c - b'0')) s

-- Without the separator
abbrev pub Lacks : ℕ → Text → Type 0
Lacks c = All (λ d. d ≢ c)

module _ (c : ℕ) where
  pub split-append : (p s : Text) → Lacks c p → split c (p ++ c ∷ s) ≡ p ∷ split c s
  unfolding split
  split-append [] s h = ground arith
  split-append (d ∷ p) s (ne, h) = rw (split-append p s h) (ground arith)

  pub split_whole : (p : Text) → Lacks c p → split c p ≡ p ∷ []
  unfolding split
  split_whole [] h = refl
  split_whole (d ∷ p) (ne, h) = rw (split_whole p h) (ground arith)

  pub split_once-append : (p s : Text) → Lacks c p → split_once c (p ++ c ∷ s) ≡ some (p, s)
  unfolding split_once
  split_once-append [] s h = ground arith
  split_once-append (d ∷ p) s (ne, h) = rw (split_once-append p s h) (ground arith)

  pub split_once_whole : (p : Text) → Lacks c p → split_once c p ≡ none
  unfolding split_once
  split_once_whole [] h = refl
  split_once_whole (d ∷ p) (ne, h) = rw (split_once_whole p h) (ground arith)

  -- Joining parts without the separator and splitting gives the parts back.
  pub split-join :
      (p : Text) (ps : List Text) → All (Lacks c) (p ∷ ps) → split c (join c (p ∷ ps)) ≡ p ∷ ps
  unfolding join
  split-join p [] (h, _) = split_whole p h
  split-join p (q ∷ ps) (h, hs) =
      split-append p (join c (q ∷ ps)) h ∙ ap (λ r. p ∷ r) (split-join q ps hs)

  pub count-append : (s t : Text) → count c (s ++ t) ≡ count c s + count c t
  count-append [] t = omega arith
  count-append (d ∷ s) t = omega (arith, count-append s t)

  pub count-Lacks : (s : Text) → Lacks c s → count c s ≡ 0
  count-Lacks [] h = refl
  count-Lacks (d ∷ s) (ne, h) = ground (arith, count-Lacks s h)

  pub ends_with-Lacks : (s : Text) → Lacks c s → ends_with c s ≡ false
  ends_with-Lacks [] h = refl
  ends_with-Lacks (d ∷ []) (ne, h) = ground arith
  ends_with-Lacks (d ∷ e ∷ s) (ne, h) = ends_with-Lacks (e ∷ s) h

  pub ends_with-append :
      (s : Text) (d : ℕ) (t : Text) → ends_with c (s ++ d ∷ t) ≡ ends_with c (d ∷ t)
  ends_with-append [] d t = refl
  ends_with-append (e ∷ []) d t = refl
  ends_with-append (e ∷ f ∷ s) d t = ends_with-append (f ∷ s) d t

module _ {κ} (P : ℕ → Type κ) {c : ℕ} (h : P c) where
  -- What holds of the separator and of every part holds of the joined text.
  pub All-join : (ps : List Text) → All (All P) ps → All P (join c ps)
  unfolding join
  All-join [] k = tt
  All-join (p ∷ []) (k, _) = k
  All-join (p ∷ q ∷ ps) (k, ks) = All-append P p (c ∷ join c (q ∷ ps)) k (h, All-join (q ∷ ps) ks)

-- ===== src/Terminal/Keymap/Fuel.antt =====
-- The loop of `Key::parse` in keymap.rs ends: each round shortens the text, so that the fuel that
-- `parse_key` gives is enough.
use clash_verge_cli.Prelude.{
  ◌≡◌, refl, sym, ap, ◌∙◌, inl, inr, Option, none, some, [], ◌∷◌, map, arith, ℕ, zero, suc, ◌<◌,
  eqb, Bool-cases, Option-cases, length, is_empty, Text, split_once, lowercase, ◌>>=◌, bail_if,
  bind-eq-some, eq_of_some,
}
use clash_verge_cli.Terminal.{KeyModifiers}
use clash_verge_cli.Terminal.Keymap.{add_modifier, next_prefix, parse_modifiers}

pub parse_modifiers-last :
    (f : ℕ) (m : KeyModifiers) (rest : Text)
    → next_prefix rest ≡ none
    → parse_modifiers (suc f) m rest ≡ some (m, rest)
unfolding parse_modifiers
parse_modifiers-last f m rest e = rw (e, parse_modifiers) refl

pub parse_modifiers-more :
    (f : ℕ) (m : KeyModifiers) (rest prefix tail : Text)
    → next_prefix rest ≡ some (prefix, tail)
    → parse_modifiers (suc f) m rest
      ≡ (add_modifier (map lowercase prefix) m >>= (λ n. parse_modifiers f n tail))
unfolding parse_modifiers
parse_modifiers-more f m rest prefix tail e = rw (e, parse_modifiers) refl

split_once-shorter : (c : ℕ) (s a b : Text) → split_once c s ≡ some (a, b) → length b < length s
unfolding split_once
split_once-shorter c [] a b h = cc
split_once-shorter c (d ∷ s) a b h = elim (Bool-cases (eqb d c)) [
  | inl e ↦
      let same : ◌≡◌ {A = Text × Text} ([], s) (a, b) = eq_of_some (rw e at h) in
      omega (arith, ap (λ (x : Text × Text). length x.1) same)
  | inr e ↦ elim (Option-cases (split_once c s)) [
    | inl missing ↦ cc (rw (e, missing) at h)
    | inr ((x, y), found) ↦
        let same : ◌≡◌ {A = Text × Text} (d ∷ x, y) (a, b) = eq_of_some (rw (e, found) at h) in
        omega (arith, ap (λ (x : Text × Text). length x.1) same, split_once-shorter c s x y found)
  ]
]

next_prefix-shorter :
    (rest prefix tail : Text) → next_prefix rest ≡ some (prefix, tail) → length tail < length rest
unfolding next_prefix
next_prefix-shorter rest prefix tail h =
    let ((x, y), found, h) = bind-eq-some (split_once b'+' rest) _ h in
    let (_, _, h) = bind-eq-some (bail_if (is_empty y)) _ h in
    let same : ◌≡◌ {A = Text × Text} (x, y) (prefix, tail) = eq_of_some h in
    omega (arith, ap (λ (x : Text × Text). length x.1) same, split_once-shorter b'+' rest x y found)

bind-same :
    (o : Option KeyModifiers) (f g : KeyModifiers → Option (KeyModifiers × Text))
    → ((m : KeyModifiers) → f m ≡ g m)
    → (o >>= f) ≡ (o >>= g)
bind-same none f g h = refl
bind-same (some m) f g h = h m

-- Each round of the loop over the modifiers of a key shortens the text: with more rounds than
-- characters, one round more changes nothing.
pub parse_modifiers-enough :
    (f : ℕ) (m : KeyModifiers) (rest : Text)
    → length rest < f
    → parse_modifiers (suc f) m rest ≡ parse_modifiers f m rest
parse_modifiers-enough zero m rest h = absurd (omega arith)
parse_modifiers-enough (suc f) m rest h = elim (Option-cases (next_prefix rest)) [
  | inl e ↦ parse_modifiers-last (suc f) m rest e ∙ sym (parse_modifiers-last f m rest e)
  | inr ((prefix, tail), e) ↦
      let shorter = next_prefix-shorter rest prefix tail e in
      parse_modifiers-more (suc f) m rest prefix tail e
      ∙ bind-same (add_modifier (map lowercase prefix) m) _ _
          (λ n. parse_modifiers-enough f n tail (omega arith))
      ∙ sym (parse_modifiers-more f m rest prefix tail e)
]

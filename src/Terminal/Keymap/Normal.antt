-- ===== src/Terminal/Keymap/Normal.antt =====
-- The keys that `Key::parse` and `Key::of` of keymap.rs make are normal, and a normal key is found
-- again in the event that stands for it.
use clash_verge_cli.Prelude.{
  ◌≡◌, refl, sym, ap, ◌∙◌, subst, inl, inr, Bool, true, false, ◌&&◌, Option, none, some, [], ◌∷◌,
  map, arith, ℕ, zero, suc, Option-cases, length, Text, trim, lowercase, ◌>>=◌, bind-eq-some,
  eq_of_some,
}
use clash_verge_cli.Terminal.{KeyCode, KeyModifiers, KeyEvent}
use clash_verge_cli.Terminal.Keymap.Fuel.{parse_modifiers-last, parse_modifiers-more}
use clash_verge_cli.Terminal.Keymap.{
  Key, is_char, no_modifiers, key_of, event_of, add_modifier, next_prefix, parse_modifiers, code_of,
  settled, parse_key, same_key, KeyMap, remap_of, translate, parse_target, parse_remaps,
}

-- A character has no shift, and no key has a bit that the program does not name.
pub record IsNormal (key : Key) : Type 0 where
  pub named_bits : key.modifiers.others ≡ false
  pub char_shift : (is_char key.code && key.modifiers.shift) ≡ false

pub key_of-IsNormal : (event : KeyEvent) → IsNormal (key_of event)
unfolding key_of
key_of-IsNormal event = ground arith

add_modifier-others :
    (prefix : Text) (m : KeyModifiers) {n : KeyModifiers}
    → add_modifier prefix m ≡ some n
    → n.others ≡ m.others
unfolding add_modifier
add_modifier-others prefix m h = ground arith

parse_modifiers-empty :
    (m : KeyModifiers) (rest : Text) {found : KeyModifiers × Text}
    → ¬ (parse_modifiers zero m rest ≡ some found)
unfolding parse_modifiers
parse_modifiers-empty m rest h = cc

parse_modifiers-others :
    (f : ℕ) (m n : KeyModifiers) (rest left_over : Text)
    → parse_modifiers f m rest ≡ some (n, left_over)
    → n.others ≡ m.others
parse_modifiers-others zero m n rest left_over h = absurd (parse_modifiers-empty m rest h)
parse_modifiers-others (suc f) m n rest left_over h = elim (Option-cases (next_prefix rest)) [
  | inl e ↦
      let same : ◌≡◌ {A = KeyModifiers × Text} (m, rest) (n, left_over) =
        eq_of_some (sym (parse_modifiers-last f m rest e) ∙ h) in
      sym (ap (λ (x : KeyModifiers × Text). x.0.others) same)
  | inr ((prefix, tail), e) ↦
      let (k, added, h) =
        bind-eq-some (add_modifier (map lowercase prefix) m) _
          (sym (parse_modifiers-more f m rest prefix tail e) ∙ h) in
      parse_modifiers-others f k n tail left_over h ∙ add_modifier-others _ m added
]

settled-IsNormal :
    (code : KeyCode) (m : KeyModifiers) → m.others ≡ false → IsNormal (settled code m)
settled-IsNormal code m h = ground arith

pub parse_key-IsNormal : (spec : Text) (key : Key) → parse_key spec ≡ some key → IsNormal key
unfolding parse_key
parse_key-IsNormal spec key h =
    let ((m, rest), e, h) =
      bind-eq-some (parse_modifiers (suc (length (trim spec))) no_modifiers (trim spec)) _ h in
    let (code, read, h) = bind-eq-some (code_of m rest) _ h in
    subst IsNormal (eq_of_some h)
      (settled-IsNormal code m (parse_modifiers-others _ no_modifiers m (trim spec) rest e))

module _ (is_uppercase : ℕ → Bool) where
  key_of-event_of_normal : (key : Key) → IsNormal key → key_of (event_of is_uppercase key) ≡ key
  unfolding key_of event_of
  key_of-event_of_normal key h = ground arith

  -- The event that stands for a key of the settings is taken for that key again.
  pub key_of-event_of :
      (spec : Text) (key : Key)
      → parse_key spec ≡ some key
      → key_of (event_of is_uppercase key) ≡ key
  key_of-event_of spec key h = key_of-event_of_normal key (parse_key-IsNormal spec key h)

  same_key_refl : (key : Key) → same_key key key ≡ true
  same_key_refl key = ground arith

  remap_of-first :
      (remaps : KeyMap) (key : Key) (target : Option Key) (event : KeyEvent)
      → key_of event ≡ key
      → remap_of (key_of event) ((key, target) ∷ remaps) ≡ some target
  unfolding remap_of
  remap_of-first remaps key target event e =
      subst (λ k. remap_of k ((key, target) ∷ remaps) ≡ some target) (sym e)
        (rw (same_key_refl key) refl)

  translate-first :
      (remaps : KeyMap) (key : Key) (target : Option Key) (event : KeyEvent)
      → key_of event ≡ key
      → translate is_uppercase ((key, target) ∷ remaps) event
        ≡ (target >>= (λ k. some (event_of is_uppercase k)))
  unfolding translate
  translate-first remaps key none event e =
      rw (remap_of-first remaps key none event e, translate) refl
  translate-first remaps key (some k) event e =
      rw (remap_of-first remaps key (some k) event e, translate) refl

  -- The last entry of the settings decides what its key does.
  pub translate-parse_remaps :
      (remaps : KeyMap) (from to : Text) (key : Key) (target : Option Key)
      → parse_key from ≡ some key
      → parse_target to ≡ some target
      → (made : KeyMap) × (parse_remaps remaps ((from, to) ∷ []) ≡ some made)
        × (translate is_uppercase made (event_of is_uppercase key)
            ≡ (target >>= (λ k. some (event_of is_uppercase k))))
  unfolding parse_remaps
  translate-parse_remaps remaps from to key target h k = (
    (key, target) ∷ remaps,
    rw (h, k) refl,
    translate-first remaps key target (event_of is_uppercase key) (key_of-event_of from key h),
  )

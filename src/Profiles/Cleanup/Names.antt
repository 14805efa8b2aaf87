-- ===== src/Profiles/Cleanup/Names.antt =====
-- The names that the pattern of profiles.rs matches.
use clash_verge_cli.Prelude.{
  String, ◌≡◌, refl, sym, ap, ◌∙◌, subst, ◌↔◌, ◌⊎◌, inl, inr, Bool, true, false, ◌&&◌, ◌||◌, [],
  ◌∷◌, ◌++◌, arith, ℕ, eqb, Bool-cases, false-ne-true, Text, codes, text_eq, text_eq_sound,
  text_eq_refl, is_alphanumeric, All,
}
use clash_verge_cli.Profiles.Cleanup.{
  ends_name, has_stem, is_yaml_letter, yaml_suffix, js_suffix, matches_pattern, is_profile_file,
}

abbrev pub IsStem : Text → Type 0
IsStem stem = All (λ c. is_alphanumeric c ≡ true) stem

-- A letter, at least one letter or digit, and the suffix.
abbrev pub IsSpelled : (ℕ → Bool) → Text → Text → Type 0
IsSpelled letter suffix t =
    (c : ℕ) × (d : ℕ) × (stem : Text) × (letter c ≡ true)
    × IsStem (d ∷ stem)
    × (t ≡ c ∷ d ∷ (stem ++ suffix))

ends_sound :
    (suffix t : Text)
    → ends_name suffix t ≡ true
    → (stem : Text) × IsStem stem × (t ≡ stem ++ suffix)
ends_sound suffix [] h = ([], tt, text_eq_sound [] suffix h)
ends_sound suffix (c ∷ cs) h =
    let ih = ends_sound suffix cs in
    elim (Bool-cases (text_eq (c ∷ cs) suffix)) [
      | inl e ↦ ([], tt, text_eq_sound (c ∷ cs) suffix e)
      | inr e ↦
          let (a, k) = and_cases (is_alphanumeric c) (ends_name suffix cs) (rw e at h) in
          let (stem, s, q) = ih k in (c ∷ stem, (a, s), ap (λ r. c ∷ r) q)
    ]
  where
    and_cases : (a b : Bool) → a && b ≡ true → (a ≡ true) × (b ≡ true)
    and_cases a b h = (ground arith, ground arith)

ends_complete : (suffix stem : Text) → IsStem stem → ends_name suffix (stem ++ suffix) ≡ true
ends_complete [] [] h = refl
ends_complete (c ∷ suffix) [] h = rw (text_eq_refl (c ∷ suffix)) refl
ends_complete suffix (c ∷ stem) (a, h) =
    or_right (text_eq (c ∷ (stem ++ suffix)) suffix) (rw (a, ends_complete suffix stem h) refl)
  where
    or_right : (x : Bool) {y : Bool} → y ≡ true → x || y ≡ true
    or_right true h = refl
    or_right false h = h

-- The alternative of the pattern with the given letters and suffix.
abbrev alternative : (ℕ → Bool) → Text → Text → Bool
alternative letter suffix [] = false
alternative letter suffix (c ∷ cs) = letter c && has_stem suffix cs

alternative_sound :
    (letter : ℕ → Bool) (suffix t : Text)
    → alternative letter suffix t ≡ true
    → IsSpelled letter suffix t
alternative_sound letter suffix [] h = absurd (false-ne-true h)
alternative_sound letter suffix (c ∷ []) h = absurd (no_stem (letter c) h)
  where
    no_stem : (a : Bool) → a && false ≡ true → ⊥
    no_stem true h = false-ne-true h
    no_stem false h = false-ne-true h
alternative_sound letter suffix (c ∷ d ∷ cs) h =
    let (l, a, e) = three (letter c) (is_alphanumeric d) (ends_name suffix cs) h in
    let (stem, s, q) = ends_sound suffix cs e in (c, d, stem, l, (a, s), ap (λ r. c ∷ d ∷ r) q)
  where
    three : (a b c : Bool) → a && (b && c) ≡ true → (a ≡ true) × (b ≡ true) × (c ≡ true)
    three a b c h = (ground arith, ground arith, ground arith)

alternative_complete :
    (letter : ℕ → Bool) (suffix t : Text)
    → IsSpelled letter suffix t
    → alternative letter suffix t ≡ true
alternative_complete letter suffix t (c, d, stem, l, (a, s), q) =
    subst (λ x. alternative letter suffix x ≡ true) (sym q)
      (rw (l, a, ends_complete suffix stem s) refl)

pattern_of :
    (t : Text)
    → matches_pattern t
      ≡ (alternative is_yaml_letter yaml_suffix t || alternative (λ c. eqb c b's') js_suffix t)
pattern_of [] = refl
pattern_of (c ∷ cs) = refl

-- A file counts as a profile file exactly if its name is one of R, L, m, r, p and g, some letters and
-- digits, and .yaml, or s, some letters and digits, and .js.
pub is_profile_file_iff :
    (name : String)
    → (is_profile_file name ≡ true) ↔ (
        IsSpelled is_yaml_letter yaml_suffix (codes name)
        ⊎ IsSpelled (λ c. eqb c b's') js_suffix (codes name))
unfolding is_profile_file
is_profile_file_iff name =
    let t = codes name in
    let yaml = alternative is_yaml_letter yaml_suffix t in
    let js = alternative (λ c. eqb c b's') js_suffix t in
    (
      (λ h. elim (or_cases yaml js (sym (pattern_of t) ∙ h)) [
        | inl e ↦ inl (alternative_sound is_yaml_letter yaml_suffix t e)
        | inr e ↦ inr (alternative_sound (λ c. eqb c b's') js_suffix t e)
      ]),
      λ s. pattern_of t ∙ elim s [
        | inl s ↦ ap (λ b. b || js) (alternative_complete is_yaml_letter yaml_suffix t s)
        | inr s ↦ or_true yaml js (alternative_complete (λ c. eqb c b's') js_suffix t s)
      ],
    )
  where
    or_cases : (a b : Bool) → a || b ≡ true → (a ≡ true) ⊎ (b ≡ true)
    or_cases true b h = inl refl
    or_cases false b h = inr h

    or_true : (a b : Bool) → b ≡ true → a || b ≡ true
    or_true true b h = refl
    or_true false b h = h

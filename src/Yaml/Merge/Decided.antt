-- ===== src/Yaml/Merge/Decided.antt =====
-- The two overlays of the program, key by key, told without the code's own tests.
use clash_verge_cli.Prelude.{
  ◌≡◌, refl, sym, ap, ap₂, ◌∙◌, subst, ◌≢◌, ◌⊎◌, inl, inr, Bool, true, false, not, Option, none,
  some, List, [], ◌∷◌, Bool-cases, Option-cases, is_empty, eq_of_some,
}
use clash_verge_cli.Yaml.{Kind, mapping, Yaml}
use clash_verge_cli.Yaml.Merge.{
  two, both, merge_fields, overlaid, any_mapping, is_filled, merge_unknown_fields,
  merge_mapping_values,
}
use clash_verge_cli.Yaml.Merge.Laws.{get-merge_fields}

module _ (Y : Yaml) (Enters : Yaml.Mapping Y → Type 0)
    (merge : Yaml.Mapping Y → Yaml.Mapping Y → Yaml.Mapping Y) where
  open Y use {Value, Mapping, kind, of_mapping}

  -- The value `r` under a key that had the value `b`: a key that the overlay lacks keeps its value, two
  -- mappings are merged if the overlay's is entered, and any other value of the overlay replaces the old.
  abbrev pub IsDecided : Option Value → Option Value → Option Value → Type 0
  IsDecided b none r = r ≡ b
  IsDecided b (some v) r =
      ((x : Value) × (m : Mapping) × (o : Mapping) × (b ≡ some x)
        × (kind x ≡ mapping m)
        × (kind v ≡ mapping o)
        × Enters o
        × (r ≡ some (of_mapping (merge m o))))
      ⊎ (((x : Value) (m o : Mapping)
            → b ≡ some x
            → kind x ≡ mapping m
            → kind v ≡ mapping o
            → ¬ (Enters o))
          × (r ≡ some v))

module _ (Y : Yaml) (enter : Yaml.Mapping Y → Bool) (Enters : Yaml.Mapping Y → Type 0)
    (entered : (o : Yaml.Mapping Y) → enter o ≡ true → Enters o)
    (passed : (o : Yaml.Mapping Y) → enter o ≡ false → ¬ (Enters o)) where
  open Y use {Value, Mapping, kind, of_mapping, get}

  two-some :
      (a b : Kind Value Mapping) (m o : Mapping)
      → two enter a b ≡ some (m, o)
      → (a ≡ mapping m) × (b ≡ mapping o) × (enter o ≡ true)
  two-some (mapping m) (mapping o) m' o' h = elim (Bool-cases (enter o)) [
    | inl e ↦
        let same = eq_of_some (rw e at h) in
        (ap (λ p. mapping p.0) same, ap (λ p. mapping p.1) same, ap (λ p. enter p.1) (sym same) ∙ e)
    | inr e ↦ absurd (none_is_some (rw e at h))
  ]
    where
      none_is_some : {A : Type 0} {a : A} → none ≡ some a → ⊥
      none_is_some h = cc
  two-some _ _ m o h = cc

  two-none :
      (a b : Kind Value Mapping) (m o : Mapping)
      → two enter a b ≡ none
      → a ≡ mapping m
      → b ≡ mapping o
      → enter o ≡ false
  two-none a b m o h e f =
      let g : two {V = Value} {M = Mapping} enter (mapping m) (mapping o) ≡ none =
        ap₂ (two {V = Value} {M = Mapping} enter) (sym e) (sym f) ∙ h in
      elim (Bool-cases (enter o)) [ inl t ↦ absurd (some_is_none (rw t at g)) | inr t ↦ t ]
    where
      some_is_none : {A : Type 0} {a : A} → some a ≡ none → ⊥
      some_is_none h = cc

  overlaid-IsDecided :
      (merge : Mapping → Mapping → Mapping) (b v : Option Value)
      → IsDecided Y Enters merge b v (overlaid Y enter merge b v)
  overlaid-IsDecided merge b none = refl
  overlaid-IsDecided merge none (some v) = inr ((λ x m o h. cc), refl)
  overlaid-IsDecided merge (some x) (some v) = elim (Option-cases (two enter (kind x) (kind v))) [
    | inl e ↦
        rw (e, overlaid, both)
          (inr (
            (λ y m o same k l.
                passed o (two-none (kind x) (kind v) m o e (ap kind (eq_of_some same) ∙ k) l)),
            refl,
          ))
    | inr ((m, o), e) ↦
        let (k, l, t) = two-some (kind x) (kind v) m o e in
        rw (e, overlaid, both) (inl (x, m, o, refl, k, l, entered o t, refl))
  ]

  pub merge_fields-IsDecided :
      (base overlay : Mapping) (k : Value)
      → IsDecided Y Enters
          (merge_fields Y enter)
          (get k base)
          (get k overlay)
          (get k (merge_fields Y enter base overlay))
  merge_fields-IsDecided base overlay k =
      subst (IsDecided Y Enters (merge_fields Y enter) (get k base) (get k overlay))
        (sym (get-merge_fields Y enter base overlay k))
        (overlaid-IsDecided (merge_fields Y enter) (get k base) (get k overlay))

module _ (Y : Yaml) where
  open Y use {Value, Mapping, entries, get}

  -- Every mapping; a mapping with an entry.
  abbrev pub Always : Mapping → Type 0
  Always o = Unit

  abbrev pub IsFilled : Mapping → Type 0
  IsFilled o = entries o ≢ []

  filled : {A : Type 0} (xs : List A) → not (is_empty xs) ≡ true → xs ≢ []
  filled [] h e = cc
  filled (x ∷ xs) h e = cc

  not_filled : {A : Type 0} (xs : List A) → not (is_empty xs) ≡ false → ¬ (xs ≢ [])
  not_filled [] h ne = ne refl
  not_filled (x ∷ xs) h ne = cc

  pub merge_mapping_values-IsDecided :
      (base overlay : Mapping) (k : Value)
      → IsDecided Y IsFilled
          (merge_mapping_values Y)
          (get k base)
          (get k overlay)
          (get k (merge_mapping_values Y base overlay))
  unfolding merge_mapping_values
  merge_mapping_values-IsDecided =
      merge_fields-IsDecided Y (is_filled Y) IsFilled (λ o. filled (entries o))
        (λ o. not_filled (entries o))

  -- Each key of the overlay is decided by itself: a key that the overlay lacks keeps its value, two
  -- mappings under one key are merged in the same way, and any other value of the overlay replaces the
  -- old one. The second overlay merges only mappings of the overlay that have an entry: an empty one
  -- replaces the old value. The fuel never runs out.
  pub overlays-IsDecided :
      (base overlay : Mapping) (k : Value)
      → IsDecided Y Always
          (merge_unknown_fields Y)
          (get k base)
          (get k overlay)
          (get k (merge_unknown_fields Y base overlay))
        × IsDecided Y IsFilled
            (merge_mapping_values Y)
            (get k base)
            (get k overlay)
            (get k (merge_mapping_values Y base overlay))
  unfolding merge_unknown_fields
  overlays-IsDecided base overlay k = (
    merge_fields-IsDecided Y (any_mapping Y) Always (λ o h. tt) (λ o h u. cc) base overlay k,
    merge_mapping_values-IsDecided base overlay k,
  )

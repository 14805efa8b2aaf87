-- ===== src/Yaml/Merge/Entries.antt =====
-- One level of the overlay of mappings, key by key.
use clash_verge_cli.Prelude.{
  ◌≡◌, refl, sym, ap, ap₂, ◌∙◌, subst, ◌≢◌, inl, inr, ite, if_pos, if_neg, Bool, Option, none, some,
  List, [], ◌∷◌, Option-cases, eq_of_some, All, Member, here, there, not-Member-nil, Member-cons,
}
use clash_verge_cli.Yaml.{DistinctKeys, Yaml}
use clash_verge_cli.Yaml.Merge.{both, merge_entry, merge_entries, overlaid}

module _ (Y : Yaml) (enter : Yaml.Mapping Y → Bool) where
  open Y use {
    Value, Mapping, same, kind, of_mapping, get, insert, entries, depth, get-insert_self,
    get-insert_ne, entries_distinct, entries_get, get_entries, depth-entries,
  }

  pub assoc : Value → List (Value × Value) → Option Value
  assoc j [] = none
  assoc j ((k, v) ∷ es) = ite (same k j) (some v) (assoc j es)

  assoc_self : (j k v : Value) (es : List (Value × Value)) → k ≡ j → assoc j ((k, v) ∷ es) ≡ some v
  unfolding assoc
  assoc_self j k v es e = rw (if_pos (same k j) e) refl

  assoc_other :
      (j k v : Value) (es : List (Value × Value)) → k ≢ j → assoc j ((k, v) ∷ es) ≡ assoc j es
  unfolding assoc
  assoc_other j k v es e = rw (if_neg (same k j) e) refl

  assoc-Member : (j v : Value) (es : List (Value × Value)) → assoc j es ≡ some v → Member (j, v) es
  unfolding assoc
  assoc-Member j v [] h = cc
  assoc-Member j v ((k, w) ∷ es) h = elim (same k j) [
    | yes e ↦ here (ap₂ (λ a b. (a, b)) (sym e) (eq_of_some (sym h ∙ assoc_self j k w es e)))
    | no e ↦ there (assoc-Member j v es (sym (assoc_other j k w es e) ∙ h))
  ]

  assoc-ne-none : (j v : Value) (es : List (Value × Value)) → Member (j, v) es → assoc j es ≢ none
  assoc-ne-none j v [] m h = not-Member-nil m
  assoc-ne-none j v ((k, w) ∷ es) m h = elim (Member-cons m) [
    | inl e ↦ cc (assoc_self j k w es (sym (ap (λ (p : Value × Value). p.0) e)))
    | inr n ↦ elim (same k j) [
      | yes e ↦ cc (assoc_self j k w es e)
      | no e ↦ assoc-ne-none j v es n (sym (assoc_other j k w es e) ∙ h)
    ]
  ]

  pub assoc-entries : (j : Value) (m : Mapping) → assoc j (entries m) ≡ get j m
  assoc-entries j m = elim (Option-cases (assoc j (entries m))) [
    | inr (v, e) ↦ e ∙ sym (entries_get j v m (assoc-Member j v (entries m) e))
    | inl e ↦ elim (Option-cases (get j m)) [
      | inl g ↦ e ∙ sym g
      | inr (v, g) ↦ absurd (assoc-ne-none j v (entries m) (get_entries j v m g) e)
    ]
  ]

  module _ (rest : Mapping → Mapping → Mapping) where
    module _ (base : Mapping) (k v : Value) where
      pub merge_entry_plain :
          both Y enter (get k base) v ≡ none → merge_entry Y enter rest base k v ≡ insert k v base
      unfolding merge_entry
      merge_entry_plain e = rw (e, merge_entry) refl

      pub merge_entry_nested :
          (b o : Mapping)
          → both Y enter (get k base) v ≡ some (b, o)
          → merge_entry Y enter rest base k v ≡ insert k (of_mapping (rest b o)) base
      unfolding merge_entry
      merge_entry_nested b o e = rw (e, merge_entry) refl

      get-merge_entry_self :
          get k (merge_entry Y enter rest base k v) ≡ overlaid Y enter rest (get k base) (some v)
      get-merge_entry_self = elim (Option-cases (both Y enter (get k base) v)) [
        | inl e ↦
            ap (get k) (merge_entry_plain e)
            ∙ get-insert_self k v base
            ∙ sym (rw (e, overlaid) refl)
        | inr ((b, o), e) ↦
            ap (get k) (merge_entry_nested b o e)
            ∙ get-insert_self k (of_mapping (rest b o)) base
            ∙ sym (rw (e, overlaid) refl)
      ]

      get-merge_entry_ne :
          (j : Value) → k ≢ j → get j (merge_entry Y enter rest base k v) ≡ get j base
      get-merge_entry_ne j ne = elim (Option-cases (both Y enter (get k base) v)) [
        | inl e ↦ ap (get j) (merge_entry_plain e) ∙ get-insert_ne k j v base ne
        | inr ((b, o), e) ↦
            ap (get j) (merge_entry_nested b o e)
            ∙ get-insert_ne k j (of_mapping (rest b o)) base ne
      ]

    absent : (j : Value) (es : List (Value × Value)) → All (λ e. e.0 ≢ j) es → assoc j es ≡ none
    unfolding assoc
    absent j [] h = refl
    absent j ((k, v) ∷ es) (ne, h) = assoc_other j k v es ne ∙ absent j es h

    pub get-merge_entries :
        (base : Mapping) (j : Value) (es : List (Value × Value))
        → DistinctKeys es
        → get j (merge_entries Y enter rest base es)
          ≡ overlaid Y enter rest (get j base) (assoc j es)
    unfolding merge_entries assoc
    get-merge_entries base j [] d = refl
    get-merge_entries base j ((k, v) ∷ es) (new, d) =
        let base' = merge_entry Y enter rest base k v in
        let ih = get-merge_entries base' j es d in
        elim (same k j) [
          | yes e ↦
              ih
              ∙ ap₂ (λ b o. overlaid Y enter rest b o)
                  (subst (λ x. get x base' ≡ overlaid Y enter rest (get x base) (some v)) e
                    (get-merge_entry_self base k v))
                  (absent j es (subst (λ x. All (λ e. e.0 ≢ x) es) e new))
              ∙ ap (λ o. overlaid Y enter rest (get j base) o) (sym (assoc_self j k v es e))
          | no e ↦
              ih
              ∙ ap₂ (λ b o. overlaid Y enter rest b o) (get-merge_entry_ne base k v j e)
                  (sym (assoc_other j k v es e))
        ]

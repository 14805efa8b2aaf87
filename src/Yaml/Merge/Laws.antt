-- ===== src/Yaml/Merge/Laws.antt =====
-- What the recursive overlay of mappings does at each key, and that its fuel suffices.
use clash_verge_cli.Prelude.{
  ◌≡◌, refl, sym, ap, ◌∙◌, inl, inr, Bool, Option, none, some, List, [], ◌∷◌, arith, ℕ, zero, suc,
  ◌≤◌, ◌<◌, Bool-cases, Option-cases, eq_of_some, All, All-of_Member,
}
use clash_verge_cli.Yaml.{Kind, mapping, Yaml}
use clash_verge_cli.Yaml.Merge.{
  two, both, merge_entry, merge_entries, merge_fuel, merge_fields, overlaid,
}
use clash_verge_cli.Yaml.Merge.Entries.{
  assoc-entries, merge_entry_plain, merge_entry_nested, get-merge_entries,
}

two-eq-some :
    {V M : Type 0} (enter : M → Bool) (a b : Kind V M) {m o : M}
    → two enter a b ≡ some (m, o)
    → b ≡ mapping o
two-eq-some enter (mapping m) (mapping o) h = elim (Bool-cases (enter o)) [
  | inl e ↦ ap mapping (ap (λ p. p.1) (eq_of_some (rw e at h)))
  | inr e ↦ cc
]
two-eq-some enter _ _ h = cc

module _ (Y : Yaml) (enter : Yaml.Mapping Y → Bool) where
  open Y use {
    Value, Mapping, same, kind, of_mapping, get, insert, entries, depth, get-insert_self,
    get-insert_ne, entries_distinct, entries_get, get_entries, depth-entries,
  }

  -- The two recursive calls agree below the value.
  AgreeBelow : (r s : Mapping → Mapping → Mapping) → Value → Type 0
  AgreeBelow r s v = (m o : Mapping) → kind v ≡ mapping o → r m o ≡ s m o

  kind_of_both :
      (b : Option Value) (v : Value) (m o : Mapping)
      → both Y enter b v ≡ some (m, o)
      → kind v ≡ mapping o
  kind_of_both none v m o h = cc
  kind_of_both (some b) v m o h = two-eq-some enter (kind b) (kind v) h

  overlaid_plain :
      (r : Mapping → Mapping → Mapping) (b : Option Value) (v : Value)
      → both Y enter b v ≡ none
      → overlaid Y enter r b (some v) ≡ some v
  overlaid_plain r b v e = rw (e, overlaid) refl

  overlaid_nested :
      (r : Mapping → Mapping → Mapping) (b : Option Value) (v : Value) (m o : Mapping)
      → both Y enter b v ≡ some (m, o)
      → overlaid Y enter r b (some v) ≡ some (of_mapping (r m o))
  overlaid_nested r b v m o e = rw (e, overlaid) refl

  overlaid_cong :
      (r s : Mapping → Mapping → Mapping) (b : Option Value) (v : Value)
      → AgreeBelow r s v
      → overlaid Y enter r b (some v) ≡ overlaid Y enter s b (some v)
  unfolding AgreeBelow
  overlaid_cong r s b v h = elim (Option-cases (both Y enter b v)) [
    | inl e ↦ overlaid_plain r b v e ∙ sym (overlaid_plain s b v e)
    | inr ((m, o), e) ↦
        overlaid_nested r b v m o e
        ∙ ap (λ t. some (of_mapping t)) (h m o (kind_of_both b v m o e))
        ∙ sym (overlaid_nested s b v m o e)
  ]

  merge_entry_cong :
      (r s : Mapping → Mapping → Mapping) (base : Mapping) (k v : Value)
      → AgreeBelow r s v
      → merge_entry Y enter r base k v ≡ merge_entry Y enter s base k v
  unfolding AgreeBelow
  merge_entry_cong r s base k v h = elim (Option-cases (both Y enter (get k base) v)) [
    | inl e ↦ merge_entry_plain Y enter r base k v e ∙ sym (merge_entry_plain Y enter s base k v e)
    | inr ((b, o), e) ↦
        merge_entry_nested Y enter r base k v b o e
        ∙ ap (λ m. insert k (of_mapping m) base) (h b o (kind_of_both (get k base) v b o e))
        ∙ sym (merge_entry_nested Y enter s base k v b o e)
  ]

  merge_entries_cong :
      (r s : Mapping → Mapping → Mapping) (base : Mapping) (es : List (Value × Value))
      → All (λ e. AgreeBelow r s e.1) es
      → merge_entries Y enter r base es ≡ merge_entries Y enter s base es
  unfolding merge_entries
  merge_entries_cong r s base [] h = refl
  merge_entries_cong r s base ((k, v) ∷ es) (p, h) =
      ap (λ b. merge_entries Y enter r b es) (merge_entry_cong r s base k v p)
      ∙ merge_entries_cong r s (merge_entry Y enter s base k v) es h

  -- More fuel than the overlay is deep changes nothing.
  merge_fuel_enough :
      (f g : ℕ) (base overlay : Mapping)
      → depth overlay < f
      → depth overlay < g
      → merge_fuel Y enter f base overlay ≡ merge_fuel Y enter g base overlay
  unfolding merge_fuel AgreeBelow
  merge_fuel_enough zero g base overlay h k = elim h [ ]
  merge_fuel_enough (suc f) zero base overlay h k = elim k [ ]
  merge_fuel_enough (suc f) (suc g) base overlay h k =
      merge_entries_cong (λ b o. merge_fuel Y enter f b o) (λ b o. merge_fuel Y enter g b o) base
        (entries overlay)
        (All-of_Member _ (entries overlay) (λ (key, v) mem m o e.
          let deep = depth-entries key v overlay o mem e in
          merge_fuel_enough f g m o (omega (arith, deep)) (omega (arith, deep))))

  get_merged :
      (base overlay : Mapping) (k : Value)
      → get k (merge_fields Y enter base overlay)
        ≡ overlaid Y enter
            (λ m o. merge_fuel Y enter (depth overlay) m o)
            (get k base)
            (get k overlay)
  unfolding merge_fields
  get_merged base overlay k =
      get-merge_entries Y enter (λ m o. merge_fuel Y enter (depth overlay) m o) base k
        (entries overlay) (entries_distinct overlay)
      ∙ ap (λ o. overlaid Y enter (λ m o. merge_fuel Y enter (depth overlay) m o) (get k base) o)
          (assoc-entries Y enter k overlay)

  overlaid_merge :
      (fuel : ℕ) (overlay : Mapping) (b : Option Value) (k : Value) (v : Option Value)
      → depth overlay ≤ fuel
      → get k overlay ≡ v
      → overlaid Y enter (λ m o. merge_fuel Y enter fuel m o) b v
        ≡ overlaid Y enter (merge_fields Y enter) b v
  unfolding merge_fields AgreeBelow
  overlaid_merge fuel overlay b k none h e = refl
  overlaid_merge fuel overlay b k (some v) h e =
      overlaid_cong (λ m o. merge_fuel Y enter fuel m o) (merge_fields Y enter) b v
        (λ m o shape.
          let deep = depth-entries k v overlay o (get_entries k v overlay e) shape in
          merge_fuel_enough fuel (suc (depth o)) m o (omega (arith, deep)) (omega arith))

  -- The overlay decides each key by itself: a key that it lacks keeps its value, two mappings under one
  -- key are merged in the same way, and any other value of the overlay replaces the old one, whichever
  -- mappings of the overlay are merged. The fuel never runs out.
  pub get-merge_fields :
      (base overlay : Mapping) (k : Value)
      → get k (merge_fields Y enter base overlay)
        ≡ overlaid Y enter (merge_fields Y enter) (get k base) (get k overlay)
  get-merge_fields base overlay k =
      get_merged base overlay k
      ∙ overlaid_merge (depth overlay) overlay (get k base) k (get k overlay) (omega arith) refl

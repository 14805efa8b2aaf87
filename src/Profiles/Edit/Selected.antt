-- ===== src/Profiles/Edit/Selected.antt =====
-- `patch_config` of profiles.rs selects only a profile that is in the list.
use clash_verge_cli.Prelude.{
  String, ◌≡◌, refl, inl, inr, Bool, true, Option, none, some, List, [], ◌∷◌, is_text, is_text_iff,
  Bool-cases, false-ne-true, any, Member, here, there,
}
use clash_verge_cli.Profiles.Store.{IProfiles, item_list, patch_config}
use clash_verge_cli.Profiles.Edit.Valid.{IsValid}

Member-any :
    {A : Type 0} (p : A → Bool) (xs : List A)
    → any p xs ≡ true
    → (a : A) × Member a xs × (p a ≡ true)
Member-any p [] h = absurd (false-ne-true h)
Member-any p (x ∷ xs) h = elim (Bool-cases (p x)) [
  | inl e ↦ (x, here refl, e)
  | inr e ↦ let (a, m, t) = Member-any p xs (rw e at h) in (a, there m, t)
]

module _ {M : Type 0} where
  -- Selecting a profile keeps the list valid, also where there is no such profile.
  pub patch_config-IsValid : (p patch : IProfiles M) → IsValid p → IsValid (patch_config p patch)
  unfolding patch_config
  patch_config-IsValid p patch v = selected patch.current refl
    where
      same : IsValid (record p { items = some (item_list p) })
      same = record { distinct = v.distinct; named = v.named; listed = v.listed }

      selected : (o : Option String) → patch.current ≡ o → IsValid (patch_config p patch)
      selected none e = rw (e, patch_config) same
      selected (some c) e = elim (Bool-cases (any (λ i. is_text i.uid c) (item_list p))) [
        | inr f ↦ rw (e, f, patch_config) same
        | inl f ↦
            let (i, m, t) = Member-any (λ i. is_text i.uid c) (item_list p) f in
            rw (e, f, patch_config)
              (record {
                distinct = v.distinct;
                named = v.named;
                listed = (i, m, (is_text_iff i.uid c).0 t);
              })
      ]

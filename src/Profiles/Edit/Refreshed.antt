-- ===== src/Profiles/Edit/Refreshed.antt =====
-- `update_item` of profiles.rs keeps the list of profiles valid.
use clash_verge_cli.Prelude.{
  String, ◌≡◌, refl, sym, ◌∙◌, subst, ◌⊎◌, inl, inr, some, is_text, is_text_iff, Bool-cases,
  Option-cases, All-Member, Member-find,
}
use clash_verge_cli.Profiles.Item.{PrfItem}
use clash_verge_cli.Profiles.Store.{IProfiles, Disk, item_list, get_item}
use clash_verge_cli.Profiles.Edit.{
  is_single_filename, refreshed_item, target_file, with_item, update_file, update_item,
}
use clash_verge_cli.Profiles.Edit.Valid.{IsValid, Named, modify-IsValid}
use clash_verge_cli.Profiles.Edit.Kept.{save_then-profiles}

module _ {M : Type 0} (D : Disk M) where
  open D use {State}

  update_file-Named :
      (uid : String) (each i : PrfItem M) (d : State)
      → Named each
      → Named (update_file D uid each i d).0
  update_file-Named uid each i d h = elim (Option-cases i.file_data) [
    | inl e ↦ rw (e, update_file) h
    | inr (content, e) ↦ elim (Bool-cases (is_single_filename (target_file uid each i))) [
      | inl g ↦ rw (e, g, update_file) (rw g refl)
      | inr g ↦ rw (e, g, update_file) refl
    ]
  ]

  update_file-uid :
      (uid : String) (each i : PrfItem M) (d : State)
      → (update_file D uid each i d).0.uid ≡ each.uid
  update_file-uid uid each i d = elim (Option-cases i.file_data) [
    | inl e ↦ rw (e, update_file) refl
    | inr (content, e) ↦ elim (Bool-cases (is_single_filename (target_file uid each i))) [
      | inl g ↦ rw (e, g, update_file) refl
      | inr g ↦ rw (e, g, update_file) refl
    ]
  ]

  module _ (overlay : M → M → M) where
    changed_item : String → PrfItem M → PrfItem M → State → PrfItem M
    changed_item uid each i d = (update_file D uid (refreshed_item overlay each i) i d).0

    update_outcome :
        (p : IProfiles M) (uid : String) (i : PrfItem M) (d : State)
        → ((update_item D overlay p uid i d).profiles ≡ record p { items = some (item_list p) })
          ⊎ ((each : PrfItem M) × (get_item p uid ≡ some each)
              × ((update_item D overlay p uid i d).profiles
                  ≡ with_item p uid (changed_item uid each i d)))
    unfolding update_item changed_item
    update_outcome p uid i d = elim (Option-cases (get_item p uid)) [
      | inl e ↦ inl (rw (e, update_item) refl)
      | inr (each, e) ↦
          elim (Option-cases (update_file D uid (refreshed_item overlay each i) i d).1) [
            | inl w ↦ inr (each, e, (rw (e, w, update_item) refl))
            | inr (d', w) ↦ inr (each, e, (rw (e, w, update_item) (save_then-profiles D tt _ d')))
          ]
    ]

    -- Refreshing a profile keeps the list valid, also where the new content is not written or the
    -- list is not saved.
    pub update_item-IsValid :
        (p : IProfiles M) (uid : String) (i : PrfItem M) (d : State)
        → IsValid p
        → IsValid (update_item D overlay p uid i d).profiles
    unfolding changed_item refreshed_item get_item
    update_item-IsValid p uid i d v = elim (update_outcome p uid i d) [
      | inl e ↦
          subst IsValid (sym e)
            (record { distinct = v.distinct; named = v.named; listed = v.listed })
      | inr (each, found, e) ↦
          let (mem, t) = Member-find (λ j. is_text j.uid uid) (item_list p) found in
          let uid_of = (is_text_iff each.uid uid).0 t in
          subst IsValid (sym e) (
            modify-IsValid (λ j. changed_item uid each i d) uid p
              (λ j k.
                update_file-uid uid (refreshed_item overlay each i) i d
                ∙ uid_of
                ∙ sym ((is_text_iff j.uid uid).0 k))
              (λ j k h.
                update_file-Named uid (refreshed_item overlay each i) i d
                  (All-Member Named (item_list p) v.named mem))
              v)
    ]

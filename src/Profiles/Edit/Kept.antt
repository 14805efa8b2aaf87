-- ===== src/Profiles/Edit/Kept.antt =====
-- The list of profiles stays valid whatever an operation of profiles.rs does, errors included.
use clash_verge_cli.Prelude.{
  String, ◌≡◌, refl, sym, subst, ◌⊎◌, inl, inr, false, not, ◌&&◌, ◌||◌, Option, none, some, List,
  [], ◌∷◌, ◌++◌, arith, is_text, Bool-cases, Option-cases, is_some, or_else, WhenSome-intro, All,
  All-append, Member-append_first, Member-append_last,
}
use clash_verge_cli.Profiles.Item.{PrfItem}
use clash_verge_cli.Profiles.Store.{IProfiles, Disk, item_list, save_then}
use clash_verge_cli.Profiles.Store.Delete.{DistinctUids}
use clash_verge_cli.Profiles.Edit.{
  is_bad_file, patched, has_item, pushed, write_data, append_item, patch_item,
}
use clash_verge_cli.Profiles.Edit.Valid.{IsValid, ListedIn, Named, IsNew, modify-IsValid}

or_else-cases : {A : Type 0} (a b : Option A) → (or_else a b ≡ a) ⊎ (or_else a b ≡ b)
or_else-cases none b = inr refl
or_else-cases (some a) b = inl refl

module _ {M : Type 0} where
  push-DistinctUids :
      (is : List (PrfItem M)) (i : PrfItem M)
      → All (IsNew i.uid) is
      → DistinctUids is
      → DistinctUids (is ++ i ∷ [])
  push-DistinctUids [] i new h = (tt, tt)
  push-DistinctUids (j ∷ is) i (ne, new) (first, h) = (
    All-append (IsNew j.uid) is (i ∷ []) first (λ e. ne (sym e), tt),
    push-DistinctUids is i new h,
  )

  push-Listed :
      (is : List (PrfItem M)) (i : PrfItem M) (c : Option String)
      → ListedIn is c
      → ListedIn (is ++ i ∷ []) c
  push-Listed is i none h = tt
  push-Listed is i (some c) (j, m, e) = (j, Member-append_first is (i ∷ []) m, e)

  pushed-IsValid :
      (p : IProfiles M) (i : PrfItem M)
      → IsValid p
      → All (IsNew i.uid) (item_list p)
      → Named i
      → IsValid (pushed p i)
  pushed-IsValid p i v new good = record {
    distinct = push-DistinctUids (item_list p) (record i { file_data = none }) new v.distinct;
    named = All-append Named (item_list p) (record i { file_data = none } ∷ []) v.named (good, tt);
    listed =
        elim (Bool-cases
          (not (is_some p.current) && (is_text i.itype "remote" || is_text i.itype "local"))) [
            | inl e ↦ rw e (
                WhenSome-intro _ i.uid
                  (λ c u. (record i { file_data = none }, Member-append_last (item_list p) _, u)))
            | inr e ↦ rw e (push-Listed (item_list p) _ p.current v.listed)
          ];
  }

  file_of_guard : (i : PrfItem M) → (not (is_some i.uid) || is_bad_file i.file) ≡ false → Named i
  file_of_guard i e = ground (arith, e)

  module _ (D : Disk M) where
    open D use {State}

    pub save_then-profiles :
        {A : Type 0} (a : A) (p : IProfiles M) (d : State) → (save_then D a p d).profiles ≡ p
    unfolding save_then
    save_then-profiles a p d = ground arith

    append_outcome :
        (p : IProfiles M) (i : PrfItem M) (d : State)
        → ((append_item D p i d).profiles ≡ p)
          ⊎ (((append_item D p i d).profiles ≡ pushed p i) × Named i)
    unfolding append_item
    append_outcome p i d = elim (Bool-cases (not (is_some i.uid) || is_bad_file i.file)) [
      | inl e ↦ inl (rw (e, append_item) refl)
      | inr e ↦ elim (Option-cases (write_data D i d)) [
        | inl w ↦ inl (rw (e, w, append_item) refl)
        | inr (d', w) ↦
            inr (rw (e, w, append_item) (save_then-profiles tt (pushed p i) d'), file_of_guard i e)
      ]
    ]

    -- Adding a profile whose uid is new keeps the list valid, whether or not the profile is written
    -- and the list is saved.
    pub append_item-IsValid :
        (p : IProfiles M) (i : PrfItem M) (d : State)
        → IsValid p
        → All (IsNew i.uid) (item_list p)
        → IsValid (append_item D p i d).profiles
    append_item-IsValid p i d v new = elim (append_outcome p i d) [
      | inl e ↦ subst IsValid (sym e) v
      | inr (e, good) ↦ subst IsValid (sym e) (pushed-IsValid p i v new good)
    ]

    module _ (overlay : M → M → M) where
      patched-Named : (each i : PrfItem M) → Named i → Named each → Named (patched overlay each i)
      unfolding patched
      patched-Named each i h k = elim (or_else-cases i.file each.file) [
        | inl e ↦ subst (λ f. is_bad_file f ≡ false) (sym e) h
        | inr e ↦ subst (λ f. is_bad_file f ≡ false) (sym e) k
      ]

      -- Patching a profile keeps the list valid, also where there is no such profile or the list is
      -- not saved.
      pub patch_item-IsValid :
          (p : IProfiles M) (uid : String) (i : PrfItem M) (d : State)
          → IsValid p
          → IsValid (patch_item D overlay p uid i d).profiles
      unfolding patch_item patched
      patch_item-IsValid p uid i d v = elim (Bool-cases (is_bad_file i.file)) [
        | inl e ↦ rw (e, patch_item) v
        | inr e ↦ elim (Bool-cases (has_item p uid)) [
          | inl h ↦
              rw (e, h, patch_item)
                (subst IsValid (sym (save_then-profiles tt _ d)) (
                  modify-IsValid (λ each. patched overlay each i) uid p (λ j t. refl)
                    (λ j t k. patched-Named j i e k) v))
          | inr h ↦
              rw (e, h, patch_item)
                (record { distinct = v.distinct; named = v.named; listed = v.listed })
        ]
      ]

-- ===== src/Profiles/Store/Delete.antt =====
-- What `delete_item` of profiles.rs removes, and what it leaves as the current profile.
use clash_verge_cli.Prelude.{
  String, ◌≡◌, refl, sym, ap, ◌∙◌, subst, ◌≢◌, inl, inr, Bool, true, false, not, Option, none, some,
  List, [], ◌∷◌, arith, ◌==◌, eq_iff, eq_refl, if◌then◌else◌, Bool-cases, Option-cases,
  false-ne-true, any, find, keep, IsFiltered, keep-IsFiltered, unwrap_or, eq_of_some, WhenSome,
  WhenSome-intro, All, Member, Member-find, Member-keep,
}
use clash_verge_cli.Profiles.Item.{PrfOption, PrfItem}
use clash_verge_cli.Profiles.Store.{
  IProfiles, Disk, is_uid, item_list, get_item, take_item, fragments, is_selectable, next_current,
  remove_if, take_all, delete_item,
}

is_uid_eq : (a b : Option String) → is_uid a b ≡ true → a ≡ b
is_uid_eq none none h = refl
is_uid_eq none (some t) h = cc
is_uid_eq (some u) none h = cc
is_uid_eq (some u) (some t) h = ap some ((eq_iff u t).0 h)

is_uid_same : (a : Option String) → is_uid a a ≡ true
is_uid_same none = refl
is_uid_same (some u) = eq_refl u

module _ {M : Type 0} where
  -- No uid stands twice.
  abbrev pub DistinctUids : List (PrfItem M) → Type 0
  DistinctUids [] = Unit
  DistinctUids (item ∷ items) = All (λ j. j.uid ≢ item.uid) items × DistinctUids items

  -- The item is none of the targets.
  abbrev pub is_spared : List (Option String) → PrfItem M → Bool
  is_spared targets item = not (any (λ t. is_uid item.uid t) targets)

  keep_distinct :
      (items : List (PrfItem M)) (t : Option String)
      → All (λ j. j.uid ≢ t) items
      → keep (is_spared (t ∷ [])) items ≡ items
  keep_distinct [] t h = refl
  keep_distinct (item ∷ items) t (ne, h) = elim (Bool-cases (is_uid item.uid t)) [
    | inl e ↦ absurd (ne (is_uid_eq item.uid t e))
    | inr e ↦ rw (e, keep_distinct items t h) refl
  ]

  take_item-keep :
      (items : List (PrfItem M)) (t : Option String)
      → DistinctUids items
      → (take_item items t).0 ≡ keep (is_spared (t ∷ [])) items
  unfolding take_item
  take_item-keep [] t h = refl
  take_item-keep (item ∷ items) t (new, h) = elim (Bool-cases (is_uid item.uid t)) [
    | inl e ↦ rw e (
        sym (
          keep_distinct items t
            (subst (λ u. All (λ j. j.uid ≢ u) items) (is_uid_eq item.uid t e) new)))
    | inr e ↦ rw (e, take_item-keep items t h) refl
  ]

  pub All-keep :
      (P : PrfItem M → Type 0) (p : PrfItem M → Bool) (items : List (PrfItem M))
      → All P items
      → All P (keep p items)
  All-keep P p [] h = tt
  All-keep P p (item ∷ items) (q, h) = elim (Bool-cases (p item)) [
    | inl e ↦ rw e (q, All-keep P p items h)
    | inr e ↦ rw e (All-keep P p items h)
  ]

  pub keep-DistinctUids :
      (p : PrfItem M → Bool) (items : List (PrfItem M))
      → DistinctUids items
      → DistinctUids (keep p items)
  keep-DistinctUids p [] h = tt
  keep-DistinctUids p (item ∷ items) (new, h) = elim (Bool-cases (p item)) [
    | inl e ↦ rw e (All-keep (λ j. j.uid ≢ item.uid) p items new, keep-DistinctUids p items h)
    | inr e ↦ rw e (keep-DistinctUids p items h)
  ]

  keep_twice :
      (items : List (PrfItem M)) (t : Option String) (ts : List (Option String))
      → keep (is_spared ts) (keep (is_spared (t ∷ [])) items) ≡ keep (is_spared (t ∷ ts)) items
  keep_twice [] t ts = refl
  keep_twice (item ∷ items) t ts = ground (arith, keep_twice items t ts)

  is_spared_of_ne :
      (ts : List (Option String)) (item : PrfItem M)
      → All (λ t. t ≢ item.uid) ts
      → is_spared ts item ≡ true
  is_spared_of_ne [] item h = refl
  is_spared_of_ne (t ∷ ts) item (ne, h) = elim (Bool-cases (is_uid item.uid t)) [
    | inl e ↦ absurd (ne (sym (is_uid_eq item.uid t e)))
    | inr e ↦ rw e (is_spared_of_ne ts item h)
  ]

  keep_untargeted : (items : List (PrfItem M)) → keep (is_spared []) items ≡ items
  keep_untargeted [] = refl
  keep_untargeted (item ∷ items) = ap (λ r. item ∷ r) (keep_untargeted items)

  -- The item has neither the uid nor one of those that the options give for a fragment.
  abbrev pub IsUntouched : String → Option (PrfOption M) → PrfItem M → Type 0
  IsUntouched uid option item =
      (item.uid ≢ some uid)
      × ((op : PrfOption M)
          → option ≡ some op
          → (item.uid ≢ op.merge)
            × (item.uid ≢ op.script)
            × (item.uid ≢ op.rules)
            × (item.uid ≢ op.proxies)
            × (item.uid ≢ op.groups))

  spared_ne :
      (ts : List (Option String)) (item : PrfItem M)
      → is_spared ts item ≡ true
      → All (λ t. item.uid ≢ t) ts
  spared_ne [] item h = tt
  spared_ne (t ∷ ts) item h = elim (Bool-cases (is_uid item.uid t)) [
    | inl e ↦ absurd (false-ne-true (rw e at h))
    | inr e ↦ (
      (λ same. false-ne-true (sym e ∙ ap (λ u. is_uid u t) same ∙ is_uid_same t)),
      spared_ne ts item (rw e at h),
    )
  ]

  untouched :
      (uid : String) (option : Option (PrfOption M)) (item : PrfItem M)
      → is_spared (some uid ∷ fragments option) item ≡ true
      → IsUntouched uid option item
  untouched uid none item h = let (a, b) = spared_ne (some uid ∷ []) item h in (a, λ op e. cc)
  untouched uid (some option) item h =
      let (a, (b, (c, (d, (e, (f, g)))))) = spared_ne (some uid ∷ fragments (some option)) item h in
      (
        a,
        λ op same.
            subst
              (λ op.
                (item.uid ≢ op.merge)
                × (item.uid ≢ op.script)
                × (item.uid ≢ op.rules)
                × (item.uid ≢ op.proxies)
                × (item.uid ≢ op.groups))
              (eq_of_some same) (b, c, d, e, f),
      )

  spared_untouched :
      (uid : String) (option : Option (PrfOption M)) (item : PrfItem M)
      → IsUntouched uid option item
      → is_spared (some uid ∷ fragments option) item ≡ true
  spared_untouched uid none item (a, h) =
      is_spared_of_ne (some uid ∷ []) item ((λ e. a (sym e)), tt)
  spared_untouched uid (some option) item (a, h) =
      let (b, c, d, e, f) = h option refl in
      is_spared_of_ne (some uid ∷ fragments (some option)) item (
        (λ x. a (sym x)),
        (
          (λ x. b (sym x)),
          ((λ x. c (sym x)), ((λ x. d (sym x)), ((λ x. e (sym x)), ((λ x. f (sym x)), tt)))),
        ),
      )

  -- The current profile, if any, is in the list.
  abbrev pub CurrentIsListed : IProfiles M → Type 0
  CurrentIsListed p =
      WhenSome (λ c. (item : PrfItem M) × Member item (item_list p) × (item.uid ≡ some c)) p.current

  next_current-IsListed :
      (items : List (PrfItem M))
      → WhenSome
          (λ c. (item : PrfItem M) × Member item items × (item.uid ≡ some c))
          (next_current items)
  next_current-IsListed items = elim (Option-cases (find is_selectable items)) [
    | inl e ↦ rw (e, next_current) tt
    | inr (item, e) ↦
        rw (e, next_current)
          (WhenSome-intro _ item.uid (λ c u. (item, (Member-find is_selectable items e).0, u)))
  ]

  module _ (D : Disk M) where
    open D use {State}

    take_all-keep :
        (items : List (PrfItem M)) (ts : List (Option String)) (d : State)
        → DistinctUids items
        → (take_all D items ts d).0 ≡ keep (is_spared ts) items
    unfolding take_all
    take_all-keep items [] d h = sym (keep_untargeted items)
    take_all-keep items (t ∷ ts) d h =
        let (rest, file) = take_item items t in
        let same = take_item-keep items t h in
        take_all-keep rest ts (remove_if D file d)
          (subst DistinctUids (sym same) (keep-DistinctUids (is_spared (t ∷ [])) items h))
        ∙ ap (keep (is_spared ts)) same
        ∙ keep_twice items t ts

    module _ (p : IProfiles M) (uid : String) (d : State) {item : PrfItem M}
        (found : get_item p uid ≡ some item) (distinct : DistinctUids (item_list p)) where
      -- What `delete_item` takes out: the profile and the fragments that its options name.
      abbrev pub targets : List (Option String)
      targets = some uid ∷ fragments item.option

      abbrev left : List (PrfItem M)
      left = (take_all D (item_list p) targets d).0

      deleted : (delete_item D p uid d).profiles ≡ record p {
        current = if unwrap_or uid p.current == uid then next_current left else p.current;
        items = some left;
      }
      unfolding delete_item
      deleted = ground (arith, found)

      pub all_taken :
          (delete_item D p uid d).profiles.items ≡ some (keep (is_spared targets) (item_list p))
      all_taken =
          ap (λ (q : IProfiles M). q.items) deleted
          ∙ ap some (take_all-keep (item_list p) targets d distinct)

      -- Deleting a profile keeps, in their order, exactly the items that have neither its uid nor one that
      -- its options give for a fragment, whether or not the list is then saved. Where the options leave a
      -- fragment open, the item without a uid is not kept either.
      pub delete_item-keep :
          (left : List (PrfItem M)) × ((delete_item D p uid d).profiles.items ≡ some left)
          × IsFiltered (IsUntouched uid item.option) (item_list p) left
      delete_item-keep = (
        keep (is_spared targets) (item_list p),
        all_taken,
        keep-IsFiltered (IsUntouched uid item.option) (is_spared targets)
            (λ i h. untouched uid item.option i h)
            (λ i h u. false-ne-true (sym h ∙ spared_untouched uid item.option i u)) (item_list p),
      )

      kept_current :
          (c : String)
          → p.current ≡ some c
          → (c == uid) ≡ false
          → All (λ t. t ≢ some c) (fragments item.option)
          → CurrentIsListed p
          → WhenSome (λ c. (i : PrfItem M) × Member i left × (i.uid ≡ some c)) p.current
      kept_current c e ne free h =
          let (i, m, u) =
            subst (WhenSome (λ c. (i : PrfItem M) × Member i (item_list p) × (i.uid ≡ some c))) e
              h in
          let outside : All (λ t. t ≢ some c) targets =
            ((λ t. false-ne-true (sym ne ∙ (eq_iff c uid).1 (sym (eq_of_some t)))), free) in
          let spared =
            is_spared_of_ne targets i (subst (λ x. All (λ t. t ≢ x) targets) (sym u) outside) in
          subst (WhenSome (λ c. (i : PrfItem M) × Member i left × (i.uid ≡ some c))) (sym e) (
            i,
            subst (Member i) (sym (take_all-keep (item_list p) targets d distinct))
                (Member-keep (is_spared targets) (item_list p) m spared),
            u,
          )

      -- Deleting a profile leaves a current profile that is in the list, or none, if the current profile
      -- was in the list and is not one of the deleted fragments.
      pub delete_item-CurrentIsListed :
          CurrentIsListed p
          → ((c : String) → p.current ≡ some c → All (λ t. t ≢ some c) (fragments item.option))
          → CurrentIsListed (delete_item D p uid d).profiles
      delete_item-CurrentIsListed h free = subst CurrentIsListed (sym deleted) listed
        where
          Listed : Option String → Type 0
          Listed = WhenSome (λ c. (i : PrfItem M) × Member i left × (i.uid ≡ some c))

          chosen :
              (current : Option String)
              → p.current ≡ current
              → Listed (if unwrap_or uid current == uid then next_current left else current)
          chosen none e = rw (eq_refl uid) (next_current-IsListed left)
          chosen (some c) e = elim (Bool-cases (c == uid)) [
            | inl same ↦ rw same (next_current-IsListed left)
            | inr other ↦ rw other (subst Listed e (kept_current c e other (free c e) h))
          ]

          listed : CurrentIsListed (record p {
            current = if unwrap_or uid p.current == uid then next_current left else p.current;
            items = some left;
          })
          listed = chosen p.current refl

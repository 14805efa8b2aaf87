-- ===== src/Profiles/Views.antt =====
-- What `IProfiles` of profiles.rs shows of the list: the preview, and the mapping of the current profile.
use clash_verge_cli.Prelude.{
  String, ◌≡◌, refl, sym, ap, ◌∙◌, subst, ◌↔◌, Bool, Option, none, some, List, is_text, ◌>>=◌,
  bind-eq-some, eq_of_some, Member, filter_map, Member-filter_map, filter_map-Member,
}
use clash_verge_cli.Profiles.Item.{PrfItem}
use clash_verge_cli.Profiles.Store.{IProfiles, get_item}

pub record IProfilePreview : Type 0 where
  pub uid : String
  pub name : String
  pub is_current : Bool

-- What `current_mapping` returns: a mapping, or an error.
pub data Loaded (M : Type 0) : Type 0 where
  loaded : M → Loaded M
  failed : Loaded M

module _ {M : Type 0} where
  -- `is_current_profile_index`
  abbrev pub is_current_profile_index : IProfiles M → String → Bool
  is_current_profile_index p index = is_text p.current index

  abbrev pub preview_from : IProfiles M → Option String → Option String → Option IProfilePreview
  preview_from p uid name = uid >>= λ u.
      name >>= λ n. some (record { uid = u; name = n; is_current = is_current_profile_index p u })

  -- the closure of `filter_map` in `profiles_preview`
  abbrev pub preview_of : IProfiles M → PrfItem M → Option IProfilePreview
  preview_of p item = preview_from p item.uid item.name

  -- `profiles_preview`
  unfoldable pub profiles_preview : IProfiles M → Option (List IProfilePreview)
  profiles_preview p = p.items >>= λ items. some (filter_map (preview_of p) items)

  -- `current_mapping`; `read_mapping` reads a file of the profile directory
  unfoldable pub current_mapping : M → (String → Option M) → IProfiles M → Loaded M
  unfolding get_item
  current_mapping empty read_mapping p = elim p.current [
    | none ↦ loaded empty
    | some current ↦ elim p.items [
      | none ↦ loaded empty
      | some items ↦ elim (get_item p current >>= (λ item. item.file) >>= read_mapping) [
        | none ↦ failed
        | some mapping ↦ loaded mapping
      ]
    ]
  ]

  -- The item is shown so.
  abbrev pub IsShown : IProfiles M → IProfilePreview → PrfItem M → Type 0
  IsShown p shown item =
      (item.uid ≡ some shown.uid)
      × (item.name ≡ some shown.name)
      × (is_text p.current shown.uid ≡ shown.is_current)

  preview-IsShown :
      (p : IProfiles M) (item : PrfItem M) (shown : IProfilePreview)
      → preview_of p item ≡ some shown
      → IsShown p shown item
  preview-IsShown p item shown h =
      let (uid, u, k) = bind-eq-some item.uid _ h in
      let (name, n, e) = bind-eq-some item.name _ k in
      let same = eq_of_some e in
      (
        u ∙ ap (λ (x : IProfilePreview). some x.uid) same,
        n ∙ ap (λ (x : IProfilePreview). some x.name) same,
        subst (λ (x : IProfilePreview). is_text p.current x.uid ≡ x.is_current) same refl,
      )

  shown_preview :
      (p : IProfiles M) (item : PrfItem M) (shown : IProfilePreview)
      → IsShown p shown item
      → preview_of p item ≡ some shown
  shown_preview p item shown (u, n, c) =
      both_given item.uid item.name u n
      ∙ ap (λ b. some (record { uid = shown.uid; name = shown.name; is_current = b })) c
    where
      both_given :
          (a b : Option String)
          → a ≡ some shown.uid
          → b ≡ some shown.name
          → preview_from p a b
            ≡ some (record {
              uid = shown.uid;
              name = shown.name;
              is_current = is_current_profile_index p shown.uid;
            })
      both_given a b h k = rw (h, k) refl

  -- The preview lists the profiles that have a uid and a name, and marks the current one.
  pub profiles_preview_iff :
      (p : IProfiles M) (items : List (PrfItem M)) (shown : IProfilePreview)
      → p.items ≡ some items
      → ((previews : List IProfilePreview) × (profiles_preview p ≡ some previews)
          × Member shown previews)
        ↔ ((item : PrfItem M) × Member item items × IsShown p shown item)
  unfolding profiles_preview
  profiles_preview_iff p items shown e = (
    (λ (previews, h, m).
        let same = eq_of_some (sym (listed p.items e) ∙ h) in
        let (item, mem, k) =
          Member-filter_map (preview_of p) items (subst (Member shown) (sym same) m) in
        (item, mem, preview-IsShown p item shown k)),
    λ (item, mem, s). (
      filter_map (preview_of p) items,
      listed p.items e,
      filter_map-Member (preview_of p) items mem (shown_preview p item shown s),
    ),
  )
    where
      listed :
          (o : Option (List (PrfItem M)))
          → o ≡ some items
          → (o >>= λ is. some (filter_map (preview_of p) is))
            ≡ some (filter_map (preview_of p) items)
      listed o h = rw h refl

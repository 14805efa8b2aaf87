-- ===== src/Profiles/Store.antt =====
-- `IProfiles` of crates/clash-verge-core/src/config/profiles.rs: the list of profiles, what it answers
-- and how it deletes. The directory of profile files and profiles.yaml are behind the interface
-- `Disk`.
pub mod Delete
use clash_verge_cli.Prelude.{
  String, Bool, true, false, ◌||◌, Option, none, some, List, [], ◌∷◌, ◌==◌, ◌-◌, if◌then◌else◌,
  is_text, any, find, ◌>>=◌, unwrap_or,
}
use clash_verge_cli.Profiles.Item.{PrfOption, PrfItem}

pub record IProfiles (M : Type 0) : Type 0 where
  pub current : Option String
  pub items : Option (List (PrfItem M))
  pub extra : M

-- The file system: writing a profile file and saving profiles.yaml may fail, and the result of
-- removing a file is ignored.
pub record Disk (M : Type 0) : Type 1 where
  pub State : Type 0
  pub write_file : String → String → State → Option State
  pub remove_file : String → State → State
  pub save_profiles : IProfiles M → State → Option State

-- `item.uid.as_deref() == target_uid`
abbrev pub is_uid : Option String → Option String → Bool
is_uid none none = true
is_uid none (some t) = false
is_uid (some u) none = false
is_uid (some u) (some t) = u == t

module _ {M : Type 0} where
  -- `self.items.unwrap_or_default()`
  abbrev pub item_list : IProfiles M → List (PrfItem M)
  item_list p = unwrap_or [] p.items

  -- `IProfiles::get_item`
  unfoldable pub get_item : IProfiles M → String → Option (PrfItem M)
  get_item p uid = find (λ item. is_text item.uid uid) (item_list p)

  abbrev has_uid : String → List (PrfItem M) → Bool
  has_uid uid items = any (λ item. is_text item.uid uid) items

  -- `IProfiles::patch_config`
  unfoldable pub patch_config : IProfiles M → IProfiles M → IProfiles M
  patch_config p patch =
      let q = record p { items = some (item_list p) } in
      elim patch.current [
        | none ↦ q
        | some current ↦
            if has_uid current (item_list p) then record q { current = some current } else q
      ]

  -- `IProfiles::get_name_by_uid`
  unfoldable pub get_name_by_uid : IProfiles M → String → Option String
  unfolding get_item
  get_name_by_uid p uid = elim (get_item p uid) [ none ↦ none | some item ↦ item.name ]

  -- `IProfiles::take_item_file_by_uid`: the items without the first match, and its file
  pub take_item : List (PrfItem M) → Option String → List (PrfItem M) × Option String
  take_item [] target = ([], none)
  take_item (item ∷ items) target =
      let (rest, file) = take_item items target in
      if is_uid item.uid target then (items, item.file) else (item ∷ rest, file)

  -- the uids of the fragments, as `delete_item` collects them
  abbrev pub fragments : Option (PrfOption M) → List (Option String)
  fragments none = []
  fragments (some op) = op.merge ∷ op.script ∷ op.rules ∷ op.proxies ∷ op.groups ∷ []

  abbrev is_selectable : PrfItem M → Bool
  is_selectable item = is_text item.itype "remote" || is_text item.itype "local"

  -- the loop that chooses another current profile
  abbrev pub next_current : List (PrfItem M) → Option String
  next_current items = elim (find is_selectable items) [ none ↦ none | some item ↦ item.uid ]

  module _ (D : Disk M) where
    open D use {State, remove_file, save_profiles}

    abbrev pub remove_if : Option String → State → State
    remove_if none d = d
    remove_if (some file) d = remove_file file d

    -- the loop over `delete_uids`
    pub take_all : List (PrfItem M) → List (Option String) → State → List (PrfItem M) × State
    take_all items [] d = (items, d)
    take_all items (target ∷ targets) d =
        let (rest, file) = take_item items target in take_all rest targets (remove_if file d)

    -- The profiles and the disk after an operation, and its result: `none` is an error.
    pub record Outcome (A : Type 0) : Type 0 where
      pub profiles : IProfiles M
      pub state : State
      pub result : Option A

    -- `self.save_file().await?` followed by `Ok(a)`
    unfoldable pub save_then : {A : Type 0} → A → IProfiles M → State → Outcome A
    save_then a p d = elim (save_profiles p d) [
      | none ↦ record { profiles = p; state = d; result = none }
      | some d' ↦ record { profiles = p; state = d'; result = some a }
    ]

    -- `IProfiles::delete_item`; the directory of profile files is taken to exist
    unfoldable pub delete_item : IProfiles M → String → State → Outcome Bool
    unfolding take_item take_all get_item save_then
    delete_item p uid d = elim (get_item p uid) [
      | none ↦ record { profiles = p; state = d; result = none }
      | some item ↦
          let (items, d') = take_all (item_list p) (some uid ∷ fragments item.option) d in
          let was_current = unwrap_or uid p.current == uid in
          save_then was_current
            (record p {
              current = if was_current then next_current items else p.current;
              items = some items;
            })
            d'
    ]

-- ===== src/Profiles/Edit.antt =====
-- How `IProfiles` of profiles.rs adds, patches and refreshes a profile. `overlay` is
-- `merge_unknown_fields`.
pub mod Valid
pub mod Kept
pub mod Refreshed
pub mod Removed
pub mod Selected
pub mod Trace
pub mod Lookup
use Prim.Native.String
use clash_verge_cli.Prelude.{
  String, Bool, false, not, ◌&&◌, ◌||◌, Option, none, some, List, [], ◌∷◌, ◌++◌, ◌==◌, ◌+◌, ◌-◌,
  ◌/◌, eqb, if◌then◌else◌, is_text, any, is_empty, codes, ◌>>=◌, unwrap_or, is_some, or_else,
}
use clash_verge_cli.Profiles.Item.{PrfExtra, PrfItem, merge_option}
use clash_verge_cli.Profiles.Store.{IProfiles, Disk, item_list, get_item, Outcome, save_then}

-- `IProfiles::validate_profile_file`: one component, and no special one
unfoldable pub is_single_filename : String → Bool
is_single_filename file =
    not (is_empty (codes file))
    && (not (any (λ c. eqb c b'/' || eqb c b'\\') (codes file))
        && not (file == "." || file == ".."))

-- A file is named, and it is no single filename.
abbrev pub is_bad_file : Option String → Bool
is_bad_file none = false
is_bad_file (some file) = not (is_single_filename file)

module _ {M : Type 0} (overlay : M → M → M) where
  -- `extra.unknown_fields` keeps the old fields under the new ones
  abbrev patched_extra : Option (PrfExtra M) → PrfExtra M → PrfExtra M
  patched_extra none extra = extra
  patched_extra (some old) extra = record extra {
    unknown_fields = overlay old.unknown_fields extra.unknown_fields;
  }

  -- the body of the loop in `patch_item`
  pub patched : PrfItem M → PrfItem M → PrfItem M
  patched each item = record each {
    itype = or_else item.itype each.itype;
    name = or_else item.name each.name;
    desc = or_else item.desc each.desc;
    file = or_else item.file each.file;
    url = or_else item.url each.url;
    selected = or_else item.selected each.selected;
    extra = elim item.extra [
      | none ↦ each.extra
      | some extra ↦ some (patched_extra each.extra extra)
    ];
    updated = or_else item.updated each.updated;
    option = elim item.option [
      | none ↦ each.option
      | some option ↦ merge_option overlay each.option (some option)
    ];
    unknown_fields = overlay each.unknown_fields item.unknown_fields;
  }

  -- the body of the loop in `update_item`, before the file data
  pub refreshed_item : PrfItem M → PrfItem M → PrfItem M
  unfolding merge_option
  refreshed_item each item = record each {
    extra = elim item.extra [ none ↦ none | some extra ↦ some (patched_extra each.extra extra) ];
    updated = item.updated;
    home = item.home;
    option = merge_option overlay each.option item.option;
  }

-- Changes the first item with the uid.
pub modify_first :
    {M : Type 0} → (PrfItem M → PrfItem M) → String → List (PrfItem M) → List (PrfItem M)
modify_first f uid [] = []
modify_first f uid (item ∷ items) =
    if is_text item.uid uid then f item ∷ items else item ∷ modify_first f uid items

module _ {M : Type 0} where
  abbrev pub has_item : IProfiles M → String → Bool
  has_item p uid = any (λ item. is_text item.uid uid) (item_list p)

  -- the file that the data of an update goes to
  abbrev pub target_file : String → PrfItem M → PrfItem M → String
  target_file uid each item = unwrap_or (unwrap_or (String.◌++◌ uid ".yaml") item.file) each.file

  abbrev pub with_item : IProfiles M → String → PrfItem M → IProfiles M
  with_item p uid item = record p { items = some (modify_first (λ each. item) uid (item_list p)) }

  abbrev first_current : IProfiles M → PrfItem M → Option String
  first_current p item =
      if not (is_some p.current) && (is_text item.itype "remote" || is_text item.itype "local")
      then item.uid
      else p.current

  -- the profiles after `append_item` pushed the item
  abbrev pub pushed : IProfiles M → PrfItem M → IProfiles M
  pushed p item = record p {
    current = first_current p item;
    items = some (item_list p ++ record item { file_data = none } ∷ []);
  }

module _ {M : Type 0} (D : Disk M) where
  open D use {State, write_file}

  abbrev failed_with : IProfiles M → State → Outcome D (Unit {0})
  failed_with p d = record { profiles = p; state = d; result = none }

  -- `if let Some(file_data) = item.file_data.take()`
  abbrev write_data : PrfItem M → State → Option State
  write_data item d = elim item.file_data [
    | none ↦ some d
    | some content ↦ elim item.file [ none ↦ none | some file ↦ write_file file content d ]
  ]

  -- `IProfiles::append_item`
  unfoldable pub append_item : IProfiles M → PrfItem M → State → Outcome D (Unit {0})
  unfolding save_then
  append_item p item d =
      if not (is_some item.uid) || is_bad_file item.file
      then failed_with p d
      else elim (write_data item d) [
        | none ↦ failed_with p d
        | some d' ↦ save_then D tt (pushed p item) d'
      ]

  -- the file data of an update: the item, and the disk if it was written
  abbrev pub update_file : String → PrfItem M → PrfItem M → State → PrfItem M × Option State
  update_file uid each item d = elim item.file_data [
    | none ↦ (each, some d)
    | some content ↦
        let file = target_file uid each item in
        if is_single_filename file
        then (record each { file = some file }, write_file file content d)
        else (record each { file = none }, none)
  ]

  module _ (overlay : M → M → M) where
    -- `IProfiles::patch_item`
    unfoldable pub patch_item : IProfiles M → String → PrfItem M → State → Outcome D (Unit {0})
    unfolding save_then patched modify_first merge_option
    patch_item p uid item d =
        if is_bad_file item.file
        then failed_with p d
        else if has_item p uid
        then save_then D tt
            (record p {
              items = some (modify_first (λ each. patched overlay each item) uid (item_list p));
            })
            d
        else failed_with (record p { items = some (item_list p) }) d

    -- `IProfiles::update_item`; an error leaves the changes in memory and does not save them
    unfoldable pub update_item : IProfiles M → String → PrfItem M → State → Outcome D (Unit {0})
    unfolding save_then refreshed_item modify_first merge_option get_item
    update_item p uid item d = elim (get_item p uid) [
      | none ↦ failed_with (record p { items = some (item_list p) }) d
      | some each ↦
          let (changed, written) = update_file uid (refreshed_item overlay each item) item d in
          elim written [
            | none ↦ failed_with (with_item p uid changed) d
            | some d' ↦ save_then D tt (with_item p uid changed) d'
          ]
    ]

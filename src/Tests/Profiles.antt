-- ===== src/Tests/Profiles.antt =====
-- Small lists of profiles, through the operations of profiles.rs.
use clash_verge_cli.Prelude.{
  String, ◌≡◌, refl, sym, ◌∙◌, subst, ◌≢◌, ◌⊎◌, Bool, true, false, not, Option, none, some, List,
  [], ◌∷◌, ◌==◌, eq_iff, false-ne-true, keep, IsFiltered, eq_of_some, All, here,
}
use clash_verge_cli.Profiles.Item.{PrfOption, PrfItem}
use clash_verge_cli.Profiles.Store.{
  IProfiles, Disk, item_list, get_item, patch_config, fragments, delete_item,
}
use clash_verge_cli.Profiles.Views.{IProfilePreview}
use clash_verge_cli.Profiles.Store.Delete.{IsUntouched, delete_item-keep}
use clash_verge_cli.Profiles.Edit.{
  is_single_filename, is_bad_file, append_item, patch_item, update_item,
}
use clash_verge_cli.Profiles.Edit.Trace.{
  Session, left_by, SparesCurrent, appended, deleted, Run, ended, step, Run-IsValid,
}
use clash_verge_cli.Profiles.Edit.Valid.{IsValid, IsNew}
use clash_verge_cli.Profiles.Edit.Selected.{patch_config-IsValid}
use clash_verge_cli.Profiles.Edit.Lookup.{IsPatched, patch_item-IsPatched}

abbrev pub M : Type 0
M = Unit {0}

abbrev overlay : M → M → M
overlay a b = tt

abbrev pub is_named : String → String × String → Bool
is_named file (name, content) = name == file

-- The files with their contents; profiles.yaml is always saved.
abbrev pub disk : Disk M
disk = record {
  State = List (String × String);
  write_file = λ file content d. some ((file, content) ∷ keep (λ f. not (is_named file f)) d);
  remove_file = λ file d. keep (λ f. not (is_named file f)) d;
  save_profiles = λ p d. some d;
}

abbrev pub with_rules : PrfOption M
with_rules = record {
  user_agent = none;
  with_proxy = none;
  self_proxy = none;
  update_interval = none;
  timeout_seconds = none;
  danger_accept_invalid_certs = none;
  allow_auto_update = none;
  merge = some "mA";
  script = some "sA";
  rules = some "rA";
  proxies = some "pA";
  groups = some "gA";
  trusted_hosts = none;
  unknown_fields = tt;
}

abbrev pub profile : String → String → Option (PrfOption M) → PrfItem M
profile uid itype option = record {
  uid = some uid;
  itype = some itype;
  name = some uid;
  file = some "a.yaml";
  desc = none;
  url = none;
  selected = none;
  extra = none;
  updated = none;
  option = option;
  home = none;
  file_data = none;
  unknown_fields = tt;
}

abbrev pub two_profiles : IProfiles M
two_profiles = record {
  current = some "A";
  items = some (
      profile "A" "remote" (some with_rules)
      ∷ profile "rA" "rules" none
      ∷ profile "B" "local" none
      ∷ []);
  extra = tt;
}

abbrev edit : PrfItem M
edit = record (profile "A" "remote" none) { name = some "new"; file_data = some "proxies: []" }

deletes_fragments :
    (delete_item disk two_profiles "A" []).profiles
    ≡ record two_profiles { current = some "B"; items = some (profile "B" "local" none ∷ []) }
unfolding delete_item
deletes_fragments = refl

updates_file :
    (update_item disk overlay two_profiles "A" edit []).state ≡ ("a.yaml", "proxies: []") ∷ []
unfolding update_item get_item is_single_filename
updates_file = refl

rejects_path : is_single_filename "../a" ≡ false
unfolding is_single_filename
rejects_path = refl

found_A : get_item two_profiles "A" ≡ some (profile "A" "remote" (some with_rules))
unfolding get_item
found_A = refl

differ : (a b : String) → (a == b) ≡ false → some a ≢ some b
differ a b h e = false-ne-true (sym h ∙ (eq_iff a b).1 (eq_of_some e))

valid : IsValid two_profiles
unfolding is_single_filename
valid = record {
  distinct =
      ((differ "rA" "A" refl, (differ "B" "A" refl, tt)), ((differ "B" "rA" refl, tt), (tt, tt)));
  named = (refl, (refl, (refl, tt)));
  listed = (profile "A" "remote" (some with_rules), here refl, refl);
}

outside :
    (c : String)
    → two_profiles.current ≡ some c
    → All (λ t. t ≢ some c) (fragments (some with_rules))
outside c h =
    subst (λ o. All (λ t. t ≢ o) (fragments (some with_rules))) h
      (
        differ "mA" "A" refl,
        (
          differ "sA" "A" refl,
          (differ "rA" "A" refl, (differ "pA" "A" refl, (differ "gA" "A" refl, tt))),
        ),
      )

abbrev new_profile : PrfItem M
new_profile = record (profile "C" "local" none) { file_data = some "rules: []" }

is_new : All (IsNew new_profile.uid) (item_list two_profiles)
is_new = (differ "A" "C" refl, (differ "rA" "C" refl, (differ "B" "C" refl, tt)))

delete_item-keep_example :
    (left : List (PrfItem M)) × ((delete_item disk two_profiles "A" []).profiles.items ≡ some left)
    × IsFiltered (IsUntouched "A" (some with_rules)) (item_list two_profiles) left
delete_item-keep_example = delete_item-keep disk two_profiles "A" [] found_A valid.distinct

edit_has_file : is_bad_file edit.file ≡ false
unfolding is_single_filename
edit_has_file = refl

patch_item-IsPatched_example :
    ((old : PrfItem M)
      → get_item two_profiles "A" ≡ some old
      → (new : PrfItem M) × (get_item
            (patch_item disk overlay two_profiles "A" edit []).profiles
            "A"
          ≡ some new)
        × IsPatched overlay old edit new)
    × ((other : String)
        → (get_item two_profiles other ≡ none) ⊎ (other ≢ "A")
        → get_item (patch_item disk overlay two_profiles "A" edit []).profiles other
          ≡ get_item two_profiles other)
patch_item-IsPatched_example =
    patch_item-IsPatched disk overlay two_profiles "A" edit [] edit_has_file

abbrev shown_A : IProfilePreview
shown_A = record { uid = "A"; name = "A"; is_current = true }

abbrev select_B : IProfiles M
select_B = record { current = some "B"; items = none; extra = tt }

selects_B : (patch_config two_profiles select_B).current ≡ some "B"
unfolding patch_config
selects_B = refl

patch_config-IsValid_example : IsValid (patch_config two_profiles select_B)
patch_config-IsValid_example = patch_config-IsValid two_profiles select_B valid

abbrev start : Session disk overlay
start = (two_profiles, [])

abbrev shorter : Session disk overlay
shorter = left_by disk overlay (delete_item disk two_profiles "A" [])

abbrev longer : Session disk overlay
longer = left_by disk overlay (append_item disk shorter.0 new_profile shorter.1)

spares_A : SparesCurrent disk overlay two_profiles "A"
spares_A i e =
    subst
      (λ (i : PrfItem M).
        (c : String) → two_profiles.current ≡ some c → All (λ t. t ≢ some c) (fragments i.option))
      (eq_of_some (sym found_A ∙ e)) outside

IsNew-after : All (IsNew new_profile.uid) (item_list shorter.0)
unfolding delete_item
IsNew-after = (differ "B" "C" refl, tt)

two_steps : Run disk overlay longer start
two_steps =
    step {m = shorter} (deleted "A" spares_A refl)
      (step {m = longer} (appended new_profile IsNew-after refl) (ended refl))

Run-IsValid_example : IsValid longer.0
Run-IsValid_example = Run-IsValid disk overlay two_steps valid

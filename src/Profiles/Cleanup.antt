-- ===== src/Profiles/Cleanup.antt =====
-- Which files of the profile directory `cleanup_orphaned_files` of profiles.rs removes. The counts
-- that it makes are thrown away by the code, and the directory is taken to exist.
pub mod Names
pub mod Orphans
use clash_verge_cli.Prelude.{
  String, Bool, true, false, not, ◌&&◌, ◌||◌, Option, none, some, List, [], ◌∷◌, ℕ, ◌-◌, eqb,
  if◌then◌else◌, contains, Text, codes, text_eq, is_alphanumeric, ◌>>=◌, filter_map,
}
use clash_verge_cli.Profiles.Store.{IProfiles, Disk, item_list}

-- `[a-zA-Z0-9]*` and then the suffix
abbrev pub ends_name : Text → Text → Bool
ends_name suffix [] = text_eq [] suffix
ends_name suffix (c ∷ cs) = text_eq (c ∷ cs) suffix || is_alphanumeric c && ends_name suffix cs

-- `[a-zA-Z0-9]+` and then the suffix
abbrev pub has_stem : Text → Text → Bool
has_stem suffix [] = false
has_stem suffix (c ∷ cs) = is_alphanumeric c && ends_name suffix cs

abbrev pub is_yaml_letter : ℕ → Bool
is_yaml_letter c =
    eqb c b'R' || (eqb c b'L' || (eqb c b'm' || (eqb c b'r' || (eqb c b'p' || eqb c b'g'))))

abbrev pub yaml_suffix : Text
yaml_suffix = codes ".yaml"

abbrev pub js_suffix : Text
js_suffix = codes ".js"

abbrev pub matches_pattern : Text → Bool
matches_pattern [] = false
matches_pattern (c ∷ cs) =
    is_yaml_letter c && has_stem yaml_suffix cs || eqb c b's' && has_stem js_suffix cs

-- `is_profile_file`: the pattern `^(?:[RLmrpg][a-zA-Z0-9]+\.yaml|s[a-zA-Z0-9]+\.js)$`
unfoldable pub is_profile_file : String → Bool
is_profile_file name = matches_pattern (codes name)

-- An entry of the directory: its name, if it is valid UTF-8, and whether it is a file.
pub record DirEntry : Type 0 where
  pub name : Option String
  pub is_file : Bool

abbrev pub protected_files : List String
protected_files = "Merge.yaml" ∷ "Script.js" ∷ []

module _ {M : Type 0} where
  -- `get_all_active_files`
  abbrev pub active_files : IProfiles M → List String
  active_files p = filter_map (λ item. item.file) (item_list p)

  abbrev pub is_orphan_name : IProfiles M → String → Bool
  is_orphan_name p file =
      is_profile_file file
      && (not (contains protected_files file) && not (contains (active_files p) file))

  abbrev pub candidate : IProfiles M → Bool → Option String → Option String
  candidate p false name = none
  candidate p true none = none
  candidate p true (some file) = if is_orphan_name p file then some file else none

  -- the file that a round of the loop removes
  unfoldable pub orphan_of : IProfiles M → DirEntry → Option String
  orphan_of p entry = candidate p entry.is_file entry.name

  unfoldable pub orphans : IProfiles M → List DirEntry → List String
  unfolding orphan_of
  orphans p entries = filter_map (orphan_of p) entries

  module _ (D : Disk M) where
    open D use {State, remove_file}

    remove_each : List String → State → State
    remove_each [] d = d
    remove_each (file ∷ files) d = remove_each files (remove_file file d)

    unfoldable pub cleanup_orphaned_files : IProfiles M → List DirEntry → State → State
    unfolding remove_each orphans
    cleanup_orphaned_files p entries d = remove_each (orphans p entries) d

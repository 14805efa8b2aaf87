-- ===== src/Tests/Cleaning.antt =====
-- The clean-up of a directory with a file of a profile, an orphan and a stranger.
use clash_verge_cli.Prelude.{
  String, ◌≡◌, refl, ◌↔◌, ◌⊎◌, true, false, some, List, [], ◌∷◌, eqb, codes, Member,
}
use clash_verge_cli.Profiles.Cleanup.{
  is_yaml_letter, yaml_suffix, js_suffix, is_profile_file, DirEntry, orphans,
  cleanup_orphaned_files,
}
use clash_verge_cli.Profiles.Cleanup.Orphans.{IsOrphan, orphans_iff}
use clash_verge_cli.Profiles.Cleanup.Names.{IsSpelled, is_profile_file_iff}
use clash_verge_cli.Tests.Profiles.{disk, two_profiles}

abbrev file_entry : String → DirEntry
file_entry name = record { name = some name; is_file = true }

abbrev directory : List DirEntry
directory =
    file_entry "a.yaml"
    ∷ file_entry "R12.yaml"
    ∷ file_entry "Merge.yaml"
    ∷ file_entry "s1.txt"
    ∷ record { name = some "L9.yaml"; is_file = false }
    ∷ []

one_orphan : orphans two_profiles directory ≡ "R12.yaml" ∷ []
unfolding orphans is_profile_file
one_orphan = refl

removes_it :
    cleanup_orphaned_files disk two_profiles directory (("R12.yaml", "x") ∷ ("a.yaml", "y") ∷ [])
    ≡ ("a.yaml", "y") ∷ []
unfolding cleanup_orphaned_files is_profile_file
removes_it = refl

orphans_iff_example :
    Member "R12.yaml" (orphans two_profiles directory) ↔ IsOrphan two_profiles directory "R12.yaml"
orphans_iff_example = orphans_iff two_profiles directory "R12.yaml"

is_profile_file_iff_example : (is_profile_file "s1.js" ≡ true) ↔ (
    IsSpelled is_yaml_letter yaml_suffix (codes "s1.js")
    ⊎ IsSpelled (λ c. eqb c b's') js_suffix (codes "s1.js"))
is_profile_file_iff_example = is_profile_file_iff "s1.js"

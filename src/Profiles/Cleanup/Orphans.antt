-- ===== src/Profiles/Cleanup/Orphans.antt =====
-- The files that `cleanup_orphaned_files` of profiles.rs removes are the orphans.
use clash_verge_cli.Prelude.{
  String, ◌≡◌, refl, sym, ap, ◌∙◌, subst, ◌≢◌, ◌↔◌, inl, inr, Bool, true, false, not, ◌&&◌, Option,
  none, some, List, arith, Bool-cases, false-ne-true, contains, eq_of_some, Member,
  Member-filter_map, filter_map-Member, contains-Member, Member-contains,
}
use clash_verge_cli.Profiles.Item.{PrfItem}
use clash_verge_cli.Profiles.Store.{IProfiles, item_list}
use clash_verge_cli.Profiles.Cleanup.{
  is_profile_file, DirEntry, protected_files, active_files, is_orphan_name, candidate, orphan_of,
  orphans,
}

tests_hold :
    (a b c : Bool) → (a && (not b && not c)) ≡ true → (a ≡ true) × (b ≡ false) × (c ≡ false)
tests_hold a b c h = (ground arith, ground arith, ground arith)

tests_true : (a b c : Bool) → a ≡ true → b ≡ false → c ≡ false → (a && (not b && not c)) ≡ true
tests_true a b c f g h = rw (f, g, h) refl

module _ {M : Type 0} where
  -- A file of the directory that has the name of a profile file, is not protected, and is the file of no
  -- profile in the list.
  pub record IsOrphan (p : IProfiles M) (entries : List DirEntry) (file : String) : Type 0 where
    pub entry : DirEntry
    pub listed : Member entry entries
    pub regular : entry.is_file ≡ true
    pub named : entry.name ≡ some file
    pub shaped : is_profile_file file ≡ true
    pub unprotected : contains protected_files file ≡ false
    pub unused : (item : PrfItem M) → Member item (item_list p) → item.file ≢ some file

  candidate_tested :
      (p : IProfiles M) (is_file : Bool) (name : Option String) (file : String)
      → candidate p is_file name ≡ some file
      → (is_file ≡ true) × (name ≡ some file) × (is_orphan_name p file ≡ true)
  candidate_tested p false name file h = cc
  candidate_tested p true none file h = cc
  candidate_tested p true (some n) file h = elim (Bool-cases (is_orphan_name p n)) [
    | inl e ↦
        let same = eq_of_some (rw e at h) in
        (refl, ap some same, subst (λ x. is_orphan_name p x ≡ true) same e)
    | inr e ↦ absurd (none_ne (rw e at h))
  ]
    where
      none_ne : none ≡ some file → ⊥
      none_ne h = cc

  candidate_found :
      (p : IProfiles M) (is_file : Bool) (name : Option String) (file : String)
      → is_file ≡ true
      → name ≡ some file
      → is_orphan_name p file ≡ true
      → candidate p is_file name ≡ some file
  candidate_found p is_file name file f n t = rw (f, n) (rw t refl)

  -- The clean-up removes exactly the orphans: never a file that a profile of the list names, nor one
  -- without the name of a profile file.
  pub orphans_iff :
      (p : IProfiles M) (entries : List DirEntry) (file : String)
      → Member file (orphans p entries) ↔ IsOrphan p entries file
  unfolding orphans orphan_of
  orphans_iff p entries file = (
    (λ m.
        let (entry, mem, h) = Member-filter_map (orphan_of p) entries m in
        let (f, n, t) = candidate_tested p entry.is_file entry.name file h in
        let (a, b, c) =
          tests_hold (is_profile_file file) (contains protected_files file)
            (contains (active_files p) file) t in
        record {
          entry = entry;
          listed = mem;
          regular = f;
          named = n;
          shaped = a;
          unprotected = b;
          unused = λ item k e. false-ne-true (
              sym c
              ∙ contains-Member (active_files p) file
                  (filter_map-Member (λ (i : PrfItem M). i.file) (item_list p) k e));
        }),
    λ o. filter_map-Member (orphan_of p) entries o.listed (
        candidate_found p o.entry.is_file o.entry.name file o.regular o.named (
          tests_true (is_profile_file file) (contains protected_files file)
            (contains (active_files p) file) o.shaped o.unprotected (inactive p file o.unused))),
  )
    where
      inactive :
          (p : IProfiles M) (file : String)
          → ((item : PrfItem M) → Member item (item_list p) → item.file ≢ some file)
          → contains (active_files p) file ≡ false
      inactive p file unused = elim (Bool-cases (contains (active_files p) file)) [
        | inr e ↦ e
        | inl e ↦
            let (item, k, h) =
              Member-filter_map (λ (i : PrfItem M). i.file) (item_list p)
                (Member-contains (active_files p) file e) in
            absurd (unused item k h)
      ]

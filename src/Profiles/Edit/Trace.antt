-- ===== src/Profiles/Edit/Trace.antt =====
-- Sequences of operations of profiles.rs on one list of profiles.
use clash_verge_cli.Prelude.{String, ◌≡◌, sym, subst, ◌≢◌, inl, inr, some, Option-cases, All}
use clash_verge_cli.Profiles.Item.{PrfItem}
use clash_verge_cli.Profiles.Store.{
  IProfiles, Disk, item_list, get_item, patch_config, fragments, Outcome, delete_item,
}
use clash_verge_cli.Profiles.Edit.{append_item, patch_item, update_item}
use clash_verge_cli.Profiles.Edit.Valid.{IsValid, IsNew}
use clash_verge_cli.Profiles.Edit.Kept.{append_item-IsValid, patch_item-IsValid}
use clash_verge_cli.Profiles.Edit.Refreshed.{update_item-IsValid}
use clash_verge_cli.Profiles.Edit.Removed.{delete_item-IsValid}
use clash_verge_cli.Profiles.Edit.Selected.{patch_config-IsValid}

module _ {M : Type 0} (D : Disk M) (overlay : M → M → M) where
  open D use {State}

  -- The profiles in memory and the disk
  abbrev pub Session : Type 0
  Session = IProfiles M × State

  abbrev pub left_by : {A : Type 0} → Outcome D A → Session
  left_by o = (o.profiles, o.state)

  -- The current profile is none of the fragments that go with the profile.
  abbrev pub SparesCurrent : IProfiles M → String → Type 0
  SparesCurrent p uid =
      (i : PrfItem M)
      → get_item p uid ≡ some i
      → (c : String) → p.current ≡ some c
      → All (λ t. t ≢ some c) (fragments i.option)

  -- One operation, whether it succeeds or fails
  pub data Step (s t : Session) : Type 0 where
    appended :
        (i : PrfItem M)
        → All (IsNew i.uid) (item_list s.0)
        → t ≡ left_by (append_item D s.0 i s.1)
        → Step s t
    patched_as :
        (uid : String) (i : PrfItem M) → t ≡ left_by (patch_item D overlay s.0 uid i s.1) → Step s t
    updated :
        (uid : String) (i : PrfItem M)
        → t ≡ left_by (update_item D overlay s.0 uid i s.1)
        → Step s t
    deleted :
        (uid : String) → SparesCurrent s.0 uid → t ≡ left_by (delete_item D s.0 uid s.1) → Step s t
    selected : (patch : IProfiles M) → t ≡ (patch_config s.0 patch, s.1) → Step s t

  -- The operations that lead from one session to `t`
  pub data Run (t : Session) : Session → Type 0 where
    ended : {s : Session} → s ≡ t → Run t s
    step : {s m : Session} → Step s m → Run t m → Run t s

  delete_item-IsValid_anyway :
      (p : IProfiles M) (uid : String) (d : State)
      → SparesCurrent p uid
      → IsValid p
      → IsValid (delete_item D p uid d).profiles
  delete_item-IsValid_anyway p uid d spares v = elim (Option-cases (get_item p uid)) [
    | inl e ↦ unfold delete_item in rw (e, delete_item) v
    | inr (i, e) ↦ delete_item-IsValid D p uid d e (spares i e) v
  ]

  Step-IsValid : {s t : Session} → Step s t → IsValid s.0 → IsValid t.0
  Step-IsValid {s} (appended i new e) v =
      subst (λ (x : Session). IsValid x.0) (sym e) (append_item-IsValid D s.0 i s.1 v new)
  Step-IsValid {s} (patched_as uid i e) v =
      subst (λ (x : Session). IsValid x.0) (sym e) (patch_item-IsValid D overlay s.0 uid i s.1 v)
  Step-IsValid {s} (updated uid i e) v =
      subst (λ (x : Session). IsValid x.0) (sym e) (update_item-IsValid D overlay s.0 uid i s.1 v)
  Step-IsValid {s} (deleted uid spares e) v =
      subst (λ (x : Session). IsValid x.0) (sym e) (delete_item-IsValid_anyway s.0 uid s.1 spares v)
  Step-IsValid {s} (selected patch e) v =
      subst (λ (x : Session). IsValid x.0) (sym e) (patch_config-IsValid s.0 patch v)

  -- Whatever sequence of operations adds profiles with new uids, patches, refreshes, selects or
  -- deletes profiles, each with its errors, a valid list of profiles stays valid, that is each
  -- uid stands once, each file is a single filename and the current profile is listed, if no
  -- deleted profile takes the current one with it as its fragment.
  pub Run-IsValid : {t s : Session} → Run t s → IsValid s.0 → IsValid t.0
  Run-IsValid (ended e) v = subst (λ (x : Session). IsValid x.0) e v
  Run-IsValid (step first rest) v = Run-IsValid rest (Step-IsValid first v)

-- ===== src/Profiles/Edit/Removed.antt =====
-- `delete_item` of profiles.rs keeps the list of profiles valid.
use clash_verge_cli.Prelude.{String, ◌≡◌, sym, ap, subst, ◌≢◌, some, [], unwrap_or, All}
use clash_verge_cli.Profiles.Item.{PrfItem}
use clash_verge_cli.Profiles.Store.{IProfiles, Disk, item_list, get_item, fragments, delete_item}
use clash_verge_cli.Profiles.Store.Delete.{
  DistinctUids, All-keep, keep-DistinctUids, all_taken, delete_item-CurrentIsListed,
}
use clash_verge_cli.Profiles.Edit.Valid.{IsValid, Named}

module _ {M : Type 0} (D : Disk M) where
  open D use {State}

  -- Deleting a profile keeps the list valid, that is each uid stands once, each file is a single filename
  -- and the current profile is listed, if the current profile is not one of the fragments that go with it.
  pub delete_item-IsValid :
      (p : IProfiles M) (uid : String) (d : State) {i : PrfItem M}
      → get_item p uid ≡ some i
      → ((c : String) → p.current ≡ some c → All (λ t. t ≢ some c) (fragments i.option))
      → IsValid p
      → IsValid (delete_item D p uid d).profiles
  delete_item-IsValid p uid d found free v =
      let kept = ap (unwrap_or []) (all_taken D p uid d found v.distinct) in
      record {
        distinct = subst DistinctUids (sym kept) (keep-DistinctUids _ (item_list p) v.distinct);
        named = subst (All Named) (sym kept) (All-keep Named _ (item_list p) v.named);
        listed = delete_item-CurrentIsListed D p uid d found v.distinct v.listed free;
      }

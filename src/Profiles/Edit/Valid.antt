-- ===== src/Profiles/Edit/Valid.antt =====
-- What a list of profiles of profiles.rs has to be, and the changes of one item that keep it so.
use clash_verge_cli.Prelude.{
  String, ◌≡◌, refl, sym, ap, ◌∙◌, subst, ◌≢◌, inl, inr, true, false, Option, none, some, List, [],
  ◌∷◌, is_text, Bool-cases, WhenSome, All, Member, here, there, not-Member-nil, Member-cons,
}
use clash_verge_cli.Profiles.Item.{PrfItem}
use clash_verge_cli.Profiles.Store.{IProfiles, item_list}
use clash_verge_cli.Profiles.Store.Delete.{DistinctUids, CurrentIsListed}
use clash_verge_cli.Profiles.Edit.{is_bad_file, modify_first}

-- Each uid stands once, each file is a single filename, and the current profile is listed.
pub record IsValid {M : Type 0} (p : IProfiles M) : Type 0 where
  pub distinct : DistinctUids (item_list p)
  pub named : All (λ i. is_bad_file i.file ≡ false) (item_list p)
  pub listed : CurrentIsListed p

module _ {M : Type 0} where
  abbrev pub ListedIn : List (PrfItem M) → Option String → Type 0
  ListedIn items = WhenSome (λ c. (i : PrfItem M) × Member i items × (i.uid ≡ some c))

  abbrev pub Named : PrfItem M → Type 0
  Named i = is_bad_file i.file ≡ false

  abbrev pub IsNew : Option String → PrfItem M → Type 0
  IsNew u j = j.uid ≢ u

  module _ (f : PrfItem M → PrfItem M) (uid : String) where
    abbrev pub Keeps : Type 0
    Keeps = (i : PrfItem M) → is_text i.uid uid ≡ true → (f i).uid ≡ i.uid

    pub modify_hit :
        (i : PrfItem M) (is : List (PrfItem M))
        → is_text i.uid uid ≡ true
        → modify_first f uid (i ∷ is) ≡ f i ∷ is
    unfolding modify_first
    modify_hit i is e = rw e refl

    pub modify_miss :
        (i : PrfItem M) (is : List (PrfItem M))
        → is_text i.uid uid ≡ false
        → modify_first f uid (i ∷ is) ≡ i ∷ modify_first f uid is
    unfolding modify_first
    modify_miss i is e = rw e refl

    pub All-modify :
        (P : PrfItem M → Type 0) (is : List (PrfItem M))
        → ((i : PrfItem M) → is_text i.uid uid ≡ true → P i → P (f i))
        → All P is
        → All P (modify_first f uid is)
    unfolding modify_first
    All-modify P [] step h = tt
    All-modify P (i ∷ is) step (p, h) = elim (Bool-cases (is_text i.uid uid)) [
      | inl e ↦ subst (All P) (sym (modify_hit i is e)) (step i e p, h)
      | inr e ↦ subst (All P) (sym (modify_miss i is e)) (p, All-modify P is step h)
    ]

    pub modify-DistinctUids :
        (is : List (PrfItem M)) → Keeps → DistinctUids is → DistinctUids (modify_first f uid is)
    unfolding modify_first
    modify-DistinctUids [] k h = tt
    modify-DistinctUids (i ∷ is) k (new, h) = elim (Bool-cases (is_text i.uid uid)) [
      | inl e ↦
          subst DistinctUids (sym (modify_hit i is e))
            (subst (λ u. All (IsNew u) is) (sym (k i e)) new, h)
      | inr e ↦ subst DistinctUids (sym (modify_miss i is e)) (
        All-modify (IsNew i.uid) is (λ j t n. subst (λ u. u ≢ i.uid) (sym (k j t)) n) new,
        modify-DistinctUids is k h,
      )
    ]

    Member-modify :
        (is : List (PrfItem M)) (u : Option String)
        → Keeps
        → (i : PrfItem M) → Member i is
        → i.uid ≡ u
        → (j : PrfItem M) × Member j (modify_first f uid is) × (j.uid ≡ u)
    unfolding modify_first
    Member-modify [] u k i m e = absurd (not-Member-nil m)
    Member-modify (x ∷ is) u k i m e =
        let ih = Member-modify is u k i in
        elim (Bool-cases (is_text x.uid uid)) [
          | inl t ↦ elim (Member-cons m) [
            | inl same ↦ (
              f x,
              subst (Member (f x)) (sym (modify_hit x is t)) (here refl),
              k x t ∙ ap (λ (y : PrfItem M). y.uid) (sym same) ∙ e,
            )
            | inr n ↦ (i, subst (Member i) (sym (modify_hit x is t)) (there n), e)
          ]
          | inr t ↦ elim (Member-cons m) [
            | inl same ↦ (
              x,
              subst (Member x) (sym (modify_miss x is t)) (here refl),
              ap (λ (y : PrfItem M). y.uid) (sym same) ∙ e,
            )
            | inr n ↦
                let (j, mem, q) = ih n e in
                (j, subst (Member j) (sym (modify_miss x is t)) (there mem), q)
          ]
        ]

    pub modify-Listed :
        (is : List (PrfItem M)) (c : Option String)
        → Keeps
        → ListedIn is c
        → ListedIn (modify_first f uid is) c
    modify-Listed is none k h = tt
    modify-Listed is (some c) k (i, m, e) = Member-modify is (some c) k i m e

    -- Changing the file of an item to another good one, and not its uid, keeps the list valid.
    pub modify-IsValid :
        (p : IProfiles M)
        → Keeps
        → ((i : PrfItem M) → is_text i.uid uid ≡ true → Named i → Named (f i))
        → IsValid p
        → IsValid (record p { items = some (modify_first f uid (item_list p)) })
    modify-IsValid p k good v = record {
      distinct = modify-DistinctUids (item_list p) k v.distinct;
      named = All-modify Named (item_list p) good v.named;
      listed = modify-Listed (item_list p) p.current k v.listed;
    }

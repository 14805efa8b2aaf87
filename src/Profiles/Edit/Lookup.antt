-- ===== src/Profiles/Edit/Lookup.antt =====
-- What a caller finds in the list of profiles after an operation of profiles.rs.
use clash_verge_cli.Prelude.{
  String, ◌≡◌, refl, sym, ap, ◌∙◌, subst, ◌≢◌, ◌⊎◌, inl, inr, Bool, true, false, Option, none, some,
  List, [], ◌∷◌, arith, ◌==◌, eq_iff, eq_refl, if◌then◌else◌, is_text, is_text_iff, Bool-cases,
  false-ne-true, eq_false_of_ne, any, find, or_else,
}
use clash_verge_cli.Profiles.Item.{PrfExtra, PrfOption, PrfItem, merge_option}
use clash_verge_cli.Profiles.Store.{IProfiles, Disk, item_list, get_item}
use clash_verge_cli.Profiles.Edit.{
  is_bad_file, patched_extra, patched, modify_first, has_item, patch_item,
}
use clash_verge_cli.Profiles.Edit.Kept.{save_then-profiles}
use clash_verge_cli.Profiles.Edit.Valid.{Keeps}

-- The value that an operation on the first profile with `uid` leaves for the profile `other`.
abbrev pub changed_at {ℓ} : {A : Type ℓ} → (A → A) → String → String → Option A → Option A
changed_at f uid other found =
    if uid == other then (elim found [ none ↦ none | some a ↦ some (f a) ]) else found

changed_self {ℓ} :
    {A : Type ℓ} (f : A → A) (uid : String) (a : A) → changed_at f uid uid (some a) ≡ some (f a)
changed_self f uid a = rw (eq_refl uid) refl

changed_none {ℓ} :
    {A : Type ℓ} (f : A → A) (uid other : String) (found : Option A)
    → (found ≡ none) ⊎ (other ≢ uid)
    → changed_at f uid other found ≡ found
changed_none f uid other found (inl e) = elim (Bool-cases (uid == other)) [
  | inl s ↦ rw (s, e, changed_at) refl
  | inr s ↦ rw (s, changed_at) refl
]
changed_none f uid other found (inr ne) =
    rw (eq_false_of_ne uid other (λ s. ne (sym s)), changed_at) refl

is_text_same : (o : Option String) (a b : String) → is_text o a ≡ true → is_text o b ≡ (a == b)
is_text_same o a b h = rw ((is_text_iff o a).0 h) refl

is_text_other :
    (o : Option String) (a b : String) → is_text o a ≡ false → is_text o b ≡ true → (a == b) ≡ false
is_text_other o a b h k = elim (Bool-cases (a == b)) [
  | inr e ↦ e
  | inl e ↦
      absurd (false-ne-true (sym h ∙ subst (λ x. is_text o x ≡ true) (sym ((eq_iff a b).0 e)) k))
]

-- A field after a patch: what the patch gives, or as it was.
abbrev pub IsGiven {ℓ} : {A : Type ℓ} → Option A → Option A → Option A → Type ℓ
IsGiven none old new = new ≡ old
IsGiven (some a) old new = new ≡ some a

given {ℓ} : {A : Type ℓ} (patch old : Option A) → IsGiven patch old (or_else patch old)
given none old = refl
given (some a) old = refl

module _ {M : Type 0} (overlay : M → M → M) where
  -- The options after a patch of options, field by field.
  pub record IsMerged (old patch new : PrfOption M) : Type 0 where
    pub user_agent : IsGiven patch.user_agent old.user_agent new.user_agent
    pub with_proxy : IsGiven patch.with_proxy old.with_proxy new.with_proxy
    pub self_proxy : IsGiven patch.self_proxy old.self_proxy new.self_proxy
    pub update_interval : IsGiven patch.update_interval old.update_interval new.update_interval
    pub timeout_seconds : IsGiven patch.timeout_seconds old.timeout_seconds new.timeout_seconds
    pub danger_accept_invalid_certs :
        IsGiven patch.danger_accept_invalid_certs old.danger_accept_invalid_certs
          new.danger_accept_invalid_certs
    pub allow_auto_update :
        IsGiven patch.allow_auto_update old.allow_auto_update new.allow_auto_update
    pub merge : IsGiven patch.merge old.merge new.merge
    pub script : IsGiven patch.script old.script new.script
    pub rules : IsGiven patch.rules old.rules new.rules
    pub proxies : IsGiven patch.proxies old.proxies new.proxies
    pub groups : IsGiven patch.groups old.groups new.groups
    pub trusted_hosts : IsGiven patch.trusted_hosts old.trusted_hosts new.trusted_hosts
    pub unknown_fields : new.unknown_fields ≡ overlay old.unknown_fields patch.unknown_fields

  abbrev pub IsOption : Option (PrfOption M) → Option (PrfOption M) → Option (PrfOption M) → Type 0
  IsOption none old new = new ≡ old
  IsOption (some patch) none new = new ≡ some patch
  IsOption (some patch) (some old) new =
      (op : PrfOption M) × (new ≡ some op) × IsMerged old patch op

  -- The numbers of a subscription come from the patch, its unknown fields are overlaid.
  abbrev pub IsExtra : Option (PrfExtra M) → Option (PrfExtra M) → Option (PrfExtra M) → Type 0
  IsExtra none old new = new ≡ old
  IsExtra (some patch) none new = new ≡ some patch
  IsExtra (some patch) (some old) new =
      new ≡ some (record patch { unknown_fields = overlay old.unknown_fields patch.unknown_fields })

  pub record IsPatched (old patch new : PrfItem M) : Type 0 where
    pub uid : new.uid ≡ old.uid
    pub itype : IsGiven patch.itype old.itype new.itype
    pub name : IsGiven patch.name old.name new.name
    pub file : IsGiven patch.file old.file new.file
    pub desc : IsGiven patch.desc old.desc new.desc
    pub url : IsGiven patch.url old.url new.url
    pub selected : IsGiven patch.selected old.selected new.selected
    pub extra : IsExtra patch.extra old.extra new.extra
    pub updated : IsGiven patch.updated old.updated new.updated
    pub option : IsOption patch.option old.option new.option
    pub home : new.home ≡ old.home
    pub file_data : new.file_data ≡ old.file_data
    pub unknown_fields : new.unknown_fields ≡ overlay old.unknown_fields patch.unknown_fields

  option_given :
      (patch old : Option (PrfOption M))
      → IsOption patch old
          (elim patch [ none ↦ old | some option ↦ merge_option overlay old (some option) ])
  unfolding merge_option
  option_given none old = refl
  option_given (some patch) none = refl
  option_given (some patch) (some old) = (
    _,
    refl,
    record {
      user_agent = given patch.user_agent old.user_agent;
      with_proxy = given patch.with_proxy old.with_proxy;
      self_proxy = given patch.self_proxy old.self_proxy;
      update_interval = given patch.update_interval old.update_interval;
      timeout_seconds = given patch.timeout_seconds old.timeout_seconds;
      danger_accept_invalid_certs =
          given patch.danger_accept_invalid_certs old.danger_accept_invalid_certs;
      allow_auto_update = given patch.allow_auto_update old.allow_auto_update;
      merge = given patch.merge old.merge;
      script = given patch.script old.script;
      rules = given patch.rules old.rules;
      proxies = given patch.proxies old.proxies;
      groups = given patch.groups old.groups;
      trusted_hosts = given patch.trusted_hosts old.trusted_hosts;
      unknown_fields = refl;
    },
  )

  extra_given :
      (patch old : Option (PrfExtra M))
      → IsExtra patch old
          (elim patch [ none ↦ old | some extra ↦ some (patched_extra overlay old extra) ])
  extra_given none old = refl
  extra_given (some patch) none = refl
  extra_given (some patch) (some old) = refl

  patched-IsPatched : (old patch : PrfItem M) → IsPatched old patch (patched overlay old patch)
  unfolding patched
  patched-IsPatched old patch = record {
    uid = refl;
    itype = given patch.itype old.itype;
    name = given patch.name old.name;
    file = given patch.file old.file;
    desc = given patch.desc old.desc;
    url = given patch.url old.url;
    selected = given patch.selected old.selected;
    extra = extra_given patch.extra old.extra;
    updated = given patch.updated old.updated;
    option = option_given patch.option old.option;
    home = refl;
    file_data = refl;
    unknown_fields = refl;
  }

module _ {M : Type 0} where
  find-modify :
      (f : PrfItem M → PrfItem M) (uid other : String) (is : List (PrfItem M))
      → Keeps f uid
      → find (λ i. is_text i.uid other) (modify_first f uid is)
        ≡ changed_at f uid other (find (λ i. is_text i.uid other) is)
  unfolding modify_first
  find-modify f uid other [] k = ground arith
  find-modify f uid other (i ∷ is) k =
      let ih = find-modify f uid other is k in
      let same : (j : PrfItem M)
          → is_text j.uid uid ≡ true
          → is_text (f j).uid other ≡ (uid == other) =
        λ j e. ap (λ u. is_text u other) (k j e) ∙ is_text_same j.uid uid other e in
      elim (Bool-cases (is_text i.uid uid)) [
        | inl e ↦ elim (Bool-cases (uid == other)) [
          | inl s ↦ rw (e, same i e, is_text_same i.uid uid other e, s, changed_at) refl
          | inr s ↦ rw (e, same i e, is_text_same i.uid uid other e, s, changed_at) refl
        ]
        | inr e ↦ elim (Bool-cases (is_text i.uid other)) [
          | inl s ↦ rw (e, s, is_text_other i.uid uid other e s, changed_at) refl
          | inr s ↦ rw (e, s) ih
        ]
      ]

  find-any : (t : PrfItem M → Bool) (is : List (PrfItem M)) → any t is ≡ false → find t is ≡ none
  find-any t [] h = refl
  find-any t (i ∷ is) h = ground (arith, find-any t is)

  missing :
      (f : PrfItem M → PrfItem M) (p : IProfiles M) (uid other : String)
      → has_item p uid ≡ false
      → changed_at f uid other (get_item p other) ≡ get_item p other
  unfolding get_item
  missing f p uid other h = elim (Bool-cases (uid == other)) [
    | inr s ↦ rw (s, changed_at) refl
    | inl s ↦
        let absent = find-any (λ i. is_text i.uid uid) (item_list p) h in
        rw
          (
            s,
            subst (λ x. find (λ i. is_text i.uid x) (item_list p) ≡ none) ((eq_iff uid other).0 s)
                absent,
            changed_at,
          )
          refl
  ]

  module _ (D : Disk M) where
    open D use {State}

    module _ (overlay : M → M → M) where
      -- Patching changes what is found under the uid, as the patch says, and under no other one, whether or
      -- not the list is saved, if the patch names no file or a single filename.
      pub get_item-patch_item :
          (p : IProfiles M) (uid other : String) (i : PrfItem M) (d : State)
          → is_bad_file i.file ≡ false
          → get_item (patch_item D overlay p uid i d).profiles other
            ≡ changed_at (λ each. patched overlay each i) uid other (get_item p other)
      unfolding patch_item get_item patched
      get_item-patch_item p uid other i d e = elim (Bool-cases (has_item p uid)) [
        | inl h ↦
            rw (e, h, patch_item)
              (ap (λ q. get_item q other) (save_then-profiles D tt _ d)
                ∙ find-modify (λ each. patched overlay each i) uid other (item_list p)
                    (λ j t. refl))
        | inr h ↦
            rw (e, h, patch_item) (sym (missing (λ each. patched overlay each i) p uid other h))
      ]

      -- Patching changes what is found under the uid and under no other one, whether or not the list is
      -- saved, if the patch names no file or a single filename: each field is what the patch gives, or as
      -- it was, the options are patched in the same way, and unknown fields are overlaid.
      pub patch_item-IsPatched :
          (p : IProfiles M) (uid : String) (i : PrfItem M) (d : State)
          → is_bad_file i.file ≡ false
          → ((old : PrfItem M)
              → get_item p uid ≡ some old
              → (new : PrfItem M) × (get_item (patch_item D overlay p uid i d).profiles uid
                  ≡ some new)
                × IsPatched overlay old i new)
            × ((other : String)
                → (get_item p other ≡ none) ⊎ (other ≢ uid)
                → get_item (patch_item D overlay p uid i d).profiles other ≡ get_item p other)
      patch_item-IsPatched p uid i d e =
          let change = λ (each : PrfItem M). patched overlay each i in
          (
            (λ old found. (
              patched overlay old i,
              get_item-patch_item p uid uid i d e
                  ∙ ap (changed_at change uid uid) found
                  ∙ changed_self change uid old,
              patched-IsPatched overlay old i,
            )),
            (λ other h.
                get_item-patch_item p uid other i d e
                ∙ changed_none change uid other (get_item p other) h),
          )

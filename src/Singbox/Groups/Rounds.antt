-- ===== src/Singbox/Groups/Rounds.antt =====
-- The rounds of `convert_profile` in convert.rs that settle which groups are emitted.
use clash_verge_cli.Prelude.{
  String, ◌≡◌, refl, sym, ap, ◌∙◌, subst, inl, inr, Bool, true, false, some, List, [], ◌∷◌, ◌++◌,
  map, arith, ℕ, zero, suc, ◌+◌, ◌≤◌, ◌<◌, Bool-cases, false-ne-true, length, all, keep, contains,
  All, Member, here, there, not-Member-nil, Member-cons, All-Member, All-of_Member,
  Member-append_first, Member-append_second, Member-append_cases, keep-Member, Member-keep,
  contains-Member, Member-contains,
}
use clash_verge_cli.Singbox.Groups.{
  PendingGroup, is_builtin_member, is_alive, survivors, same_set, settle_rounds,
}
use clash_verge_cli.Singbox.Groups.Members.{is_usable, is_alive-usable, is_alive-Member}

abbrev pub Subset : List String → List String → Type 0
Subset xs ys = All (λ x. Member x ys) xs

pub Subset-Member : (xs ys : List String) {x : String} → Subset xs ys → Member x xs → Member x ys
Subset-Member xs ys h m = All-Member (λ x. Member x ys) xs h m

pub map-Member :
    {A B : Type 0} (f : A → B) (xs : List A) {y : B}
    → Member y (map f xs)
    → (x : A) × Member x xs × (y ≡ f x)
map-Member f [] m = absurd (not-Member-nil m)
map-Member f (x ∷ xs) m = elim (Member-cons m) [
  | inl e ↦ (x, here refl, e)
  | inr k ↦ let (z, n, e) = map-Member f xs k in (z, there n, e)
]

pub Member-map :
    {A B : Type 0} (f : A → B) (xs : List A) {x : A} → Member x xs → Member (f x) (map f xs)
Member-map f [] m = absurd (not-Member-nil m)
Member-map f (x ∷ xs) m = elim (Member-cons m) [
  | inl e ↦ here (ap f e)
  | inr k ↦ there (Member-map f xs k)
]

module _ {A : Type 0} (p q : A → Bool) (weaker : (x : A) → p x ≡ true → q x ≡ true) where
  keep-le : (xs : List A) → length (keep p xs) ≤ length (keep q xs)
  keep-le [] = omega arith
  keep-le (x ∷ xs) = ground (arith, keep-le xs, weaker x)

  keep-lt :
      (xs : List A) {a : A}
      → Member a xs
      → p a ≡ false
      → q a ≡ true
      → length (keep p xs) < length (keep q xs)
  keep-lt [] m h k = absurd (not-Member-nil m)
  keep-lt (x ∷ xs) m h k = elim (Member-cons m) [
    | inl e ↦ rw (ap p (sym e) ∙ h, ap q (sym e) ∙ k) (omega (arith, keep-le xs))
    | inr n ↦ let ih = keep-lt xs n h k in ground (arith, weaker x)
  ]

length-keep : {A : Type 0} (p : A → Bool) (xs : List A) → length (keep p xs) ≤ length xs
length-keep p [] = omega arith
length-keep p (x ∷ xs) = ground (arith, length-keep p xs)

all-false :
    {A : Type 0} (p : A → Bool) (xs : List A)
    → all p xs ≡ false
    → (x : A) × Member x xs × (p x ≡ false)
all-false p [] h = cc
all-false p (x ∷ xs) h = elim (Bool-cases (p x)) [
  | inr e ↦ (x, here refl, e)
  | inl e ↦ let (y, m, k) = all-false p xs (rw e at h) in (y, there m, k)
]

pub all-Subset : (xs ys : List String) → Subset xs ys → all (contains ys) xs ≡ true
all-Subset [] ys h = refl
all-Subset (x ∷ xs) ys (m, h) = rw (contains-Member ys x m) (all-Subset xs ys h)

pub Subset-of_all : (xs ys : List String) → all (contains ys) xs ≡ true → Subset xs ys
Subset-of_all [] ys h = tt
Subset-of_all (x ∷ xs) ys h =
    (Member-contains ys x (ground (arith, h)), Subset-of_all xs ys (ground (arith, h)))

module _ (node_tags : List String) (pending : List PendingGroup) where
  is_usable_mono :
      (e d : List String) (x : String)
      → Subset e d
      → is_usable (node_tags ++ e) x ≡ true
      → is_usable (node_tags ++ d) x ≡ true
  is_usable_mono e d x h u = elim (Bool-cases (is_builtin_member x)) [
    | inl b ↦ ground (arith, b)
    | inr b ↦
        let m = Member-contains (node_tags ++ e) x (ground (arith, b, u)) in
        let n : Member x (node_tags ++ d) = elim (Member-append_cases node_tags e m) [
          | inl k ↦ Member-append_first node_tags d k
          | inr k ↦ Member-append_second node_tags d (Subset-Member e d h k)
        ] in
        ground (arith, contains-Member (node_tags ++ d) x n)
  ]

  is_alive_mono :
      (e d : List String) (group : PendingGroup)
      → Subset e d
      → is_alive (node_tags ++ e) group ≡ true
      → is_alive (node_tags ++ d) group ≡ true
  is_alive_mono e d group h a =
      let (x, m, u) = is_alive-Member group (node_tags ++ e) a in
      is_alive-usable group (node_tags ++ d) m (is_usable_mono e d x h u)

  -- The names of one round, and the groups behind them
  pub survivors-Member :
      (e : List String) {name : String}
      → Member name (survivors node_tags pending e)
      → (group : PendingGroup) × Member group pending
        × (name ≡ group.name)
        × (is_alive (node_tags ++ e) group ≡ true)
  unfolding survivors
  survivors-Member e m =
      let (group, k, same) =
        map-Member (λ (g : PendingGroup). g.name) (keep (is_alive (node_tags ++ e)) pending) m in
      let (n, a) = keep-Member (is_alive (node_tags ++ e)) pending k in (group, n, same, a)

  pub Member-survivors :
      (e : List String) {group : PendingGroup}
      → Member group pending
      → is_alive (node_tags ++ e) group ≡ true
      → Member group.name (survivors node_tags pending e)
  unfolding survivors
  Member-survivors e m a =
      Member-map (λ (g : PendingGroup). g.name) (keep (is_alive (node_tags ++ e)) pending)
        (Member-keep (is_alive (node_tags ++ e)) pending m a)

  pub survivors_mono :
      (e d : List String)
      → Subset e d
      → Subset (survivors node_tags pending e) (survivors node_tags pending d)
  survivors_mono e d h = All-of_Member _ (survivors node_tags pending e) λ name m.
      let (group, n, same, a) = survivors-Member e m in
      subst (λ x. Member x (survivors node_tags pending d)) (sym same)
        (Member-survivors d n (is_alive_mono e d group h a))

  abbrev alive_count : List String → ℕ
  alive_count e = length (keep (is_alive (node_tags ++ e)) pending)

  dead_before :
      (e : List String) {group : PendingGroup} {name : String}
      → Member group pending
      → name ≡ group.name
      → contains (survivors node_tags pending e) name ≡ false
      → is_alive (node_tags ++ e) group ≡ false
  dead_before e {group} {name} m same fresh = elim (Bool-cases (is_alive (node_tags ++ e) group)) [
    | inr dead ↦ dead
    | inl alive ↦
        let now = survivors node_tags pending e in
        let listed = subst (λ x. Member x now) (sym same) (Member-survivors e m alive) in
        absurd (false-ne-true (sym fresh ∙ contains-Member now name listed))
  ]

  -- A round that changes the set makes another group alive.
  alive_count-grows :
      (e : List String)
      → Subset e (survivors node_tags pending e)
      → same_set
          (survivors node_tags pending (survivors node_tags pending e))
          (survivors node_tags pending e)
        ≡ false
      → alive_count e < alive_count (survivors node_tags pending e)
  alive_count-grows e h changed =
      let now = survivors node_tags pending e in
      let next = survivors node_tags pending now in
      let old : all (contains next) now ≡ true = all-Subset now next (survivors_mono e now h) in
      let (name, m, fresh) = all-false (contains now) next (ground (arith, old, changed)) in
      let (group, n, same, a) = survivors-Member now m in
      keep-lt (is_alive (node_tags ++ e)) (is_alive (node_tags ++ now))
        (λ g k. is_alive_mono e now g h k) pending n (dead_before e n same fresh) a

  settle_rounds-last :
      (f : ℕ) (e : List String)
      → same_set (survivors node_tags pending e) e ≡ true
      → settle_rounds (suc f) node_tags pending e ≡ some e
  unfolding settle_rounds
  settle_rounds-last f e h = rw h refl

  settle_rounds-more :
      (f : ℕ) (e : List String)
      → same_set (survivors node_tags pending e) e ≡ false
      → settle_rounds (suc f) node_tags pending e
        ≡ settle_rounds f node_tags pending (survivors node_tags pending e)
  unfolding settle_rounds
  settle_rounds-more f e h = rw h refl

  -- What the rounds lead to, with a property that each round keeps
  pub record IsSettled (P : List String → Type 0) (f : ℕ) (first : List String) : Type 0 where
    pub emitted : List String
    pub found : settle_rounds f node_tags pending first ≡ some emitted
    pub settled : same_set (survivors node_tags pending emitted) emitted ≡ true
    pub grown : Subset first emitted
    pub holds : P emitted

  module _ (P : List String → Type 0)
      (kept : (e : List String) → P e → P (survivors node_tags pending e)) where
    pub settle_rounds-IsSettled :
        (f : ℕ) (e : List String)
        → Subset e (survivors node_tags pending e)
        → P (survivors node_tags pending e)
        → length pending < f + alive_count e
        → IsSettled P f (survivors node_tags pending e)
    settle_rounds-IsSettled zero e h p enough =
        absurd (omega (arith, length-keep (is_alive (node_tags ++ e)) pending))
    settle_rounds-IsSettled (suc f) e h p enough =
        let now = survivors node_tags pending e in
        elim (Bool-cases (same_set (survivors node_tags pending now) now)) [
          | inl same ↦ record {
            emitted = now;
            found = settle_rounds-last f now same;
            settled = same;
            grown = All-of_Member _ now (λ x m. m);
            holds = p;
          }
          | inr changed ↦
              let bigger = alive_count-grows e h changed in
              let rest =
                settle_rounds-IsSettled f now (survivors_mono e now h) (kept now p) (omega arith) in
              record {
                emitted = rest.emitted;
                found = settle_rounds-more f now changed ∙ rest.found;
                settled = rest.settled;
                grown = All-of_Member _ now (λ x m.
                    Subset-Member (survivors node_tags pending now) rest.emitted rest.grown (
                      Subset-Member now (survivors node_tags pending now) (survivors_mono e now h)
                        m));
                holds = rest.holds;
              }
        ]

-- ===== src/Singbox/Groups/Members.antt =====
-- Which members `prune_members` of convert.rs leaves a group.
use clash_verge_cli.Prelude.{
  String, ◌≡◌, refl, sym, subst, ◌⊎◌, inl, inr, Bool, true, false, not, ◌&&◌, ◌||◌, List, [], ◌∷◌,
  arith, Bool-cases, any, is_empty, keep, contains, Member, here, there, not-Member-nil,
  Member-cons, Member-append_first, Member-append_cases, Member-append_last, keep-Member,
  Member-contains,
}
use clash_verge_cli.Singbox.Groups.{
  PendingGroup, is_selector, is_builtin_member, is_direct, keep_member, keep_members,
  without_direct, prune_members, is_alive,
}

-- An emitted tag or a builtin policy
abbrev pub is_usable : List String → String → Bool
is_usable allowed member = contains allowed member || is_builtin_member member

refused_iff :
    (allowed : List String) (member : String)
    → (not (contains allowed member) && not (is_builtin_member member))
      ≡ not (is_usable allowed member)
refused_iff allowed member = ground arith

keep_member-usable :
    (allowed kept : List String) (member : String)
    → is_usable allowed member ≡ true
    → Member member (keep_member allowed kept member)
unfolding keep_member
keep_member-usable allowed kept member h =
    rw (refused_iff allowed member, h)
      (elim (Bool-cases (contains kept member)) [
        | inl e ↦ rw e (Member-contains kept member e)
        | inr e ↦ rw e (Member-append_last kept member)
      ])

keep_member-kept :
    (allowed kept : List String) (member : String) {x : String}
    → Member x kept
    → Member x (keep_member allowed kept member)
unfolding keep_member
keep_member-kept allowed kept member m =
    elim (Bool-cases (not (contains allowed member) && not (is_builtin_member member))) [
      | inl r ↦ rw r m
      | inr r ↦ elim (Bool-cases (contains kept member)) [
        | inl e ↦ rw (r, e) m
        | inr e ↦ rw (r, e) (Member-append_first kept (member ∷ []) m)
      ]
    ]

keep_member-cases :
    (allowed kept : List String) (member : String) {x : String}
    → Member x (keep_member allowed kept member)
    → Member x kept ⊎ ((x ≡ member) × (is_usable allowed member ≡ true))
unfolding keep_member
keep_member-cases allowed kept member m = elim (Bool-cases (is_usable allowed member)) [
  | inr u ↦ inl (rw (refused_iff allowed member, u) at m)
  | inl u ↦ elim (Bool-cases (contains kept member)) [
    | inl e ↦ inl (rw (refused_iff allowed member, u, e) at m)
    | inr e ↦
        elim (Member-append_cases kept (member ∷ []) (rw (refused_iff allowed member, u, e) at m)) [
          | inl k ↦ inl k
          | inr k ↦ elim (Member-cons k) [
            | inl same ↦ inr (same, u)
            | inr none_left ↦ absurd (not-Member-nil none_left)
          ]
        ]
  ]
]

pub keep_members-kept :
    (allowed members kept : List String) {x : String}
    → Member x kept
    → Member x (keep_members allowed kept members)
unfolding keep_members
keep_members-kept allowed [] kept m = m
keep_members-kept allowed (member ∷ members) kept m =
    keep_members-kept allowed members (keep_member allowed kept member)
      (keep_member-kept allowed kept member m)

pub keep_members-usable :
    (allowed members kept : List String) {x : String}
    → Member x members
    → is_usable allowed x ≡ true
    → Member x (keep_members allowed kept members)
unfolding keep_members
keep_members-usable allowed [] kept m u = absurd (not-Member-nil m)
keep_members-usable allowed (member ∷ members) kept {x} m u = elim (Member-cons m) [
  | inl same ↦ keep_members-kept allowed members (keep_member allowed kept member) (
      subst (λ y. Member y (keep_member allowed kept member)) (sym same)
        (keep_member-usable allowed kept member (subst (λ y. is_usable allowed y ≡ true) same u)))
  | inr k ↦ keep_members-usable allowed members (keep_member allowed kept member) k u
]

pub keep_members-cases :
    (allowed members kept : List String) {x : String}
    → Member x (keep_members allowed kept members)
    → Member x kept ⊎ (Member x members × (is_usable allowed x ≡ true))
unfolding keep_members
keep_members-cases allowed [] kept m = inl m
keep_members-cases allowed (member ∷ members) kept {x} m =
    elim (keep_members-cases allowed members (keep_member allowed kept member) m) [
      | inr (k, u) ↦ inr (there k, u)
      | inl k ↦ elim (keep_member-cases allowed kept member k) [
        | inl n ↦ inl n
        | inr (same, u) ↦ inr (here same, subst (λ y. is_usable allowed y ≡ true) (sym same) u)
      ]
    ]

-- What is left is a member of the group that can be used.
pub prune_members-usable :
    (group : PendingGroup) (allowed : List String) {x : String}
    → Member x (prune_members group allowed)
    → Member x group.raw_members × (is_usable allowed x ≡ true)
unfolding prune_members without_direct
prune_members-usable group allowed {x} m =
    let kept = keep_members allowed [] group.raw_members in
    let found : Member x kept =
      elim (Bool-cases (is_selector group.kind && any (λ member. not (is_direct member)) kept)) [
        | inl e ↦ (keep-Member (λ member. not (is_direct member)) kept (rw e at m)).0
        | inr e ↦ rw e at m
      ] in
    elim (keep_members-cases allowed group.raw_members [] found) [
      | inl k ↦ absurd (not-Member-nil k)
      | inr k ↦ k
    ]

not-empty-of_Member : {A : Type 0} {x : A} (xs : List A) → Member x xs → is_empty xs ≡ false
not-empty-of_Member [] m = absurd (not-Member-nil m)
not-empty-of_Member (x ∷ xs) m = refl

keep-not_empty :
    (p : String → Bool) (xs : List String) → any p xs ≡ true → is_empty (keep p xs) ≡ false
keep-not_empty p [] h = cc
keep-not_empty p (x ∷ xs) h = elim (Bool-cases (p x)) [
  | inl e ↦ rw e refl
  | inr e ↦ rw e (keep-not_empty p xs (rw e at h))
]

-- A group with a member that can be used is alive.
pub is_alive-usable :
    (group : PendingGroup) (allowed : List String) {x : String}
    → Member x group.raw_members
    → is_usable allowed x ≡ true
    → is_alive allowed group ≡ true
unfolding is_alive prune_members without_direct
is_alive-usable group allowed {x} m u =
    let kept = keep_members allowed [] group.raw_members in
    elim (Bool-cases (is_selector group.kind && any (λ member. not (is_direct member)) kept)) [
      | inl e ↦
          rw (e, keep-not_empty (λ member. not (is_direct member)) kept (ground (arith, e))) refl
      | inr e ↦
          rw (e, not-empty-of_Member kept (keep_members-usable allowed group.raw_members [] m u))
            refl
    ]

head_of : {A : Type 0} (xs : List A) → is_empty xs ≡ false → (x : A) × Member x xs
head_of [] h = cc
head_of (x ∷ xs) h = (x, here refl)

-- An alive group has a member that can be used.
pub is_alive-Member :
    (group : PendingGroup) (allowed : List String)
    → is_alive allowed group ≡ true
    → (x : String) × Member x group.raw_members × (is_usable allowed x ≡ true)
unfolding is_alive
is_alive-Member group allowed h =
    let (x, m) = head_of (prune_members group allowed) (ground (arith, h)) in
    let (k, u) = prune_members-usable group allowed m in (x, k, u)

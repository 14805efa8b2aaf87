-- ===== src/Singbox/Groups/Emitted.antt =====
-- Which groups `convert_profile` of convert.rs emits, and what their members refer to.
use clash_verge_cli.Prelude.{
  String, ◌≡◌, refl, sym, ap, ◌∙◌, subst, ◌↔◌, ◌⊎◌, inl, inr, true, none, some, List, [], ◌++◌,
  arith, suc, Bool-cases, false-ne-true, length, is_empty, bind-eq-some, eq_of_some, All, Member,
  All-Member, All-of_Member, Member-append_first, Member-append_second, Member-append_cases,
  Member-filter_map, filter_map-Member, contains-Member, Member-contains,
}
use clash_verge_cli.Singbox.Groups.{
  PendingGroup, GroupSpec, is_builtin_member, prune_members, is_alive, survivors, same_set,
  emitted_groups, spec_of, emit, Converted, convert_groups,
}
use clash_verge_cli.Singbox.Groups.Members.{
  is_usable, prune_members-usable, is_alive-usable, is_alive-Member,
}
use clash_verge_cli.Singbox.Groups.Rounds.{
  Subset, Subset-Member, Subset-of_all, survivors-Member, Member-survivors, IsSettled,
  settle_rounds-IsSettled,
}

module _ (node_tags : List String) (pending : List PendingGroup) where
  -- A group leads to a node or a policy, at once or through another such group.
  pub data LeadsOut : String → Type 0 where
    at_once :
        {name : String} (group : PendingGroup) (member : String)
        → Member group pending
        → name ≡ group.name
        → Member member group.raw_members
        → is_usable node_tags member ≡ true
        → LeadsOut name
    through :
        {name : String} (group : PendingGroup) (member : String)
        → Member group pending
        → name ≡ group.name
        → Member member group.raw_members
        → LeadsOut member
        → LeadsOut name

  usable_here :
      (e : List String) (x : String)
      → is_usable node_tags x ≡ true
      → is_usable (node_tags ++ e) x ≡ true
  usable_here e x u = elim (Bool-cases (is_builtin_member x)) [
    | inl b ↦ ground (arith, b)
    | inr b ↦
        let m = Member-contains node_tags x (ground (arith, b, u)) in
        ground (arith, contains-Member (node_tags ++ e) x (Member-append_first node_tags e m))
  ]

  usable_listed : (e : List String) (x : String) → Member x e → is_usable (node_tags ++ e) x ≡ true
  usable_listed e x m =
      ground (arith, contains-Member (node_tags ++ e) x (Member-append_second node_tags e m))

  usable-cases :
      (e : List String) (x : String)
      → is_usable (node_tags ++ e) x ≡ true
      → (is_usable node_tags x ≡ true) ⊎ Member x e
  usable-cases e x u = elim (Bool-cases (is_builtin_member x)) [
    | inl b ↦ inl (ground (arith, b))
    | inr b ↦
        elim (Member-append_cases node_tags e
          (Member-contains (node_tags ++ e) x (ground (arith, b, u)))) [
            | inl k ↦ inl (ground (arith, contains-Member node_tags x k))
            | inr k ↦ inr k
          ]
  ]

  survivors-LeadsOut :
      (e : List String) → All LeadsOut e → All LeadsOut (survivors node_tags pending e)
  survivors-LeadsOut e h = All-of_Member LeadsOut (survivors node_tags pending e) λ name m.
      let (group, n, same, a) = survivors-Member node_tags pending e m in
      let (x, k, u) = is_alive-Member group (node_tags ++ e) a in
      elim (usable-cases e x u) [
        | inl here_usable ↦ at_once group x n same k here_usable
        | inr listed ↦ through group x n same k (All-Member LeadsOut e h listed)
      ]

  module _ (e : List String) (closed : Subset (survivors node_tags pending e) e) where
    listed-of_alive :
        {group : PendingGroup} {name : String}
        → Member group pending
        → name ≡ group.name
        → is_alive (node_tags ++ e) group ≡ true
        → Member name e
    listed-of_alive n same a =
        subst (λ x. Member x e) (sym same)
          (Subset-Member (survivors node_tags pending e) e closed
            (Member-survivors node_tags pending e n a))

    LeadsOut-Member : {name : String} → LeadsOut name → Member name e
    LeadsOut-Member (at_once group member n same k u) =
        listed-of_alive n same (is_alive-usable group (node_tags ++ e) k (usable_here e member u))
    LeadsOut-Member (through group member n same k out) =
        listed-of_alive n same
          (is_alive-usable group (node_tags ++ e) k (usable_listed e member (LeadsOut-Member out)))

  IsSettled-groups :
      IsSettled node_tags pending
        (All LeadsOut)
        (suc (length pending))
        (survivors node_tags pending [])
  IsSettled-groups =
      settle_rounds-IsSettled node_tags pending (All LeadsOut) survivors-LeadsOut
        (suc (length pending)) [] tt (survivors-LeadsOut [] tt) (omega arith)

  closed-of_settled :
      (e : List String)
      → same_set (survivors node_tags pending e) e ≡ true
      → Subset (survivors node_tags pending e) e
  closed-of_settled e h = Subset-of_all (survivors node_tags pending e) e (ground (arith, h))

  -- The rounds over the groups end, and emit exactly the groups that lead out: that have a
  -- converted node or a policy among their members, or another group that leads out. Groups that
  -- only refer to each other are not emitted.
  pub emitted_groups_lem :
      (name : String)
      → (emitted : List String) × (emitted_groups node_tags pending ≡ some emitted)
        × (Member name emitted ↔ LeadsOut name)
  unfolding emitted_groups
  emitted_groups_lem name =
      let s = IsSettled-groups in
      (
        s.emitted,
        s.found,
        (
          λ m. All-Member LeadsOut s.emitted s.holds m,
          λ out. LeadsOut-Member s.emitted (closed-of_settled s.emitted s.settled) out,
        ),
      )

  none-ne-some : {spec : GroupSpec} → none ≡ some spec → ⊥
  none-ne-some h = cc

  spec_of-some :
      (allowed : List String) (group : PendingGroup) (spec : GroupSpec)
      → spec_of allowed group ≡ some spec
      → (is_alive allowed group ≡ true)
        × (spec ≡ record {
          name = group.name;
          kind = group.kind;
          members = prune_members group allowed;
        })
  unfolding spec_of is_alive
  spec_of-some allowed group spec h = elim (Bool-cases (is_empty (prune_members group allowed))) [
    | inl e ↦ absurd (none-ne-some (rw e at h))
    | inr e ↦ (rw e refl, sym (eq_of_some (rw e at h)))
  ]

  spec_of-alive :
      (allowed : List String) (group : PendingGroup)
      → is_alive allowed group ≡ true
      → spec_of allowed group
        ≡ some
            (record { name = group.name; kind = group.kind; members = prune_members group allowed })
  unfolding spec_of is_alive
  spec_of-alive allowed group a = elim (Bool-cases (is_empty (prune_members group allowed))) [
    | inl e ↦ absurd (false-ne-true (rw e at a))
    | inr e ↦ rw e refl
  ]

  emitted-Subset :
      (emitted : List String)
      → emitted_groups node_tags pending ≡ some emitted
      → Subset emitted (survivors node_tags pending emitted)
  unfolding emitted_groups
  emitted-Subset emitted found =
      let s = IsSettled-groups in
      subst (λ e. Subset e (survivors node_tags pending e)) (eq_of_some (sym s.found ∙ found))
        (Subset-of_all s.emitted (survivors node_tags pending s.emitted)
          (ground (arith, s.settled)))

  emit-refers :
      (emitted : List String) (spec : GroupSpec) (member : String)
      → emitted_groups node_tags pending ≡ some emitted
      → Member spec (emit (node_tags ++ emitted) pending)
      → Member member spec.members
      → (is_usable node_tags member ≡ true)
        ⊎ ((other : GroupSpec) × Member other (emit (node_tags ++ emitted) pending)
            × (other.name ≡ member))
  unfolding emit
  emit-refers emitted spec member found m k =
      let allowed = node_tags ++ emitted in
      let (group, n, made) = Member-filter_map (spec_of allowed) pending m in
      let (alive, same) = spec_of-some allowed group spec made in
      let (raw, u) =
        prune_members-usable group allowed
          (subst (λ (s : GroupSpec). Member member s.members) same k) in
      elim (usable-cases emitted member u) [
        | inl direct ↦ inl direct
        | inr listed ↦
            let (other, o, name, a) =
              survivors-Member node_tags pending emitted
                (Subset-Member emitted _ (emitted-Subset emitted found) listed) in
            inr (
              _,
              filter_map-Member (spec_of allowed) pending o (spec_of-alive allowed other a),
              sym name,
            )
      ]

  -- Every member of a group that is emitted is a converted node, a policy, or the name of a group
  -- that is emitted too.
  pub convert_groups-refers :
      (declared : List String) (converted : Converted) (spec : GroupSpec) (member : String)
      → convert_groups node_tags declared pending ≡ some converted
      → Member spec converted.groups
      → Member member spec.members
      → (is_usable node_tags member ≡ true)
        ⊎ ((other : GroupSpec) × Member other converted.groups × (other.name ≡ member))
  unfolding convert_groups
  convert_groups-refers declared converted spec member h m k =
      let (emitted, found, made) = bind-eq-some (emitted_groups node_tags pending) _ h in
      let same = ap (λ (c : Converted). c.groups) (eq_of_some made) in
      subst
        (λ groups.
          (is_usable node_tags member ≡ true)
          ⊎ ((other : GroupSpec) × Member other groups × (other.name ≡ member)))
        same (emit-refers emitted spec member found (subst (Member spec) (sym same) m) k)

-- ===== src/Proxies/Rows/Shown.antt =====
-- Which nodes `proxy_display_rows` of app/mod.rs lists, and in which order.
use clash_verge_cli.Prelude.{
  String, ◌≡◌, refl, sym, ap, ◌∙◌, ◌≢◌, ◌↔◌, ◌⊎◌, inl, inr, Bool, true, false, not, ◌||◌, Option,
  none, some, List, [], ◌∷◌, arith, ℕ, ◌≤◌, ◌<◌, ltb, ltb→lt, is_text, is_text_iff, Bool-cases,
  Option-cases, false-ne-true, keep, Text, codes, sort_by, Sorted, sort_by-Member, Member-sort_by,
  sort_by-Sorted, unwrap_or, Member, keep-Member, Member-keep,
}
use clash_verge_cli.Subscribe.Exit.{ProxyGroup}
use clash_verge_cli.Proxies.Rows.{
  ProxySort, config, delay_order, name_order, ProxyListOptions, delay, failed, text_le, name_le,
  delay_key, key_le, delay_le, node_matches, is_shown, sort_nodes, shown_nodes,
}

key_le_total : (j k : ℕ × ℕ) → key_le j k ≡ false → key_le k j ≡ true
key_le_total (a, b) (c, d) h = ground arith

text_le_total : (s t : Text) → text_le s t ≡ false → text_le t s ≡ true
text_le_total [] t h = cc
text_le_total (c ∷ s) [] h = refl
text_le_total (c ∷ s) (d ∷ t) h = ground (arith, text_le_total s t)

-- No element stands next to one that it may not precede.
abbrev pub Ascending : {A : Type 0} → (A → A → Type 0) → List A → Type 0
Ascending R [] = Unit
Ascending R (x ∷ []) = Unit
Ascending R (x ∷ y ∷ ys) = R x y × Ascending R (y ∷ ys)

Ascending-Sorted :
    {A : Type 0} (le : A → A → Bool) (R : A → A → Type 0)
    → ((x y : A) → le x y ≡ true → R x y)
    → (xs : List A) → Sorted le xs
    → Ascending R xs
Ascending-Sorted le R f [] h = tt
Ascending-Sorted le R f (x ∷ []) h = tt
Ascending-Sorted le R f (x ∷ y ∷ ys) (h, k) = (f x y h, Ascending-Sorted le R f (y ∷ ys) k)

-- Measured nodes stand by their delay, before the untested ones, and these before the failed ones.
abbrev pub NotSlower : Option (Option ℕ) → Option (Option ℕ) → Type 0
NotSlower (some (some a)) (some (some b)) = a ≤ b
NotSlower (some (some a)) none = Unit
NotSlower (some (some a)) (some none) = Unit
NotSlower none (some (some b)) = ⊥
NotSlower none none = Unit
NotSlower none (some none) = Unit
NotSlower (some none) (some (some b)) = ⊥
NotSlower (some none) none = ⊥
NotSlower (some none) (some none) = Unit

key_le-NotSlower :
    (a b : Option (Option ℕ)) → key_le (delay_key a) (delay_key b) ≡ true → NotSlower a b
key_le-NotSlower (some (some a)) (some (some b)) h = ground (arith, h)
key_le-NotSlower (some (some a)) none h = tt
key_le-NotSlower (some (some a)) (some none) h = tt
key_le-NotSlower none (some (some b)) h = false-ne-true h
key_le-NotSlower none none h = tt
key_le-NotSlower none (some none) h = tt
key_le-NotSlower (some none) (some (some b)) h = false-ne-true h
key_le-NotSlower (some none) none h = false-ne-true h
key_le-NotSlower (some none) (some none) h = tt

-- The order of texts: one begins the other, or the first difference decides.
abbrev pub NotAfter : Text → Text → Type 0
NotAfter [] t = Unit
NotAfter (c ∷ s) [] = ⊥
NotAfter (c ∷ s) (d ∷ t) = (c < d) ⊎ ((c ≡ d) × NotAfter s t)

text_le-NotAfter : (s t : Text) → text_le s t ≡ true → NotAfter s t
text_le-NotAfter [] t h = tt
text_le-NotAfter (c ∷ s) [] h = false-ne-true h
text_le-NotAfter (c ∷ s) (d ∷ t) h = elim (Bool-cases (ltb c d)) [
  | inl e ↦ inl (ltb→lt c d e)
  | inr e ↦ inr (ground (arith, h, e), text_le-NotAfter s t (ground (arith, h, e)))
]

module _ (to_lowercase : Text → Text) (options : ProxyListOptions) (expanded : String)
    (group : ProxyGroup) where
  -- A node of the group that matches the filter and is not hidden
  pub record IsShown (node : String) : Type 0 where
    pub listed : Member node (unwrap_or [] group.all_nodes)
    pub matching : node_matches to_lowercase options expanded node ≡ true
    pub visible :
        (options.hide_failed ≡ false) ⊎ ((group.now ≡ some node) ⊎ (delay options node ≢ some none))

  abbrev pub IsOrdered : ProxySort → List String → Type 0
  IsOrdered config nodes =
      nodes ≡ keep (is_shown to_lowercase options expanded group) (unwrap_or [] group.all_nodes)
  IsOrdered name_order nodes = Ascending (λ a b. NotAfter (codes a) (codes b)) nodes
  IsOrdered delay_order nodes =
      Ascending (λ a b. NotSlower (delay options a) (delay options b)) nodes

  has_not_failed : (node : String) → failed options node ≡ false → delay options node ≢ some none
  unfolding failed
  has_not_failed node h e = false-ne-true (sym h ∙ rw (e, failed) refl)

  not_failed : (node : String) → delay options node ≢ some none → failed options node ≡ false
  unfolding failed
  not_failed node h = elim (Option-cases (delay options node)) [
    | inl e ↦ rw (e, failed) refl
    | inr (measured, e) ↦ elim (Option-cases measured) [
      | inl f ↦ absurd (h (e ∙ ap some f))
      | inr (d, f) ↦ rw (e, f, failed) refl
    ]
  ]

  visible-cases :
      (node : String)
      → (not options.hide_failed || (is_text group.now node || not (failed options node))) ≡ true
      → (options.hide_failed ≡ false) ⊎ ((group.now ≡ some node) ⊎ (delay options node ≢ some none))
  visible-cases node h = elim (Bool-cases options.hide_failed) [
    | inr shown ↦ inl shown
    | inl hidden ↦ elim (Bool-cases (is_text group.now node)) [
      | inl now ↦ inr (inl ((is_text_iff group.now node).0 now))
      | inr other ↦ inr (inr (has_not_failed node (ground (arith, h, hidden, other))))
    ]
  ]

  visible-of_cases :
      (node : String)
      → (options.hide_failed ≡ false) ⊎ ((group.now ≡ some node) ⊎ (delay options node ≢ some none))
      → (not options.hide_failed || (is_text group.now node || not (failed options node))) ≡ true
  visible-of_cases node (inl shown) = ground (arith, shown)
  visible-of_cases node (inr (inl now)) = ground (arith, (is_text_iff group.now node).1 now)
  visible-of_cases node (inr (inr passed)) = ground (arith, not_failed node passed)

  sort_nodes-Member :
      (sort : ProxySort) (nodes : List String) {node : String}
      → Member node (sort_nodes to_lowercase options sort nodes)
      → Member node nodes
  unfolding sort_nodes
  sort_nodes-Member config nodes m = m
  sort_nodes-Member name_order nodes m = sort_by-Member name_le nodes m
  sort_nodes-Member delay_order nodes m = sort_by-Member (delay_le options) nodes m

  Member-sort_nodes :
      (sort : ProxySort) (nodes : List String) {node : String}
      → Member node nodes
      → Member node (sort_nodes to_lowercase options sort nodes)
  unfolding sort_nodes
  Member-sort_nodes config nodes m = m
  Member-sort_nodes name_order nodes m = Member-sort_by name_le nodes m
  Member-sort_nodes delay_order nodes m = Member-sort_by (delay_le options) nodes m

  sort_nodes-IsOrdered :
      (sort : ProxySort)
      → IsOrdered sort (
          sort_nodes to_lowercase options sort
            (keep (is_shown to_lowercase options expanded group) (unwrap_or [] group.all_nodes)))
  unfolding sort_nodes
  sort_nodes-IsOrdered config = refl
  sort_nodes-IsOrdered name_order =
      let kept =
        keep (is_shown to_lowercase options expanded group) (unwrap_or [] group.all_nodes) in
      Ascending-Sorted name_le (λ a b. NotAfter (codes a) (codes b))
        (λ a b. text_le-NotAfter (codes a) (codes b)) (sort_by name_le kept)
        (sort_by-Sorted name_le (λ s t h. text_le_total (codes s) (codes t) h) kept)
  sort_nodes-IsOrdered delay_order =
      let kept =
        keep (is_shown to_lowercase options expanded group) (unwrap_or [] group.all_nodes) in
      Ascending-Sorted (delay_le options) (λ a b. NotSlower (delay options a) (delay options b))
        (λ a b. key_le-NotSlower (delay options a) (delay options b))
        (sort_by (delay_le options) kept)
        (sort_by-Sorted (delay_le options)
          (λ a b h. key_le_total (delay_key (delay options a)) (delay_key (delay options b)) h)
          kept)

  -- The nodes that are listed for a group are its nodes that match the filter and, if failed
  -- nodes are hidden, are selected or have not failed; they stand in the order of the profile, by
  -- name, or by the delay with the untested ones and then the failed ones last, as the options
  -- say.
  pub shown_nodes_lem :
      (node : String)
      → (Member node (shown_nodes to_lowercase options expanded group) ↔ IsShown node)
        × IsOrdered options.sort (shown_nodes to_lowercase options expanded group)
  unfolding shown_nodes is_shown
  shown_nodes_lem node =
      let nodes = unwrap_or [] group.all_nodes in
      let shown = is_shown to_lowercase options expanded group in
      let kept = keep shown nodes in
      (
        (
          λ m.
              let (n, t) = keep-Member shown nodes (sort_nodes-Member options.sort kept m) in
              record {
                listed = n;
                matching = ground (arith, t);
                visible = visible-cases node (ground (arith, t));
              },
          λ h. Member-sort_nodes options.sort kept (
              Member-keep shown nodes h.listed
                (ground (arith, h.matching, visible-of_cases node h.visible))),
        ),
        sort_nodes-IsOrdered options.sort,
      )

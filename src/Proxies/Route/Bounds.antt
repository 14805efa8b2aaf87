-- ===== src/Proxies/Route/Bounds.antt =====
-- The chain of `outbound_chain` in app/mod.rs is short, does not repeat a name, and follows the
-- selections; its loop ends.
use clash_verge_cli.Prelude.{
  String, ◌≡◌, refl, sym, ◌∙◌, subst, ◌≢◌, inl, inr, false, not, ◌||◌, none, some, List, [], ◌∷◌,
  ◌++◌, arith, ◌==◌, eq_iff, ℕ, zero, suc, ◌≤◌, ltb, if◌then◌else◌, Bool-cases, Option-cases,
  false-ne-true, length, length-append, contains, codes, eq_ignore_ascii_case, ◌>>=◌, All,
  All-append,
}
use clash_verge_cli.Subscribe.Exit.{Groups}
use clash_verge_cli.Proxies.{is_group}
use clash_verge_cli.Proxies.Route.{last_of, selection, extend, start_of, outbound_chain}

-- Each name of the list stands once.
abbrev pub Distinct : List String → Type 0
Distinct [] = Unit
Distinct (x ∷ xs) = All (λ y. y ≢ x) xs × Distinct xs

-- Each name but the first is what the one before has selected.
abbrev pub Linked : Groups → List String → Type 0
Linked groups [] = Unit
Linked groups (x ∷ []) = Unit
Linked groups (x ∷ y ∷ xs) = (selection groups x ≡ some y) × Linked groups (y ∷ xs)

pub record IsRoute (groups : Groups) (chain : List String) : Type 0 where
  pub short : length chain ≤ 8
  pub distinct : Distinct chain
  pub linked : Linked groups chain

Distinct-append :
    (xs : List String) (y : String) → Distinct xs → contains xs y ≡ false → Distinct (xs ++ y ∷ [])
Distinct-append [] y h k = (tt, tt)
Distinct-append (x ∷ xs) y (first, h) k = (
  All-append (λ z. z ≢ x) xs (y ∷ []) first ((λ e. ne_of_test x y (ground (arith, k)) (sym e)), tt),
  Distinct-append xs y h (ground (arith, k)),
)
  where
    ne_of_test : (s t : String) → (s == t) ≡ false → s ≢ t
    ne_of_test s t h e = false-ne-true (sym h ∙ (eq_iff s t).1 e)

Linked-append :
    (groups : Groups) (xs : List String) (y : String)
    → Linked groups xs
    → (last_of xs >>= selection groups) ≡ some y
    → Linked groups (xs ++ y ∷ [])
Linked-append groups [] y h k = tt
Linked-append groups (x ∷ []) y h k = (k, tt)
Linked-append groups (x ∷ z ∷ xs) y (e, h) k = (e, Linked-append groups (z ∷ xs) y h k)

module _ (groups : Groups) where
  add-IsRoute :
      (chain : List String) (next : String)
      → IsRoute groups chain
      → (last_of chain >>= selection groups) ≡ some next
      → (not (ltb (length chain) 8) || contains chain next) ≡ false
      → IsRoute groups (chain ++ next ∷ [])
  add-IsRoute chain next r e h = record {
    short = ground (arith, h, length-append chain (next ∷ []));
    distinct = Distinct-append chain next r.distinct (ground (arith, h));
    linked = Linked-append groups chain next r.linked e;
  }

  single-IsRoute : (name : String) → IsRoute groups (name ∷ [])
  single-IsRoute name = record { short = omega arith; distinct = (tt, tt); linked = tt }

  pub extend-none :
      (f : ℕ) (chain : List String)
      → (last_of chain >>= selection groups) ≡ none
      → extend (suc f) groups chain ≡ chain
  unfolding extend
  extend-none f chain e = rw (e, extend) refl

  pub extend-some :
      (f : ℕ) (chain : List String) (next : String)
      → (last_of chain >>= selection groups) ≡ some next
      → extend (suc f) groups chain ≡ (
          if not (ltb (length chain) 8) || contains chain next
          then chain
          else if not (is_group groups next)
          then chain ++ next ∷ []
          else extend f groups (chain ++ next ∷ []))
  unfolding extend
  extend-some f chain next e = rw (e, extend) refl

  extend-zero-IsRoute :
      (chain : List String) → IsRoute groups chain → IsRoute groups (extend zero groups chain)
  unfolding extend
  extend-zero-IsRoute chain r = r

  extend-IsRoute :
      (f : ℕ) (chain : List String) → IsRoute groups chain → IsRoute groups (extend f groups chain)
  extend-IsRoute zero chain r = extend-zero-IsRoute chain r
  extend-IsRoute (suc f) chain r = elim (Option-cases (last_of chain >>= selection groups)) [
    | inl e ↦ subst (IsRoute groups) (sym (extend-none f chain e)) r
    | inr (next, e) ↦
        subst (IsRoute groups) (sym (extend-some f chain next e))
          (elim (Bool-cases (not (ltb (length chain) 8) || contains chain next)) [
            | inl full ↦ rw full r
            | inr open_end ↦
                let longer = add-IsRoute chain next r e open_end in
                elim (Bool-cases (not (is_group groups next))) [
                  | inl node ↦ rw (open_end, node) longer
                  | inr group ↦ rw (open_end, group) (extend-IsRoute f (chain ++ next ∷ []) longer)
                ]
          ])
  ]

  pub outbound_chain-IsRoute : (mode : String) → IsRoute groups (outbound_chain groups mode)
  unfolding outbound_chain
  outbound_chain-IsRoute mode =
      elim (Bool-cases (eq_ignore_ascii_case (codes mode) (codes "direct"))) [
        | inl e ↦ rw e (single-IsRoute "DIRECT")
        | inr e ↦ elim (Option-cases (start_of groups mode)) [
          | inl missing ↦
              rw (e, missing, outbound_chain)
                (record { short = omega arith; distinct = tt; linked = tt })
          | inr (start, found) ↦
              rw (e, found, outbound_chain) (extend-IsRoute 8 (start ∷ []) (single-IsRoute start))
        ]
      ]

-- ===== src/Chain/Applied.antt =====
-- What a rule fragment of chain.rs does to a configuration.
use clash_verge_cli.Prelude.{
  String, ◌≡◌, refl, sym, ap, ◌∙◌, subst, ◌≢◌, ◌⊎◌, inl, inr, Bool, true, false, not, Option, none,
  some, List, [], ◌++◌, map, false-ne-true, not-false, keep, contains, IsFiltered, keep-IsFiltered,
  ◌>>=◌, unwrap_or, eq_of_some, Member, contains-Member, Member-contains,
}
use clash_verge_cli.Yaml.{Kind, null, bool, number, string, sequence, mapping, tagged, Yaml}
use clash_verge_cli.Yaml.Access.{sequence_of, string_of, match_sequence}
use clash_verge_cli.Chain.{
  RulesFragment, patch, whole_list, upstream, is_deleted, new_rules, apply_rules_fragment,
}

module _ (Y : Yaml) where
  open Y use {
    Value, Mapping, kind, of_string, of_sequence, get, insert, get-insert_self, get-insert_ne,
  }

  -- No text that the entry spells is in the list.
  abbrev pub IsSpared : List String → Value → Type 0
  IsSpared delete v = (rule : String) → kind v ≡ string rule → ¬ (Member rule delete)

  -- What a fragment makes of the old rules.
  abbrev pub IsChanged : RulesFragment → List Value → List Value → Type 0
  IsChanged (whole_list rules) old new = new ≡ map of_string rules
  IsChanged (patch prepend append delete) old new =
      (left : List Value) × IsFiltered (IsSpared delete) old left
      × (new ≡ map of_string prepend ++ (left ++ map of_string append))

  -- The rules of a configuration, none if there are none or they are no sequence.
  abbrev pub HasRules : Mapping → List Value → Type 0
  HasRules config old =
      ((v : Value) × (get (of_string "rules") config ≡ some v) × (kind v ≡ sequence old))
      ⊎ (((v : Value) (vs : List Value)
            → get (of_string "rules") config ≡ some v
            → ¬ (kind v ≡ sequence vs))
          × (old ≡ []))

  sequence_of_rules :
      (o : Option Value)
      → ((v : Value) × (o ≡ some v) × (kind v ≡ sequence (unwrap_or [] (o >>= match_sequence Y))))
        ⊎ (((v : Value) (vs : List Value) → o ≡ some v → ¬ (kind v ≡ sequence vs))
            × (unwrap_or [] (o >>= match_sequence Y) ≡ []))
  sequence_of_rules none = inr ((λ v vs h. cc), refl)
  sequence_of_rules (some v) = elim (sequence-cases (kind v)) [
    | inl (vs, e) ↦
        inl (v, refl, e ∙ ap sequence (sym (ap (λ k. unwrap_or [] (sequence_of Y k)) e)))
    | inr (none_of, e) ↦
        inr ((λ w vs h k. none_of vs (ap kind (eq_of_some h) ∙ k)), ap (unwrap_or []) e)
  ]
    where
      sequence-cases :
          (k : Kind Value Mapping)
          → ((vs : List Value) × (k ≡ sequence vs))
            ⊎ (((vs : List Value) → ¬ (k ≡ sequence vs)) × (sequence_of Y k ≡ none))
      sequence-cases (sequence vs) = inl (vs, refl)
      sequence-cases null = inr ((λ vs h. cc), refl)
      sequence-cases (bool b) = inr ((λ vs h. cc), refl)
      sequence-cases number = inr ((λ vs h. cc), refl)
      sequence-cases (string t) = inr ((λ vs h. cc), refl)
      sequence-cases (mapping m) = inr ((λ vs h. cc), refl)
      sequence-cases tagged = inr ((λ vs h. cc), refl)

  not-true : (b : Bool) → not b ≡ true → b ≡ false
  not-true true h = cc
  not-true false h = refl

  spared_text :
      (delete : List String) (k : Kind Value Mapping) (rule : String)
      → (elim (string_of Y k) [ none ↦ false | some text ↦ contains delete text ]) ≡ false
      → k ≡ string rule
      → ¬ (Member rule delete)
  spared_text delete k rule h e m = false-ne-true (
      sym (
        subst
          (λ k. (elim (string_of Y k) [ none ↦ false | some text ↦ contains delete text ]) ≡ false)
          e h)
      ∙ contains-Member delete rule m)

  deleted_text :
      (delete : List String) (k : Kind Value Mapping)
      → (elim (string_of Y k) [ none ↦ false | some text ↦ contains delete text ]) ≡ true
      → (rule : String) × (k ≡ string rule) × Member rule delete
  deleted_text delete (string rule) h = (rule, refl, Member-contains delete rule h)
  deleted_text delete (sequence vs) h = cc
  deleted_text delete null h = cc
  deleted_text delete (bool b) h = cc
  deleted_text delete number h = cc
  deleted_text delete (mapping m) h = cc
  deleted_text delete tagged h = cc

  kept_rules :
      (delete : List String) (old : List Value)
      → IsFiltered (IsSpared delete) old (keep (λ entry. not (is_deleted Y delete entry)) old)
  kept_rules delete old =
      keep-IsFiltered (IsSpared delete) (λ entry. not (is_deleted Y delete entry))
        (λ v h rule. spared_text delete (kind v) rule (not-true (is_deleted Y delete v) h))
        (λ v h spared.
          let (rule, e, m) = deleted_text delete (kind v) (not-false (is_deleted Y delete v) h) in
          spared rule e m)
        old

  new_rules-IsChanged :
      (old : List Value) (fragment : RulesFragment)
      → IsChanged fragment old (new_rules Y old fragment)
  unfolding new_rules
  new_rules-IsChanged old (whole_list rules) = refl
  new_rules-IsChanged old (patch prepend append delete) = (_, kept_rules delete old, refl)

  -- After a fragment the rules are its own if it replaces the list, else the added ones around the old
  -- ones in their order, without those whose exact text it deletes: an old rule that is no text is never
  -- deleted. Every other key of the configuration keeps its value.
  pub apply_rules_fragment_lem :
      (config : Mapping) (fragment : RulesFragment) (j : Value)
      → of_string "rules" ≢ j
      → ((old : List Value) × (new : List Value) × HasRules config old
          × IsChanged fragment old new
          × (get (of_string "rules") (apply_rules_fragment Y config fragment)
              ≡ some (of_sequence new)))
        × (get j (apply_rules_fragment Y config fragment) ≡ get j config)
  unfolding apply_rules_fragment
  apply_rules_fragment_lem config fragment j ne = (
    (
      upstream Y config,
      new_rules Y (upstream Y config) fragment,
      sequence_of_rules (get (of_string "rules") config),
      new_rules-IsChanged (upstream Y config) fragment,
      get-insert_self (of_string "rules") _ config,
    ),
    get-insert_ne (of_string "rules") j _ config ne,
  )

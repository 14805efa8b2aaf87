-- ===== src/Chain/Accepted.antt =====
-- Which rule fragments chain.rs accepts.
use clash_verge_cli.Prelude.{
  String, ◌≡◌, refl, ◌↔◌, true, not, some, List, [], ◌∷◌, arith, bail_if, bind-eq-some,
  bail_if-eq-some, All,
}
use clash_verge_cli.Yaml.{Kind, sequence, mapping, Yaml}
use clash_verge_cli.Yaml.Access.{as_str, match_sequence, match_string}
use clash_verge_cli.Chain.{
  RulesFragment, patch, whole_list, is_mapping_key, choose, parse_sequence_of_strings,
  parse_string_array, parse_entries, parse_kind, parse_rules_fragment,
}

module _ (Y : Yaml) where
  open Y use {Value, Mapping, kind, entries}

  abbrev pub IsText : Value → Type 0
  IsText v = (s : String) × (match_string Y v ≡ some s)

  abbrev pub IsTextList : Value → Type 0
  IsTextList v = (vs : List Value) × (match_sequence Y v ≡ some vs) × All IsText vs

  -- The key is one of the three, and the value is a list of texts.
  abbrev pub IsFragmentEntry : Value × Value → Type 0
  IsFragmentEntry (key, val) =
      ((name : String) × (as_str Y key ≡ some name) × (is_mapping_key name ≡ true)) × IsTextList val

  abbrev pub IsFragment : Kind Value Mapping → Type 0
  IsFragment (mapping m) = All IsFragmentEntry (entries m)
  IsFragment (sequence vs) = All IsText vs
  IsFragment _ = ⊥

  texts_parsed :
      (vs : List Value) (out : List String)
      → parse_sequence_of_strings Y vs ≡ some out
      → All IsText vs
  unfolding parse_sequence_of_strings
  texts_parsed [] out h = tt
  texts_parsed (v ∷ vs) out h =
      let (s, e, k) = bind-eq-some (match_string Y v) _ h in
      let (rest, f, l) = bind-eq-some (parse_sequence_of_strings Y vs) _ k in
      ((s, e), texts_parsed vs rest f)

  texts_parse :
      (vs : List Value)
      → All IsText vs
      → (out : List String) × (parse_sequence_of_strings Y vs ≡ some out)
  unfolding parse_sequence_of_strings
  texts_parse [] h = ([], refl)
  texts_parse (v ∷ vs) ((s, e), h) = let (out, f) = texts_parse vs h in (s ∷ out, rw (e, f) refl)

  array_parsed : (v : Value) (out : List String) → parse_string_array Y v ≡ some out → IsTextList v
  unfolding parse_string_array
  array_parsed v out h =
      let (vs, e, k) = bind-eq-some (match_sequence Y v) _ h in (vs, e, texts_parsed vs out k)

  array_parse :
      (v : Value) → IsTextList v → (out : List String) × (parse_string_array Y v ≡ some out)
  unfolding parse_string_array
  array_parse v (vs, e, h) = let (out, f) = texts_parse vs h in (out, rw e f)

  entries_parsed :
      (es : List (Value × Value)) (p a d : List String) (fragment : RulesFragment)
      → parse_entries Y es p a d ≡ some fragment
      → All IsFragmentEntry es
  unfolding parse_entries
  entries_parsed [] p a d fragment h = tt
  entries_parsed ((key, val) ∷ es) p a d fragment h =
      let (name, e, k) = bind-eq-some (as_str Y key) _ h in
      let (u, g, l) = bind-eq-some (bail_if (not (is_mapping_key name))) _ k in
      let (list, f, m) = bind-eq-some (parse_string_array Y val) _ l in
      (
        (
          (name, e, ground (arith, bail_if-eq-some (not (is_mapping_key name)) g)),
          array_parsed val list f,
        ),
        entries_parsed es _ _ _ fragment m,
      )

  entries_parse :
      (es : List (Value × Value)) (p a d : List String)
      → All IsFragmentEntry es
      → (fragment : RulesFragment) × (parse_entries Y es p a d ≡ some fragment)
  unfolding parse_entries
  entries_parse [] p a d h = (patch p a d, refl)
  entries_parse ((key, val) ∷ es) p a d (((name, e, n), list), h) =
      let (out, f) = array_parse val list in
      let (fragment, g) =
        entries_parse es (choose "prepend" name out p) (choose "append" name out a)
          (choose "delete" name out d) h in
      (fragment, rw (e, n, f) g)

  kind_parsed :
      (k : Kind Value Mapping) (fragment : RulesFragment)
      → parse_kind Y k ≡ some fragment
      → IsFragment k
  unfolding parse_kind
  kind_parsed (mapping m) fragment h = entries_parsed (entries m) [] [] [] fragment h
  kind_parsed (sequence vs) fragment h =
      let (out, e, k) = bind-eq-some (parse_sequence_of_strings Y vs) _ h in texts_parsed vs out e
  kind_parsed _ fragment h = cc

  kind_parse :
      (k : Kind Value Mapping)
      → IsFragment k
      → (fragment : RulesFragment) × (parse_kind Y k ≡ some fragment)
  unfolding parse_kind
  kind_parse (mapping m) h = entries_parse (entries m) [] [] [] h
  kind_parse (sequence vs) h = let (out, e) = texts_parse vs h in (whole_list out, rw e refl)
  kind_parse _ h = absurd h

  -- A rule fragment is accepted exactly if it is a list of texts, or a mapping whose keys are among
  -- prepend, append and delete and whose values are lists of texts.
  pub parse_rules_fragment_iff :
      (v : Value)
      → ((fragment : RulesFragment) × (parse_rules_fragment Y v ≡ some fragment))
        ↔ IsFragment (kind v)
  unfolding parse_rules_fragment
  parse_rules_fragment_iff v =
      ((λ (fragment, h). kind_parsed (kind v) fragment h), λ h. kind_parse (kind v) h)

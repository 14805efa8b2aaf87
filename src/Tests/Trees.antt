-- ===== src/Tests/Trees.antt =====
-- An implementation of the YAML interface: trees, where a mapping is a chain of entries and the first
-- entry of a key counts. And the overlay of mappings on it.
use clash_verge_cli.Prelude.{
  String, ◌≡◌, refl, sym, ap, ap₂, ◌∙◌, subst, ◌≢◌, ◌↔◌, inl, inr, ite, if_pos, if_neg, Bool, true,
  false, Option, none, some, List, [], ◌∷◌, arith, ◌==◌, eq_iff, ℕ, suc, ◌+◌, ◌<◌, Bool-cases,
  false-ne-true, keep, eq_of_some, All, Member, here, there, not-Member-nil, Member-cons,
  All-Member, All-of_Member, Member-keep,
}
use clash_verge_cli.Yaml.{Kind, null, number, string, sequence, mapping, tagged, DistinctKeys, Yaml}

pub data Tree : Type 0 where
  none_such : Tree
  leaf : String → Tree
  items : Tree → Tree
  table : Tree → Tree
  nil : Tree
  cons : Tree → Tree → Tree → Tree

string_discrete : Discrete String
string_discrete a b = elim (Bool-cases (a == b)) [
  | inl e ↦ yes ((eq_iff a b).0 e)
  | inr e ↦ no (λ p. false-ne-true (sym e ∙ (eq_iff a b).1 p))
]

pub same_tree : Discrete Tree
same_tree = hlevel (string_discrete)

abbrev elements : Tree → List Tree
elements (cons k v rest) = v ∷ elements rest
elements _ = []

abbrev chain : List Tree → Tree
chain [] = nil
chain (v ∷ vs) = cons nil v (chain vs)

pub elements-chain : (vs : List Tree) → elements (chain vs) ≡ vs
elements-chain [] = refl
elements-chain (v ∷ vs) = ap (λ r. v ∷ r) (elements-chain vs)

abbrev tree_kind : Tree → Kind Tree Tree
tree_kind none_such = null
tree_kind (leaf s) = string s
tree_kind (items c) = sequence (elements c)
tree_kind (table c) = mapping c
tree_kind nil = number
tree_kind (cons k v rest) = tagged

abbrev get_tree : Tree → Tree → Option Tree
get_tree j (cons k v rest) = ite (same_tree k j) (some v) (get_tree j rest)
get_tree j _ = none

abbrev differs : Tree → Tree × Tree → Bool
differs k (j, v) = ite (same_tree k j) false true

abbrev remove_tree : Tree → Tree → Tree
remove_tree j (cons k v rest) =
    ite (same_tree k j) (remove_tree j rest) (cons k v (remove_tree j rest))
remove_tree j m = nil

abbrev entries_tree : Tree → List (Tree × Tree)
entries_tree (cons k v rest) = (k, v) ∷ keep (differs k) (entries_tree rest)
entries_tree _ = []

abbrev size : Tree → ℕ
size none_such = 1
size (leaf s) = 1
size (items c) = suc (size c)
size (table c) = suc (size c)
size nil = 1
size (cons k v rest) = suc (size k + size v + size rest)

pub get_hit : (k j v rest : Tree) → k ≡ j → get_tree j (cons k v rest) ≡ some v
get_hit k j v rest e = rw (if_pos (same_tree k j) e) refl

pub get_miss : (k j v rest : Tree) → k ≢ j → get_tree j (cons k v rest) ≡ get_tree j rest
get_miss k j v rest e = rw (if_neg (same_tree k j) e) refl

pub remove_same : (j m : Tree) → get_tree j (remove_tree j m) ≡ none
remove_same j (cons k v rest) = elim (same_tree k j) [
  | yes e ↦ rw (if_pos (same_tree k j) e) (remove_same j rest)
  | no e ↦
      rw (if_neg (same_tree k j) e) (get_miss k j v (remove_tree j rest) e ∙ remove_same j rest)
]
remove_same j none_such = refl
remove_same j (leaf s) = refl
remove_same j (items c) = refl
remove_same j (table c) = refl
remove_same j nil = refl

pub remove_other : (i j m : Tree) → i ≢ j → get_tree j (remove_tree i m) ≡ get_tree j m
remove_other i j (cons k v rest) n = elim (same_tree k i) [
  | yes e ↦
      rw (if_pos (same_tree k i) e)
        (remove_other i j rest n ∙ sym (get_miss k j v rest (λ p. n (sym e ∙ p))))
  | no e ↦ rw (if_neg (same_tree k i) e) (elim (same_tree k j) [
    | yes p ↦ get_hit k j v (remove_tree i rest) p ∙ sym (get_hit k j v rest p)
    | no p ↦
        get_miss k j v (remove_tree i rest) p
        ∙ remove_other i j rest n
        ∙ sym (get_miss k j v rest p)
  ])
]
remove_other i j none_such n = refl
remove_other i j (leaf s) n = refl
remove_other i j (items c) n = refl
remove_other i j (table c) n = refl
remove_other i j nil n = refl

differs_iff : (k j v : Tree) → (differs k (j, v) ≡ true) ↔ (j ≢ k)
differs_iff k j v = elim (same_tree k j) [
  | yes e ↦ (
    rw (if_pos (same_tree k j) e) (λ h. cc),
    rw (if_pos (same_tree k j) e) (λ n. absurd (n (sym e))),
  )
  | no e ↦ ((λ h p. e (sym p)), λ n. rw (if_neg (same_tree k j) e) refl)
]

Member-of_keep :
    (k : Tree) (es : List (Tree × Tree)) (e : Tree × Tree)
    → Member e (keep (differs k) es)
    → Member e es × (e.0 ≢ k)
Member-of_keep k [] e m = absurd (not-Member-nil m)
Member-of_keep k (x ∷ es) e m =
    let ih = Member-of_keep k es e in
    elim (Bool-cases (differs k x)) [
      | inl h ↦ elim (Member-cons (rw h at m)) [
        | inl same ↦ (
          here same,
          subst (λ (y : Tree × Tree). y.0 ≢ k) (sym same) ((differs_iff k x.0 x.1).0 h),
        )
        | inr n ↦ let (a, b) = ih n in (there a, b)
      ]
      | inr h ↦ let (a, b) = ih (rw h at m) in (there a, b)
    ]

away_from : (k : Tree) (es : List (Tree × Tree)) → All (λ e. e.0 ≢ k) (keep (differs k) es)
away_from k es =
    All-of_Member (λ e. e.0 ≢ k) (keep (differs k) es) (λ e m. (Member-of_keep k es e m).1)

keep-distinct :
    (k : Tree) (es : List (Tree × Tree)) → DistinctKeys es → DistinctKeys (keep (differs k) es)
keep-distinct k [] d = tt
keep-distinct k ((j, v) ∷ es) (new, d) = elim (Bool-cases (differs k (j, v))) [
  | inl h ↦ rw h (
    All-of_Member (λ e. e.0 ≢ j) (keep (differs k) es)
        (λ e m. All-Member (λ e. e.0 ≢ j) es new (Member-of_keep k es e m).0),
    keep-distinct k es d,
  )
  | inr h ↦ rw h (keep-distinct k es d)
]

pub distinct_tree : (m : Tree) → DistinctKeys (entries_tree m)
distinct_tree (cons k v rest) =
    (away_from k (entries_tree rest), keep-distinct k (entries_tree rest) (distinct_tree rest))
distinct_tree none_such = tt
distinct_tree (leaf s) = tt
distinct_tree (items c) = tt
distinct_tree (table c) = tt
distinct_tree nil = tt

pub entries-get : (k v m : Tree) → Member (k, v) (entries_tree m) → get_tree k m ≡ some v
entries-get k v (cons j w rest) m = elim (Member-cons m) [
  | inl e ↦
      get_hit j k w rest (sym (ap (λ (p : Tree × Tree). p.0) e))
      ∙ ap (λ (p : Tree × Tree). some p.1) (sym e)
  | inr n ↦
      let (a, b) = Member-of_keep j (entries_tree rest) (k, v) n in
      get_miss j k w rest (λ e. b (sym e)) ∙ entries-get k v rest a
]
entries-get k v none_such m = absurd (not-Member-nil m)
entries-get k v (leaf s) m = absurd (not-Member-nil m)
entries-get k v (items c) m = absurd (not-Member-nil m)
entries-get k v (table c) m = absurd (not-Member-nil m)
entries-get k v nil m = absurd (not-Member-nil m)

pub get-entries : (k v m : Tree) → get_tree k m ≡ some v → Member (k, v) (entries_tree m)
get-entries k v (cons j w rest) h = elim (same_tree j k) [
  | yes e ↦ here (ap₂ (λ a b. (a, b)) (sym e) (eq_of_some (sym h ∙ get_hit j k w rest e)))
  | no e ↦ there (
      Member-keep (differs j) (entries_tree rest)
        (get-entries k v rest (sym (get_miss j k w rest e) ∙ h))
        ((differs_iff j k v).1 (λ p. e (sym p))))
]
get-entries k v none_such h = cc
get-entries k v (leaf s) h = cc
get-entries k v (items c) h = cc
get-entries k v (table c) h = cc
get-entries k v nil h = cc

pub size_of_entry : (k v m : Tree) → Member (k, v) (entries_tree m) → size v < size m
size_of_entry k v (cons j w rest) m = elim (Member-cons m) [
  | inl e ↦
      subst (λ x. size x < size (cons j w rest)) (ap (λ (p : Tree × Tree). p.1) (sym e))
        (omega arith)
  | inr n ↦
      let small = size_of_entry k v rest (Member-of_keep j (entries_tree rest) (k, v) n).0 in
      omega (arith, small)
]
size_of_entry k v none_such m = absurd (not-Member-nil m)
size_of_entry k v (leaf s) m = absurd (not-Member-nil m)
size_of_entry k v (items c) m = absurd (not-Member-nil m)
size_of_entry k v (table c) m = absurd (not-Member-nil m)
size_of_entry k v nil m = absurd (not-Member-nil m)

pub size_of_kind : (v n : Tree) → tree_kind v ≡ mapping n → size v ≡ suc (size n)
size_of_kind none_such n h = cc
size_of_kind (leaf s) n h = cc
size_of_kind (items c) n h = cc
size_of_kind (table c) n h = cc
size_of_kind nil n h = cc
size_of_kind (cons j w rest) n h = cc

unfoldable pub trees : Yaml
trees = record {
  Value = Tree;
  Mapping = Tree;
  same = same_tree;
  kind = tree_kind;
  untag = λ v. v;
  of_string = leaf;
  of_sequence = λ vs. items (chain vs);
  of_mapping = table;
  kind-of_string = λ s. refl;
  kind-of_sequence = λ vs. ap sequence (elements-chain vs);
  kind-of_mapping = λ m. refl;
  untag_plain = λ v n. refl;
  empty = nil;
  get = get_tree;
  insert = cons;
  remove = remove_tree;
  entries = entries_tree;
  get-empty = λ k. refl;
  get-insert_self = λ k v m. get_hit k k v m refl;
  get-insert_ne = λ k j v m n. get_miss k j v m n;
  get-remove_self = remove_same;
  get-remove_ne = λ k j m n. remove_other k j m n;
  entries_distinct = distinct_tree;
  entries_get = entries-get;
  get_entries = get-entries;
  depth = size;
  depth-entries = λ k v m n mem shape.
      let small = size_of_entry k v m mem in
      let same = size_of_kind v n shape in omega (arith, small, same);
}

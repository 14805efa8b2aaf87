-- ===== src/Yaml.antt =====
-- The YAML values of serde_yaml_ng, which the program builds its configurations of, as an interface:
-- the operations that the program calls and their documented laws. A mapping keeps at most one
-- value for a key. Keys are compared by the equality of values.
pub mod Access
pub mod Merge
use clash_verge_cli.Prelude.{
  String, ◌≡◌, ◌≢◌, Bool, Option, none, some, List, [], ◌∷◌, ℕ, ◌-◌, ◌<◌, ◌>>=◌, All, Member,
}

-- The variants of `Value`, as a `match` sees them. The program looks into no number and no tag.
pub data Kind (V M : Type 0) : Type 0 where
  null : Kind V M
  bool : Bool → Kind V M
  number : Kind V M
  string : String → Kind V M
  sequence : List V → Kind V M
  mapping : M → Kind V M
  tagged : Kind V M

-- No key stands twice.
abbrev pub DistinctKeys : {V : Type 0} → List (V × V) → Type 0
DistinctKeys [] = Unit
DistinctKeys ((k, v) ∷ es) = All (λ e. e.0 ≢ k) es × DistinctKeys es

pub record Yaml : Type 1 where
  pub Value : Type 0
  pub Mapping : Type 0
  pub same : Discrete Value
  pub kind : Value → Kind Value Mapping
  -- the value under a tag, if it has one
  pub untag : Value → Value
  pub of_string : String → Value
  pub of_sequence : List Value → Value
  pub of_mapping : Mapping → Value
  pub kind-of_string : (s : String) → kind (of_string s) ≡ string s
  pub kind-of_sequence : (vs : List Value) → kind (of_sequence vs) ≡ sequence vs
  pub kind-of_mapping : (m : Mapping) → kind (of_mapping m) ≡ mapping m
  pub untag_plain : (v : Value) → kind v ≢ tagged → untag v ≡ v
  pub empty : Mapping
  pub get : Value → Mapping → Option Value
  pub insert : Value → Value → Mapping → Mapping
  pub remove : Value → Mapping → Mapping
  -- in the order of iteration
  pub entries : Mapping → List (Value × Value)
  pub get-empty : (k : Value) → get k empty ≡ none
  pub get-insert_self : (k v : Value) (m : Mapping) → get k (insert k v m) ≡ some v
  pub get-insert_ne : (k j v : Value) (m : Mapping) → k ≢ j → get j (insert k v m) ≡ get j m
  pub get-remove_self : (k : Value) (m : Mapping) → get k (remove k m) ≡ none
  pub get-remove_ne : (k j : Value) (m : Mapping) → k ≢ j → get j (remove k m) ≡ get j m
  pub entries_distinct : (m : Mapping) → DistinctKeys (entries m)
  pub entries_get : (k v : Value) (m : Mapping) → Member (k, v) (entries m) → get k m ≡ some v
  pub get_entries : (k v : Value) (m : Mapping) → get k m ≡ some v → Member (k, v) (entries m)
  -- how deep mappings stand in mappings: a value is a finite tree
  pub depth : Mapping → ℕ
  pub depth-entries :
      (k v : Value) (m n : Mapping)
      → Member (k, v) (entries m)
      → kind v ≡ mapping n
      → depth n < depth m

-- ===== src/Singbox/Groups.antt =====
-- The groups of `convert_profile` in src-tui/src/singbox/convert.rs: they are read from the document,
-- pruned until every member is emitted, and emitted. A set of names is a list of them.
pub mod Members
pub mod Rounds
pub mod Emitted
use clash_verge_cli.Prelude.{
  String, Bool, true, false, not, ◌&&◌, ◌||◌, Option, none, some, List, [], ◌∷◌, ◌++◌, map, ◌==◌, ℕ,
  zero, suc, ◌+◌, ◌-◌, if◌then◌else◌, length, all, any, is_empty, keep, contains, Text, codes,
  text_eq, eq_ignore_ascii_case, uppercase, ◌>>=◌, ◌>>◌, unwrap_or, filter_map,
}
use clash_verge_cli.Yaml.{Yaml}
use clash_verge_cli.Yaml.Access.{as_sequence, as_str, match_mapping, get_key, field}

pub data GroupKind : Type 0 where
  selector : GroupKind
  url_test : GroupKind

pub record PendingGroup : Type 0 where
  pub name : String
  pub kind : GroupKind
  pub raw_members : List String

pub record GroupSpec : Type 0 where
  pub name : String
  pub kind : GroupKind
  pub members : List String

-- The lines of the report, without their wording
pub data Note : Type 0 where
  approximated : String → String → Note
  duplicate : String → String → Note
  redundant_direct : String → String → Note
  no_outbound : String → String → Note
  not_convertible : String → String → Note

pub data Skip : Type 0 where
  unsupported : String → String → Skip
  no_member_left : String → Skip

abbrev pub is_selector : GroupKind → Bool
is_selector selector = true
is_selector url_test = false

unfoldable pub is_builtin_member : String → Bool
is_builtin_member member =
    let name : Text = map uppercase (codes member) in
    text_eq name (codes "DIRECT") || (text_eq name (codes "REJECT") || text_eq name (codes "BLOCK"))

unfoldable pub is_direct : String → Bool
is_direct member = eq_ignore_ascii_case (codes member) (codes "direct")

-- the body of the loop in `prune_members`
unfoldable pub keep_member : List String → List String → String → List String
keep_member allowed kept member =
    if not (contains allowed member) && not (is_builtin_member member)
    then kept
    else if contains kept member
    then kept
    else kept ++ member ∷ []

unfoldable pub keep_members : List String → List String → List String → List String
keep_members allowed kept [] = kept
keep_members allowed kept (member ∷ members) =
    keep_members allowed (keep_member allowed kept member) members

-- `retain`, where a selector has another member
unfoldable pub without_direct : GroupKind → List String → List String
without_direct kind kept =
    if is_selector kind && any (λ member. not (is_direct member)) kept
    then keep (λ member. not (is_direct member)) kept
    else kept

unfoldable pub prune_members : PendingGroup → List String → List String
prune_members group allowed = without_direct group.kind (keep_members allowed [] group.raw_members)

-- why one member is reported, if it is
unfoldable pub prune_note :
    PendingGroup → List String → List String → List String → String → Option Note
prune_note group members declared seen member =
    if contains seen member
    then some (duplicate group.name member)
    else if is_selector group.kind
        && (any (λ other. not (is_direct other)) members && is_direct member)
    then some (redundant_direct group.name member)
    else if contains members member
    then none
    else if contains declared member
    then some (no_outbound group.name member)
    else some (not_convertible group.name member)

-- `report_member_prunes`, from the members that were seen on
unfoldable pub report_member_prunes :
    PendingGroup → List String → List String → List String → List String → List Note
report_member_prunes group members declared seen [] = []
report_member_prunes group members declared seen (member ∷ rest) =
    let notes = report_member_prunes group members declared (member ∷ seen) rest in
    elim (prune_note group members declared seen member) [ none ↦ notes | some note ↦ note ∷ notes ]

-- The group keeps a member.
unfoldable pub is_alive : List String → PendingGroup → Bool
is_alive allowed group = not (is_empty (prune_members group allowed))

-- one round: the names of the groups that keep a member if the groups in `emitted` are emitted
unfoldable pub survivors : List String → List PendingGroup → List String → List String
survivors node_tags pending emitted =
    map (λ group. group.name) (keep (is_alive (node_tags ++ emitted)) pending)

-- `next == emitted` on sets
abbrev pub same_set : List String → List String → Bool
same_set xs ys = all (contains ys) xs && all (contains xs) ys

-- the loop over the rounds; `none` where the fuel is used up
unfoldable pub settle_rounds :
    ℕ → List String → List PendingGroup → List String → Option (List String)
settle_rounds zero node_tags pending emitted = none
settle_rounds (suc f) node_tags pending emitted =
    let next = survivors node_tags pending emitted in
    let rest = settle_rounds f node_tags pending next in
    if same_set next emitted then some emitted else rest

-- the set of groups that are emitted; each round but the last adds a group
unfoldable pub emitted_groups : List String → List PendingGroup → Option (List String)
emitted_groups node_tags pending =
    settle_rounds (suc (length pending)) node_tags pending (survivors node_tags pending [])

-- the last pass, for one group and for all
unfoldable pub spec_of : List String → PendingGroup → Option GroupSpec
spec_of allowed group =
    let members = prune_members group allowed in
    if is_empty members
    then none
    else some (record { name = group.name; kind = group.kind; members = members })

unfoldable pub emit : List String → List PendingGroup → List GroupSpec
emit allowed pending = filter_map (spec_of allowed) pending

unfoldable pub emit_notes : List String → List String → List PendingGroup → List Note
emit_notes declared allowed [] = []
emit_notes declared allowed (group ∷ pending) =
    let rest = emit_notes declared allowed pending in
    let members = prune_members group allowed in
    if is_empty members
    then rest
    else report_member_prunes group members declared [] group.raw_members ++ rest

unfoldable pub emit_skips : List String → List PendingGroup → List Skip
emit_skips allowed [] = []
emit_skips allowed (group ∷ pending) =
    let rest = emit_skips allowed pending in
    if is_empty (prune_members group allowed) then no_member_left group.name ∷ rest else rest

-- What the groups of a document are converted to
pub record Converted : Type 0 where
  pub groups : List GroupSpec
  pub skipped : List Skip
  pub notes : List Note

unfoldable pub convert_groups : List String → List String → List PendingGroup → Option Converted
convert_groups node_tags declared pending = do
  emitted ← emitted_groups node_tags pending
  some (record {
    groups = emit (node_tags ++ emitted) pending;
    skipped = emit_skips (node_tags ++ emitted) pending;
    notes = emit_notes declared (node_tags ++ emitted) pending;
  })

-- the first pass
pub data Declared : Type 0 where
  taken : PendingGroup → List Note → Declared
  refused : Skip → Declared
  passed_over : Declared

-- `match gtype`
unfoldable pub kind_of : String → String → Option (GroupKind × List Note)
kind_of name gtype =
    if gtype == "select"
    then some (selector, [])
    else if gtype == "url-test"
    then some (url_test, [])
    else if gtype == "fallback" || gtype == "load-balance"
    then some (url_test, approximated name gtype ∷ [])
    else none

module _ (Y : Yaml) where
  open Y use {Value, Mapping}

  abbrev text_at : String → Mapping → Option String
  text_at key g = get_key Y key g >>= as_str Y

  raw_members_of : Mapping → List String
  raw_members_of g =
      unwrap_or []
        (do members ← get_key Y "proxies" g; some (filter_map (as_str Y) (← as_sequence Y members)))

  pub classify_group : Value → Declared
  classify_group group = elim (match_mapping Y group) [
    | none ↦ passed_over
    | some g ↦
        let name = unwrap_or "" (text_at "name" g) in
        let gtype = unwrap_or "" (text_at "type" g) in
        elim (kind_of name gtype) [
          | none ↦ refused (unsupported name gtype)
          | some (kind, notes) ↦
              taken (record { name = name; kind = kind; raw_members = raw_members_of g }) notes
        ]
  ]

  -- every name that the document declares
  pub declared_names : List Value → List String
  declared_names groups = filter_map (λ group. field Y "name" group >>= as_str Y) groups

  pub pending_groups : List Value → List PendingGroup
  pending_groups [] = []
  pending_groups (group ∷ groups) = elim (classify_group group) [
    | taken pending notes ↦ pending ∷ pending_groups groups
    | other ↦ pending_groups groups
  ]

-- ===== src/Tests/Groups.antt =====
-- The tests of convert.rs on groups that refer to each other.
use clash_verge_cli.Prelude.{String, ◌≡◌, refl, ◌↔◌, ◌⊎◌, true, some, List, [], ◌∷◌, Member, here}
use clash_verge_cli.Singbox.Groups.{
  selector, url_test, PendingGroup, GroupSpec, approximated, duplicate, redundant_direct,
  no_outbound, not_convertible, no_member_left, is_builtin_member, is_direct, keep_member,
  keep_members, without_direct, prune_members, prune_note, report_member_prunes, is_alive,
  survivors, settle_rounds, emitted_groups, spec_of, emit, emit_notes, emit_skips, Converted,
  convert_groups, kind_of,
}
use clash_verge_cli.Singbox.Groups.Emitted.{LeadsOut, emitted_groups_lem, convert_groups-refers}
use clash_verge_cli.Singbox.Groups.Members.{is_usable}

abbrev auto : PendingGroup
auto = record { name = "auto"; kind = url_test; raw_members = "node" ∷ "gone" ∷ "node" ∷ [] }

abbrev top : PendingGroup
top = record { name = "top"; kind = selector; raw_members = "auto" ∷ "DIRECT" ∷ "ring" ∷ [] }

abbrev ring : PendingGroup
ring = record { name = "ring"; kind = selector; raw_members = "ring" ∷ [] }

abbrev declared : List PendingGroup
declared = top ∷ ring ∷ auto ∷ []

abbrev names : List String
names = "top" ∷ "ring" ∷ "auto" ∷ []

abbrev top_spec : GroupSpec
top_spec = record { name = "top"; kind = selector; members = "auto" ∷ [] }

abbrev result : Converted
result = record {
  groups = top_spec ∷ record { name = "auto"; kind = url_test; members = "node" ∷ [] } ∷ [];
  skipped = no_member_left "ring" ∷ [];
  notes =
      redundant_direct "top" "DIRECT"
      ∷ no_outbound "top" "ring"
      ∷ not_convertible "auto" "gone"
      ∷ duplicate "auto" "node"
      ∷ [];
}

converted : convert_groups ("node" ∷ []) names declared ≡ some result
unfolding convert_groups emitted_groups settle_rounds survivors is_alive prune_members
    without_direct keep_members keep_member is_direct is_builtin_member emit spec_of emit_notes
    emit_skips report_member_prunes prune_note
converted = refl

fallback_approximated : kind_of "g" "fallback" ≡ some (url_test, approximated "g" "fallback" ∷ [])
unfolding kind_of
fallback_approximated = refl

emitted_groups_lem_example :
    (emitted : List String) × (emitted_groups ("node" ∷ []) declared ≡ some emitted)
    × (Member "ring" emitted ↔ LeadsOut ("node" ∷ []) declared "ring")
emitted_groups_lem_example = emitted_groups_lem ("node" ∷ []) declared "ring"

convert_groups-refers_example :
    (is_usable ("node" ∷ []) "auto" ≡ true)
    ⊎ ((other : GroupSpec) × Member other result.groups × (other.name ≡ "auto"))
convert_groups-refers_example =
    convert_groups-refers ("node" ∷ []) declared names result top_spec "auto" converted (here refl)
      (here refl)

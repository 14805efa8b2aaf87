-- ===== src/Subscribe/Refresh/Forced/Applied.antt =====
-- When a forced refresh of scheduler.rs takes effect.
use clash_verge_cli.Prelude.{
  String, ◌≡◌, refl, sym, ap, ◌∙◌, ◌≢◌, ◌⊎◌, inl, inr, Bool, true, false, not, ◌||◌, Option, none,
  some, List, [], ◌∷◌, ℕ, is_text, is_text_iff, Bool-cases, Option-cases, false-ne-true, any,
  is_empty, ◌>>=◌, Member, here, there, Member-find,
}
use clash_verge_cli.Profiles.Item.{PrfItem}
use clash_verge_cli.Yaml.{Yaml}
use clash_verge_cli.Yaml.Access.{
  as_sequence, as_mapping, as_str, match_sequence, match_mapping, get_key, field,
}
use clash_verge_cli.Subscribe.Scheduler.{
  CoreKind, mihomo, sing_box, BatchResult, refreshed, batch_error, items,
}
use clash_verge_cli.Subscribe.Exit.{validate_apply_target}
use clash_verge_cli.Subscribe.Refresh.{
  Reply, done, error, Core, ProbeOutcome, any_in, has_providers, config_contains_node, item_of,
  file_of, reload_with_lifecycle, then_reapply, reload_selected, profile_snapshot,
  refreshed_config_has_node,
}
use clash_verge_cli.Subscribe.Refresh.Forced.{
  undo_reload, settle, apply_refreshed, report_refresh, undo_refresh, after_update, force_refresh,
}
use clash_verge_cli.Subscribe.Refresh.Forced.Cause.{Snapshot-cases}

module _ {M : Type 0} (C : Core M) (contains_node : M → String → Bool) (uid node : String)
    (tun : Bool) where
  open C use {World, Bytes, snapshot, update_remotes}

  -- The refresh was forced, and it reports neither a rollback nor an error.
  abbrev pub Succeeds : ProbeOutcome → Type 0
  Succeeds o = (o.forced_refresh ≡ true) × (o.rolled_back ≡ false) × (o.error ≡ none)

  -- The refreshed config has the node, and the reload of it succeeded.
  abbrev pub Reloads : World × BatchResult → World → Type 0
  Reloads r v =
      (refreshed_config_has_node C contains_node uid node r.0 ≡ true)
      × (reload_selected C uid node tun r.0 ≡ (v, done))

  module _ (profiles : List (PrfItem M)) (bytes : Bytes) (updated : ℕ) where
    undo_fails :
        (e : String) (w : World)
        → ¬ (Succeeds (undo_reload C contains_node uid node tun profiles bytes updated e w).1)
    unfolding undo_reload
    undo_fails e w = elim (Option-cases (file_of uid profiles)) [
      | inl n ↦ rw (n, undo_reload) (λ (f, r, x). cc)
      | inr (file, n) ↦ rw (n, undo_reload) (λ (f, r, x). absurd (false-ne-true (sym r)))
    ]

    settle_done :
        (r : World × Reply)
        → Succeeds (settle C contains_node uid node tun profiles bytes updated r).1
        → r ≡ ((settle C contains_node uid node tun profiles bytes updated r).0, done)
    unfolding settle
    settle_done (w, done) h = refl
    settle_done (w, error e) h = absurd (undo_fails e w h)

    report_fails :
        (r : World × Reply) → ¬ (Succeeds (report_refresh C contains_node uid node tun r).1)
    report_fails (w, error e) (f, r, x) = cc
    report_fails (w, done) (f, r, x) = cc

    update-Reloads :
        (r : World × BatchResult)
        → Succeeds (after_update C contains_node uid node tun profiles bytes updated r).1
        → Reloads r (after_update C contains_node uid node tun profiles bytes updated r).0
    unfolding after_update apply_refreshed undo_refresh
    update-Reloads (w, batch_error e) = λ (f, r, x). cc
    update-Reloads (w, refreshed good bad) = elim (Bool-cases (is_empty good)) [
      | inl e ↦ rw e (λ (f, r, x). cc)
      | inr e ↦ elim (Bool-cases (refreshed_config_has_node C contains_node uid node w)) [
        | inl h ↦ rw (e, h) (λ ok. (refl, settle_done (reload_selected C uid node tun w) ok))
        | inr h ↦ rw (e, h) (λ ok. absurd (report_fails _ ok))
      ]
    ]

  force_refresh-Reloads :
      (w : World)
      → Succeeds (force_refresh C contains_node uid node tun w).1
      → Reloads (update_remotes (uid ∷ []) w) (force_refresh C contains_node uid node tun w).0
  unfolding force_refresh
  force_refresh-Reloads w = elim (Snapshot-cases (snapshot w)) [
    | inr (e, l) ↦ rw (l, force_refresh) (λ (f, r, x). cc)
    | inl (profiles, l) ↦ elim (Option-cases (profile_snapshot C profiles uid w)) [
      | inl e ↦ rw (l, e, force_refresh) (λ (f, r, x). cc)
      | inr ((bytes, updated), e) ↦
          rw (l, e, force_refresh)
            (update-Reloads profiles bytes updated (update_remotes (uid ∷ []) w))
    ]
  ]

-- What the reload after a refresh has done, in the terms of the core: a core that is stopped is left
-- alone, and a running one, which is no sing-box of somebody else, has reloaded the profile, and if it
-- still runs the node is selected again.
abbrev pub IsReloaded :
    {M : Type 0} (C : Core M) → String → String → Bool → C.World → C.World → Type 0
IsReloaded C uid node tun w v =
    ((C.is_running w ≡ false) × (v ≡ w))
    ⊎ ((C.is_running w ≡ true)
        × ((C.core_kind w ≡ mihomo) ⊎ (C.owns_core w ≡ true))
        × ((u : C.World) × (C.reload_profile uid tun w ≡ (u, done))
            × (((C.is_running u ≡ false) × (v ≡ u))
                ⊎ ((C.is_running u ≡ true) × (C.reapply_selected node u ≡ (v, done))))))

module _ {M : Type 0} (C : Core M) (uid node : String) (tun : Bool) where
  open C use {World, is_running, core_kind, owns_core, reload_profile, reapply_selected}

  reapplied :
      (r : World × Reply) {v : World}
      → then_reapply C node r ≡ (v, done)
      → (u : World) × (r ≡ (u, done))
        × (((is_running u ≡ false) × (v ≡ u))
            ⊎ ((is_running u ≡ true) × (reapply_selected node u ≡ (v, done))))
  reapplied (w, error e) {v = v} = λ h. cc
  reapplied (w, done) {v = v} = elim (Bool-cases (is_running w)) [
    | inl e ↦ rw (e, then_reapply) (λ h. (w, refl, inr (e, h)))
    | inr e ↦ rw (e, then_reapply) (λ h. (w, refl, inl (e, ap (λ r. r.0) (sym h))))
  ]

  allowed :
      (k : CoreKind) (running owns : Bool)
      → validate_apply_target k running owns ≡ true
      → running ≡ true
      → (k ≡ mihomo) ⊎ (owns ≡ true)
  unfolding validate_apply_target
  allowed mihomo running owns h e = inl refl
  allowed sing_box true true h e = inr refl
  allowed sing_box true false h e = absurd (false-ne-true h)
  allowed sing_box false owns h e = absurd (false-ne-true e)

  lifecycle :
      (w : World) {u : World}
      → reload_with_lifecycle C uid tun w ≡ (u, done)
      → ((is_running w ≡ false) × (u ≡ w))
        ⊎ ((is_running w ≡ true)
            × ((core_kind w ≡ mihomo) ⊎ (owns_core w ≡ true))
            × (reload_profile uid tun w ≡ (u, done)))
  unfolding reload_with_lifecycle
  lifecycle w {u = u} =
      elim (Bool-cases (validate_apply_target (core_kind w) (is_running w) (owns_core w))) [
        | inr e ↦ rw (e, reload_with_lifecycle) (λ h. cc)
        | inl e ↦ elim (Bool-cases (is_running w)) [
          | inr n ↦ rw (e, n, reload_with_lifecycle) (λ h. inl (refl, ap (λ r. r.0) (sym h)))
          | inl n ↦
              rw (e, n, reload_with_lifecycle)
                (λ h. inr (refl, allowed (core_kind w) (is_running w) (owns_core w) e n, h))
        ]
      ]

  reload-IsReloaded :
      (w : World) {v : World}
      → reload_selected C uid node tun w ≡ (v, done)
      → IsReloaded C uid node tun w v
  unfolding reload_selected
  reload-IsReloaded w {v = v} h =
      let (u, r, after) = reapplied (reload_with_lifecycle C uid tun w) h in
      elim (lifecycle w r) [
        | inr (running, owned, reloaded) ↦ inr (running, owned, (u, reloaded, after))
        | inl (stopped, same) ↦ elim after [
          | inl (e, k) ↦ inl (stopped, k ∙ same)
          | inr (e, k) ↦ absurd (false-ne-true (sym stopped ∙ ap is_running (sym same) ∙ e))
        ]
      ]

any-Member :
    {A : Type 0} (p : A → Bool) (xs : List A)
    → any p xs ≡ true
    → (x : A) × Member x xs × (p x ≡ true)
any-Member p [] h = absurd (false-ne-true h)
any-Member p (x ∷ xs) h = elim (Bool-cases (p x)) [
  | inl e ↦ (x, here refl, e)
  | inr e ↦ let (y, m, t) = any-Member p xs (rw e at h) in (y, there m, t)
]

or-cases : (a b : Bool) → (a || b) ≡ true → (a ≡ true) ⊎ (b ≡ true)
or-cases true b h = inl refl
or-cases false b h = inr h

module _ (Y : Yaml) where
  open Y use {Value, Mapping, entries}

  -- The sequence has an element with the property.
  abbrev pub Has : Option (List Value) → (Value → Type 0) → Type 0
  Has found P = (vs : List Value) × (found ≡ some vs) × ((v : Value) × Member v vs × P v)

  -- A config names a node by an outbound, by a proxy, or by a member of a group, and counts as naming it
  -- if it has a provider of proxies.
  abbrev pub NamesNode : Mapping → String → Type 0
  NamesNode config node =
      Has (get_key Y "outbounds" config >>= as_sequence Y)
        (λ v. (field Y "tag" v >>= as_str Y) ≡ some node)
      ⊎ (((providers : Mapping) × ((get_key Y "proxy-providers" config >>= as_mapping Y)
              ≡ some providers)
            × (entries providers ≢ []))
          ⊎ (Has (get_key Y "proxies" config >>= match_sequence Y)
                (λ v. (match_mapping Y v >>= get_key Y "name" >>= as_str Y) ≡ some node)
              ⊎ Has (get_key Y "proxy-groups" config >>= match_sequence Y) (λ v.
                Has (match_mapping Y v >>= get_key Y "proxies" >>= match_sequence Y)
                  (λ name. as_str Y name ≡ some node))))

  any_in-Has :
      (found : Option (List Value)) (p : Value → Bool) (P : Value → Type 0)
      → ((v : Value) → p v ≡ true → P v)
      → any_in Y found p ≡ true
      → Has found P
  any_in-Has none p P f h = absurd (false-ne-true h)
  any_in-Has (some vs) p P f h = let (v, m, t) = any-Member p vs h in (vs, refl, (v, m, f v t))

  lists_node-Has :
      (node : String) (found : Option (List Value))
      → (elim found [
        | none ↦ false
        | some names ↦ any (λ name. is_text (as_str Y name) node) names
      ])
        ≡ true
      → Has found (λ name. as_str Y name ≡ some node)
  lists_node-Has node none h = absurd (false-ne-true h)
  lists_node-Has node (some names) h =
      let (v, m, t) = any-Member (λ name. is_text (as_str Y name) node) names h in
      (names, refl, (v, m, (is_text_iff (as_str Y v) node).0 t))

  providers-some :
      (found : Option Mapping)
      → (elim found [ none ↦ false | some providers ↦ not (is_empty (entries providers)) ]) ≡ true
      → (providers : Mapping) × (found ≡ some providers) × (entries providers ≢ [])
  providers-some none h = absurd (false-ne-true h)
  providers-some (some m) h = (m, refl, filled (entries m) h)
    where
      filled : {A : Type 0} (xs : List A) → not (is_empty xs) ≡ true → xs ≢ []
      filled [] h e = cc
      filled (x ∷ xs) h e = cc

  config_contains_node-NamesNode :
      (config : Mapping) (node : String)
      → config_contains_node Y config node ≡ true
      → NamesNode config node
  unfolding config_contains_node
  config_contains_node-NamesNode config node h =
      elim (or-cases (any_in Y (get_key Y "outbounds" config >>= as_sequence Y) _) _ h) [
        | inl a ↦ inl (any_in-Has _ _ _ (λ v. (is_text_iff _ node).0) a)
        | inr a ↦ elim (or-cases (has_providers Y config) _ a) [
          | inl b ↦ inr (inl (providers-some _ b))
          | inr b ↦ elim (or-cases _ _ b) [
            | inl c ↦ inr (inr (inl (any_in-Has _ _ _ (λ v. (is_text_iff _ node).0) c)))
            | inr c ↦ inr (inr (inr (any_in-Has _ _ _ (λ v. lists_node-Has node _) c)))
          ]
        ]
      ]

  module _ (C : Core Mapping) (uid node : String) (tun : Bool) where
    open C use {World, Bytes, snapshot, read_file, parse_mapping, update_remotes}

    -- The file of the profile holds a config that names the node.
    pub record IsKept (w : World) : Type 0 where
      pub profiles : List (PrfItem Mapping)
      pub item : PrfItem Mapping
      pub file : String
      pub bytes : Bytes
      pub config : Mapping
      pub listed : snapshot w ≡ items profiles
      pub found : Member item profiles × (item.uid ≡ some uid) × (item.file ≡ some file)
      pub read : read_file file w ≡ some bytes
      pub parsed : parse_mapping bytes ≡ some config
      pub names : NamesNode config node

    has_node-IsKept :
        (w : World)
        → refreshed_config_has_node C (config_contains_node Y) uid node w ≡ true
        → IsKept w
    unfolding refreshed_config_has_node
    has_node-IsKept w = elim (Snapshot-cases (snapshot w)) [
      | inr (e, l) ↦ rw (l, refreshed_config_has_node) (λ h. absurd (false-ne-true h))
      | inl (profiles, l) ↦ elim (Option-cases (item_of uid profiles)) [
        | inl i ↦ rw (l, i, refreshed_config_has_node, file_of) (λ h. absurd (false-ne-true h))
        | inr (item, i) ↦ elim (Option-cases item.file) [
          | inl f ↦ rw (l, i, f, refreshed_config_has_node, file_of) (λ h. absurd (false-ne-true h))
          | inr (file, f) ↦ elim (Option-cases (read_file file w)) [
            | inl b ↦
                rw (l, i, f, b, refreshed_config_has_node, file_of) (λ h. absurd (false-ne-true h))
            | inr (bytes, b) ↦ elim (Option-cases (parse_mapping bytes)) [
              | inl c ↦
                  rw (l, i, f, b, c, refreshed_config_has_node, file_of)
                    (λ h. absurd (false-ne-true h))
              | inr (config, c) ↦
                  let (m, t) = Member-find (λ item. is_text item.uid uid) profiles i in
                  rw (l, i, f, b, c, refreshed_config_has_node, file_of)
                    (λ h. record {
                      profiles = profiles;
                      item = item;
                      file = file;
                      bytes = bytes;
                      config = config;
                      listed = l;
                      found = (m, (is_text_iff item.uid uid).0 t, f);
                      read = b;
                      parsed = c;
                      names = config_contains_node-NamesNode config node h;
                    })
            ]
          ]
        ]
      ]
    ]

    -- A forced refresh that reports neither a rollback nor an error has kept the exit node: the file of
    -- the refreshed profile holds a config that names it or has a provider of proxies. A running core,
    -- which is no sing-box of somebody else, has then reloaded the profile, and if it still runs the node
    -- is selected again; a stopped core is left alone.
    pub force_refresh-IsApplied :
        (w : World)
        → Succeeds C
            (config_contains_node Y)
            uid
            node
            tun
            (force_refresh C (config_contains_node Y) uid node tun w).1
        → IsKept (update_remotes (uid ∷ []) w).0
          × IsReloaded C uid node tun
              (update_remotes (uid ∷ []) w).0
              (force_refresh C (config_contains_node Y) uid node tun w).0
    force_refresh-IsApplied w ok =
        let (kept, reloaded) = force_refresh-Reloads C (config_contains_node Y) uid node tun w ok in
        (has_node-IsKept _ kept, reload-IsReloaded C uid node tun _ reloaded)

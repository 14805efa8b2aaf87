-- ===== src/Manager/Switch/Flags.antt =====
-- The flag `stopped` of `apply_prepared_core`, a variable of its own: no step but the stop sets it.
use clash_verge_cli.Prelude.{
  String, ◌≡◌, refl, sym, ap, ◌∙◌, inl, inr, Bool, true, false, not, ◌&&◌, Option, none, some, List,
  [], ◌∷◌, if◌then◌else◌, Option-cases,
}
use clash_verge_cli.Subscribe.Scheduler.{CoreKind, mihomo, sing_box}
use clash_verge_cli.Subscribe.Refresh.{Reply, done, error}
use clash_verge_cli.Manager.Switch.{
  FilePath, config, verge, marker, candidate, Switching, Outside, and_then, both, refuse_if,
}
use clash_verge_cli.Manager.Switch.Apply.{
  GuidedFileSnapshot, SwitchPlan, check_guided_cancel, guided_owner_check, write_file, remove_file,
  rename_candidate, restore_file, restore, select_all, mark_owner, launch_needed, start_target,
  launch_target, is_up, take_over, commit_target,
}

-- The calls of the transaction leave its flag alone.
pub record KeepsFlag {O : Type 0} (X : Outside O) : Type 0 where
  pub stop_keeps : (w : Switching O) → (X.stop_core w).0.stopped_old ≡ w.stopped_old
  pub spawn_keeps :
      (k : CoreKind) (path : String) (c : Option FilePath) (w : Switching O)
      → (X.spawn_core_as k path c w).0.stopped_old ≡ w.stopped_old
  pub select_keeps :
      (k : CoreKind) (group node : String) (w : Switching O)
      → (X.select_proxy k group node w).0.stopped_old ≡ w.stopped_old

-- The flag after a step.
unfoldable pub HasFlag : {O : Type 0} → Bool → Switching O × Reply → Type 0
HasFlag b r = r.0.stopped_old ≡ b

pub flag_of :
    {O : Type 0} (b : Bool) (r : Switching O × Reply) {w : Switching O} {a : Reply}
    → HasFlag b r
    → r ≡ (w, a)
    → w.stopped_old ≡ b
unfolding HasFlag
flag_of b r h e = ap (λ x. x.0.stopped_old) (sym e) ∙ h

pub flag_set :
    {O : Type 0} (r : Switching O × Reply)
    → r.1 ≡ done
    → HasFlag true (and_then r (λ v. (record v { stopped_old = true }, done)))
unfolding HasFlag
flag_set (w, done) h = refl
flag_set (w, error e) h = cc

module _ {O : Type 0} (X : Outside O) (K : KeepsFlag X) (b : Bool) where
  pub at : (w : Switching O) (r : Reply) → w.stopped_old ≡ b → HasFlag b (w, r)
  unfolding HasFlag
  at w r h = h

  pub stopping_keeps : (w : Switching O) → w.stopped_old ≡ b → HasFlag b (X.stop_core w)
  unfolding HasFlag
  stopping_keeps w h = K.stop_keeps w ∙ h

  spawning_keeps :
      (k : CoreKind) (path : String) (c : Option FilePath) (w : Switching O)
      → w.stopped_old ≡ b
      → HasFlag b (X.spawn_core_as k path c w)
  unfolding HasFlag
  spawning_keeps k path c w h = K.spawn_keeps k path c w ∙ h

  selecting_keeps :
      (k : CoreKind) (group node : String) (w : Switching O)
      → w.stopped_old ≡ b
      → HasFlag b (X.select_proxy k group node w)
  unfolding HasFlag
  selecting_keeps k group node w h = K.select_keeps k group node w ∙ h

  pub keeps_then :
      (x : Switching O × Reply) (f : Switching O → Switching O × Reply)
      → HasFlag b x
      → ((u : Switching O) → u.stopped_old ≡ b → HasFlag b (f u))
      → HasFlag b (and_then x f)
  unfolding HasFlag
  keeps_then (w, done) f h k = k w h
  keeps_then (w, error e) f h k = h

  pub keeps_if :
      (c : Bool) (x y : Switching O × Reply)
      → HasFlag b x
      → HasFlag b y
      → HasFlag b (if c then x else y)
  keeps_if true x y h k = h
  keeps_if false x y h k = k

  write_file_keeps :
      (p : FilePath) (bytes : Option String) (w : Switching O)
      → w.stopped_old ≡ b
      → HasFlag b (write_file X p bytes w)
  unfolding HasFlag
  write_file_keeps p bytes w h = elim (Option-cases (X.io_error p w)) [
    | inl e ↦ rw (e, write_file) h
    | inr (m, e) ↦ rw (e, write_file) h
  ]

  remove_file_keeps :
      (p : FilePath) (w : Switching O) → w.stopped_old ≡ b → HasFlag b (remove_file X p w)
  unfolding remove_file HasFlag
  remove_file_keeps p w h = elim (Option-cases (w.files p)) [
    | inl e ↦ rw (e, remove_file) h
    | inr (m, e) ↦ rw (e, remove_file) (write_file_keeps p none w h)
  ]

  restore_file_keeps :
      (p : FilePath) (bytes : Option String) (w : Switching O)
      → w.stopped_old ≡ b
      → HasFlag b (restore_file X p bytes w)
  unfolding restore_file
  restore_file_keeps p none w h = remove_file_keeps p w h
  restore_file_keeps p (some bytes) w h = write_file_keeps p (some bytes) w h

  pub restore_keeps :
      (files : GuidedFileSnapshot) (w : Switching O)
      → w.stopped_old ≡ b
      → HasFlag b (restore X files w)
  unfolding restore
  restore_keeps [] w h = at w done h
  restore_keeps ((p, bytes) ∷ files) w h =
      keeps_then (restore_file X p bytes w) (restore X files) (restore_file_keeps p bytes w h)
        (restore_keeps files)

  rename_keeps :
      (p : FilePath) (w : Switching O) → w.stopped_old ≡ b → HasFlag b (rename_candidate X p w)
  unfolding rename_candidate HasFlag
  rename_keeps p w h = elim (Option-cases (w.files candidate)) [
    | inl e ↦ rw (e, rename_candidate) h
    | inr (bytes, e) ↦ elim (Option-cases (X.io_error p w)) [
      | inl f ↦ rw (e, f, rename_candidate) h
      | inr (m, f) ↦ rw (e, f, rename_candidate) h
    ]
  ]

  select_all_keeps :
      (api : CoreKind) (sel : List (String × String)) (w : Switching O)
      → w.stopped_old ≡ b
      → HasFlag b (select_all X api sel w)
  unfolding select_all
  select_all_keeps api [] w h = at w done h
  select_all_keeps api ((group, node) ∷ rest) w h =
      keeps_then (X.select_proxy api group node w) (select_all X api rest)
        (selecting_keeps api group node w h) (select_all_keeps api rest)

  mark_owner_keeps :
      (k : CoreKind) (w : Switching O) → w.stopped_old ≡ b → HasFlag b (mark_owner X k w)
  unfolding mark_owner
  mark_owner_keeps sing_box w h = write_file_keeps marker (some X.marker_text) w h
  mark_owner_keeps mihomo w h = remove_file_keeps marker w h

  module _ (P : SwitchPlan) where
    start_target_keeps : (w : Switching O) → w.stopped_old ≡ b → HasFlag b (start_target X P w)
    unfolding start_target
    start_target_keeps w h =
        let core = P.prepared.core in
        let open_ports = both (X.controller_released core w) (
          both (if X.gui_running w then X.gui_isolation (some core) w else done)
            (X.mixed_port_available w)) in
        let choose = λ (u : Switching O).
          select_all X core P.target_selections (record u { target_started = true }) in
        let spawn =
          λ (v : Switching O). X.spawn_core_as core P.prepared.path (some (config core)) v in
        keeps_then (w, open_ports) (λ v. and_then (spawn v) choose) (at w open_ports h)
          (λ v k.
            keeps_then (spawn v) choose
              (spawning_keeps core P.prepared.path (some (config core)) v k)
              (λ u m.
                select_all_keeps core P.target_selections (record u { target_started = true }) m))

    pub launch_target_keeps :
        (w : Switching O) → w.stopped_old ≡ b → HasFlag b (launch_target X P w)
    unfolding launch_target
    launch_target_keeps w h =
        let start =
          λ (u : Switching O). if launch_needed X P then start_target X P u else (u, done) in
        let rename = λ (v : Switching O). rename_candidate X (config P.prepared.core) v in
        keeps_then (w, check_guided_cancel X w) (λ v. and_then (rename v) start)
          (at w (check_guided_cancel X w) h)
          (λ v k. keeps_then (rename v) start (rename_keeps (config P.prepared.core) v k) (λ u m.
            keeps_if (launch_needed X P) (start_target X P u) (u, done) (start_target_keeps u m)
              (at u done m)))

    pub commit_target_keeps :
        (w : Switching O) → w.stopped_old ≡ b → HasFlag b (commit_target X P w)
    unfolding commit_target
    commit_target_keeps w h =
        let guards = both (check_guided_cancel X w) (
          both (guided_owner_check X w) (
            refuse_if (launch_needed X P && not (is_up X P w))
              "Prepared target exited before the selection could be committed")) in
        let take = λ (s : Switching O). and_then (s, check_guided_cancel X s) (take_over X P) in
        let mark = λ (t : Switching O). and_then (mark_owner X P.prepared.core t) take in
        let check = λ (u : Switching O). and_then (u, check_guided_cancel X u) mark in
        let text = λ (v : Switching O). some (X.with_proxy_core P.prepared.core (v.files verge)) in
        let write = λ (v : Switching O). write_file X verge (text v) v in
        keeps_then (w, guards) (λ v. and_then (write v) check) (at w guards h)
          (λ v k. keeps_then (write v) check (write_file_keeps verge (text v) v k) (λ u l.
            keeps_then (u, check_guided_cancel X u) mark (at u (check_guided_cancel X u) l)
              (λ t m.
                keeps_then (mark_owner X P.prepared.core t) take
                  (mark_owner_keeps P.prepared.core t m)
                  (λ s n.
                    keeps_then (s, check_guided_cancel X s) (take_over X P)
                      (at s (check_guided_cancel X s) n) (λ r o. at (take_over X P r).0 done o)))))

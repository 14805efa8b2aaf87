-- ===== src/Subscribe/Refresh/Forced/Undo.antt =====
-- What the rollback of scheduler.rs restores.
use clash_verge_cli.Prelude.{
  String, ◌≡◌, refl, sym, ap, ◌∙◌, inl, inr, Bool, true, some, List, [], ◌∷◌, arith, ℕ, Bool-cases,
  Option-cases, false-ne-true, is_empty,
}
use clash_verge_cli.Profiles.Item.{PrfItem}
use clash_verge_cli.Subscribe.Scheduler.{BatchResult, refreshed, batch_error, items}
use clash_verge_cli.Subscribe.Refresh.{
  Reply, done, error, Core, ProbeOutcome, file_of, reload_selected, profile_snapshot,
  restore_profile_snapshot, refreshed_config_has_node,
}
use clash_verge_cli.Subscribe.Refresh.Reload.{LeavesFiles, read-reload_selected}
use clash_verge_cli.Subscribe.Refresh.Forced.{
  restored, report_reload, undo_reload, settle, apply_refreshed, report_refresh, undo_refresh,
  after_update, force_refresh,
}

module _ {M : Type 0} (C : Core M) (contains_node : M → String → Bool) (uid node : String)
    (tun : Bool) (laws : LeavesFiles C) (file : String) where
  open C use {World, Bytes, read_file, snapshot, update_remotes}

  -- A result that was rolled back leaves these bytes in the file.
  abbrev Restores : Bytes → World × ProbeOutcome → Type 0
  Restores bytes r = r.1.rolled_back ≡ true → read_file file r.0 ≡ some bytes

  read-restored :
      (bytes : Bytes) (updated : ℕ) (w : World)
      → read_file file (restore_profile_snapshot C uid file bytes updated w) ≡ some bytes
  unfolding restore_profile_snapshot
  read-restored bytes updated w =
      laws.read-updated file uid updated _ ∙ laws.read-write file bytes w

  read-reloaded :
      (bytes : Bytes) (updated : ℕ) (w : World)
      → read_file file
          (reload_selected C uid node tun (restore_profile_snapshot C uid file bytes updated w)).0
        ≡ some bytes
  read-reloaded bytes updated w =
      read-reload_selected C uid node tun laws file _ ∙ read-restored bytes updated w

  report_reload-Restores :
      (bytes : Bytes) (e : String) (r : World × Reply)
      → read_file file r.0 ≡ some bytes
      → Restores bytes (report_reload C contains_node uid node tun e r)
  report_reload-Restores bytes e (w, reply) h back = h

  report_refresh-Restores :
      (bytes : Bytes) (r : World × Reply)
      → read_file file r.0 ≡ some bytes
      → Restores bytes (report_refresh C contains_node uid node tun r)
  report_refresh-Restores bytes (w, error e) h back = h
  report_refresh-Restores bytes (w, done) h back = h

  module _ (profiles : List (PrfItem M)) (known : file_of uid profiles ≡ some file) where
    undo_reload-Restores :
        (bytes : Bytes) (updated : ℕ) (e : String) (w : World)
        → Restores bytes (undo_reload C contains_node uid node tun profiles bytes updated e w)
    unfolding undo_reload
    undo_reload-Restores bytes updated e w =
        rw (known, undo_reload)
          (report_reload-Restores bytes e
            (reload_selected C uid node tun (restore_profile_snapshot C uid file bytes updated w))
            (read-reloaded bytes updated w))

    settle-Restores :
        (bytes : Bytes) (updated : ℕ) (r : World × Reply)
        → Restores bytes (settle C contains_node uid node tun profiles bytes updated r)
    unfolding settle
    settle-Restores bytes updated (w, done) = λ back. absurd (false-ne-true back)
    settle-Restores bytes updated (w, error e) = undo_reload-Restores bytes updated e w

    restored_known :
        (bytes : Bytes) (updated : ℕ) (w : World)
        → restored C contains_node uid node tun profiles bytes updated w
          ≡ restore_profile_snapshot C uid file bytes updated w
    restored_known bytes updated w = rw (known, restored) refl

    undo_refresh-Restores :
        (bytes : Bytes) (updated : ℕ) (w : World)
        → Restores bytes (undo_refresh C contains_node uid node tun profiles bytes updated w)
    unfolding undo_refresh
    undo_refresh-Restores bytes updated w =
        report_refresh-Restores bytes
          (reload_selected C uid node tun
            (restored C contains_node uid node tun profiles bytes updated w))
          (ap (λ v. read_file file (reload_selected C uid node tun v).0)
              (restored_known bytes updated w)
            ∙ read-reloaded bytes updated w)

    after_update-Restores :
        (bytes : Bytes) (updated : ℕ) (r : World × BatchResult)
        → Restores bytes (after_update C contains_node uid node tun profiles bytes updated r)
    unfolding after_update apply_refreshed
    after_update-Restores bytes updated (w, batch_error e) = λ back. absurd (false-ne-true back)
    after_update-Restores bytes updated (w, refreshed good bad) =
        elim (Bool-cases (is_empty good)) [
          | inl e ↦ rw e (λ back. absurd (false-ne-true back))
          | inr e ↦ elim (Bool-cases (refreshed_config_has_node C contains_node uid node w)) [
            | inl h ↦ rw (e, h) (settle-Restores bytes updated _)
            | inr h ↦ rw (e, h) (undo_refresh-Restores bytes updated w)
          ]
        ]

    snapshot_bytes :
        (bytes : Bytes) (updated : ℕ) (w : World)
        → profile_snapshot C profiles uid w ≡ some (bytes, updated)
        → read_file file w ≡ some bytes
    unfolding profile_snapshot
    snapshot_bytes bytes updated w h = ground (arith, known, h)

    -- A forced refresh that reports a rollback leaves the file of the profile as it found it: also where
    -- the reload of the old file failed.
    pub rolled_back-restores :
        (w : World)
        → snapshot w ≡ items profiles
        → (force_refresh C contains_node uid node tun w).1.rolled_back ≡ true
        → read_file file (force_refresh C contains_node uid node tun w).0 ≡ read_file file w
    unfolding force_refresh
    rolled_back-restores w s = elim (Option-cases (profile_snapshot C profiles uid w)) [
      | inl e ↦ rw (s, e, force_refresh) (λ back. absurd (false-ne-true back))
      | inr ((bytes, updated), e) ↦
          rw (s, e, force_refresh)
            (λ back.
              after_update-Restores bytes updated (update_remotes (uid ∷ []) w) back
              ∙ sym (snapshot_bytes bytes updated w e))
    ]

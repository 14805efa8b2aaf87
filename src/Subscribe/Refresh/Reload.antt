-- ===== src/Subscribe/Refresh/Reload.antt =====
-- Which cores the reloads of lifecycle.rs leave alone, and that they leave the profile files alone.
use clash_verge_cli.Prelude.{
  String, ◌≡◌, refl, ap, ◌∙◌, ◌⊎◌, inl, inr, Bool, true, false, some, arith, ℕ, Bool-cases,
}
use clash_verge_cli.Subscribe.Scheduler.{sing_box}
use clash_verge_cli.Subscribe.Exit.{validate_apply_target}
use clash_verge_cli.Subscribe.Refresh.{
  Reply, done, error, Core, reload_with_lifecycle, then_reapply, reload_selected,
}

-- The core reads the profile files and does not write them, and a file that was written is read back.
-- The latter supposes that the disk takes the write: scheduler.rs ignores its error.
pub record LeavesFiles {M : Type 0} (C : Core M) : Type 0 where
  pub read-write :
      (file : String) (b : C.Bytes) (w : C.World)
      → C.read_file file (C.write_file file b w) ≡ some b
  pub read-updated :
      (file uid : String) (n : ℕ) (w : C.World)
      → C.read_file file (C.restore_updated uid n w) ≡ C.read_file file w
  pub read-reload :
      (file uid : String) (tun : Bool) (w : C.World)
      → C.read_file file (C.reload_profile uid tun w).0 ≡ C.read_file file w
  pub read-reapply :
      (file node : String) (w : C.World)
      → C.read_file file (C.reapply_selected node w).0 ≡ C.read_file file w

-- The core is stopped, or a sing-box that this program did not start.
abbrev pub IsOffLimits : {M : Type 0} (C : Core M) → C.World → Type 0
IsOffLimits C w = (C.is_running w ≡ false) ⊎ ((C.core_kind w ≡ sing_box) × (C.owns_core w ≡ false))

module _ {M : Type 0} (C : Core M) (uid node : String) (tun : Bool) where
  open C use {World, read_file, is_running, core_kind, owns_core}

  stopped_reply : (w : World) → is_running w ≡ false → reload_with_lifecycle C uid tun w ≡ (w, done)
  unfolding reload_with_lifecycle validate_apply_target
  stopped_reply w e = rw (e, reload_with_lifecycle, validate_apply_target) refl

  abbrev refusal : String
  refusal = "selected sing-box core is externally managed; refusing an implicit restart"

  external_reply :
      (w : World)
      → is_running w ≡ true
      → core_kind w ≡ sing_box
      → owns_core w ≡ false
      → reload_with_lifecycle C uid tun w ≡ (w, error refusal)
  unfolding reload_with_lifecycle validate_apply_target
  external_reply w e k o = rw (e, k, o, reload_with_lifecycle, validate_apply_target) refl

  then_stopped : (w : World) → is_running w ≡ false → then_reapply C node (w, done) ≡ (w, done)
  then_stopped w e = rw e refl

  reload_stopped : (w : World) → is_running w ≡ false → reload_selected C uid node tun w ≡ (w, done)
  unfolding reload_selected
  reload_stopped w e = ap (then_reapply C node) (stopped_reply w e) ∙ then_stopped w e

  reload_external :
      (w : World)
      → is_running w ≡ true
      → core_kind w ≡ sing_box
      → owns_core w ≡ false
      → reload_selected C uid node tun w ≡ (w, error refusal)
  unfolding reload_selected
  reload_external w e k o = ap (then_reapply C node) (external_reply w e k o)

  -- Reloading after a refresh does not touch a stopped core, nor a sing-box that this program did not
  -- start.
  pub reload_selected_off_limits :
      (w : World) → IsOffLimits C w → (reload_selected C uid node tun w).0 ≡ w
  reload_selected_off_limits w (inl e) = ap (λ (r : World × Reply). r.0) (reload_stopped w e)
  reload_selected_off_limits w (inr (k, o)) = elim (Bool-cases (is_running w)) [
    | inl e ↦ ap (λ (r : World × Reply). r.0) (reload_external w e k o)
    | inr e ↦ ap (λ (r : World × Reply). r.0) (reload_stopped w e)
  ]

  module _ (laws : LeavesFiles C) where
    read-reload_with :
        (file : String) (w : World)
        → read_file file (reload_with_lifecycle C uid tun w).0 ≡ read_file file w
    unfolding reload_with_lifecycle
    read-reload_with file w = ground (arith, laws.read-reload file uid tun w)

    read-then_reapply :
        (file : String) (r : World × Reply)
        → read_file file (then_reapply C node r).0 ≡ read_file file r.0
    read-then_reapply file (w, error e) = refl
    read-then_reapply file (w, done) = ground (arith, laws.read-reapply file node w)

    pub read-reload_selected :
        (file : String) (w : World)
        → read_file file (reload_selected C uid node tun w).0 ≡ read_file file w
    unfolding reload_selected
    read-reload_selected file w =
        read-then_reapply file (reload_with_lifecycle C uid tun w) ∙ read-reload_with file w

-- ===== src/Manager/Switch/Stopped/Written.antt =====
-- What `persist_stopped_selection` leaves of the files.
use clash_verge_cli.Prelude.{
  String, ◌≡◌, refl, sym, ap, ◌∙◌, subst, ◌⊎◌, inl, inr, Bool, true, false, ◌&&◌, Option, none,
  some, [], ◌∷◌, eq_iff, if◌then◌else◌, Option-cases,
}
use clash_verge_cli.Subscribe.Scheduler.{CoreKind}
use clash_verge_cli.Subscribe.Refresh.{Reply, done, error}
use clash_verge_cli.Manager.Switch.{FilePath, verge, marker, Files, Switching, Outside, and_then}
use clash_verge_cli.Manager.Switch.Apply.{
  GuidedFileSnapshot, write_file, remove_file, restore_file, restore,
}
use clash_verge_cli.Manager.Switch.Steps.{and_then-done, and_then-checked}
use clash_verge_cli.Manager.Switch.Disk.{write_file-Puts, restore_file-Puts, OnlyFiles}
use clash_verge_cli.Manager.Switch.Stopped.{
  Staging, StoppedResult, selected, unselected, unrestored, same_bytes, marker_for, saved_pair,
  same_pair, publish, after_restore, after_publish, publish_checked, persist_stopped_selection,
}

same_bytes_sound : (a b : Option String) → same_bytes a b ≡ true → a ≡ b
same_bytes_sound none none h = refl
same_bytes_sound none (some t) h = cc
same_bytes_sound (some s) none h = cc
same_bytes_sound (some s) (some t) h = ap some ((eq_iff s t).0 h)

pub and_split : (a b : Bool) → (a && b) ≡ true → (a ≡ true) × (b ≡ true)
and_split true b h = (refl, h)
and_split false b h = cc

pub either_if {ℓ} :
    {A : Type ℓ} (P : A → Type 0) (b : Bool) {x y : A}
    → (b ≡ true → P x)
    → (b ≡ false → P y)
    → P (if b then x else y)
either_if P true f g = f refl
either_if P false f g = g refl

module _ {O : Type 0} (X : Outside O) (G : Staging O) where
  abbrev refile : Files → Switching O → Switching O
  refile files w = record w { files = files }

  only_then :
      (w : Switching O) (x : Switching O × Reply) (f : Switching O → Switching O × Reply)
      → OnlyFiles X w x.0
      → ((u : Switching O) → OnlyFiles X u (f u).0)
      → OnlyFiles X w (and_then x f).0
  only_then w (u, error e) f a b = a
  only_then w (u, done) f a b = b u ∙ ap (refile (f u).0.files) a

  write_only :
      (p : FilePath) (bytes : Option String) (w : Switching O)
      → OnlyFiles X w (write_file X p bytes w).0
  write_only p bytes w = elim (Option-cases (X.io_error p w)) [
    | inl e ↦ rw (e, write_file) refl
    | inr (m, e) ↦ rw (e, write_file) refl
  ]

  remove_only : (p : FilePath) (w : Switching O) → OnlyFiles X w (remove_file X p w).0
  unfolding remove_file
  remove_only p w = elim (Option-cases (w.files p)) [
    | inl e ↦ rw (e, remove_file) refl
    | inr (b, e) ↦ rw (e, remove_file) (write_only p none w)
  ]

  restore_file_only :
      (p : FilePath) (bytes : Option String) (w : Switching O)
      → OnlyFiles X w (restore_file X p bytes w).0
  unfolding restore_file
  restore_file_only p none w = remove_only p w
  restore_file_only p (some b) w = write_only p (some b) w

  restore_only :
      (files : GuidedFileSnapshot) (w : Switching O) → OnlyFiles X w (restore X files w).0
  unfolding restore
  restore_only [] w = refl
  restore_only ((p, bytes) ∷ files) w =
      only_then w (restore_file X p bytes w) (restore X files) (restore_file_only p bytes w)
        (restore_only files)

  -- verge.yaml and the marker are the same.
  abbrev pub SamePair : Files → Files → Type 0
  SamePair f g = (f verge ≡ g verge) × (f marker ≡ g marker)

  same_pair-SamePair : (f g : Files) → same_pair X G f g ≡ true → SamePair f g
  same_pair-SamePair f g h =
      let (a, b) =
        and_split (same_bytes (f verge) (g verge)) (same_bytes (f marker) (g marker)) h in
      (same_bytes_sound (f verge) (g verge) a, same_bytes_sound (f marker) (g marker) b)

  restore-SamePair :
      (files : Files) (w : Switching O) {v : Switching O}
      → restore X (saved_pair X G files) w ≡ (v, done)
      → SamePair v.files files
  unfolding restore
  restore-SamePair files w h =
      let (w1, e1, h1) = and_then-done (restore_file X verge (files verge) w) _ h in
      let (w2, e2, h2) = and_then-done (restore_file X marker (files marker) w1) _ h1 in
      let puts1 = restore_file-Puts X verge (files verge) w e1 in
      let puts2 = restore_file-Puts X marker (files marker) w1 e2 in
      subst (λ u. SamePair u.files files) (ap (λ r. r.0) h2)
        (puts2 verge ∙ puts1 verge, puts2 marker)

  -- What the files and the rest are after the settings were to be written.
  abbrev pub IsPersisted :
      (Switching O → Reply) → CoreKind → Switching O → Switching O × StoppedResult → Type 0
  IsPersisted guard target w (v, selected) =
      OnlyFiles X w v
      × ((text : String) × (G.insert_proxy_core target (w.files verge) ≡ some text)
          × (v.files verge ≡ some text))
      × (v.files marker ≡ marker_for X G target)
      × (guard v ≡ done)
      × SamePair (G.elsewhere w) w.files
  IsPersisted guard target w (v, unselected e) =
      OnlyFiles X w v × ((v ≡ w) ⊎ SamePair v.files (G.elsewhere w))
  IsPersisted guard target w (v, unrestored e r) = OnlyFiles X w v

  module _ (guard : Switching O → Reply) (target : CoreKind) where
    abbrev ran : String → Switching O → Switching O × Reply
    ran = publish X G guard target

    publish_only : (text : String) (w : Switching O) → OnlyFiles X w (ran text w).0
    unfolding publish
    publish_only text w =
        only_then w (restore_file X marker (marker_for X G target) w) _
          (restore_file_only marker (marker_for X G target) w)
          (λ v.
            only_then v (v, guard v) _ refl
              (λ u.
                only_then u (write_file X verge (some text) u) _ (write_only verge (some text) u)
                  (λ t. refl)))

    publish-done :
        (text : String) (w : Switching O) {v : Switching O}
        → ran text w ≡ (v, done)
        → (v.files verge ≡ some text) × (v.files marker ≡ marker_for X G target) × (guard v ≡ done)
    unfolding publish
    publish-done text w {v = v} h =
        let (u, e, h1) = and_then-done (restore_file X marker (marker_for X G target) w) _ h in
        let (g, h2) = and_then-checked (guard u) u _ h1 in
        let (t, f, h3) = and_then-done (write_file X verge (some text) u) _ h2 in
        let puts = write_file-Puts X verge (some text) u f in
        subst
          (λ s.
            (s.files verge ≡ some text)
            × (s.files marker ≡ marker_for X G target)
            × (guard s ≡ done))
          (ap (λ r. r.0) h3)
          (
            puts verge,
            puts marker ∙ restore_file-Puts X marker (marker_for X G target) w e marker,
            ap (λ r. r.1) h3,
          )

    module _ (w : Switching O) (text : String)
        (staged : G.insert_proxy_core target (w.files verge) ≡ some text) where
      abbrev other : Switching O
      other = record w { files = G.elsewhere w }

      restored_pair :
          (e : String) (r : Switching O × Reply)
          → OnlyFiles X w r.0
          → ((v : Switching O) → r ≡ (v, done) → SamePair v.files (G.elsewhere w))
          → IsPersisted guard target w (after_restore X G guard target e r)
      restored_pair e (v, done) only same = (only, inr (same v refl))
      restored_pair e (v, error m) only same = only

      published :
          (r : Switching O × Reply)
          → SamePair (G.elsewhere w) w.files
          → OnlyFiles X w r.0
          → ((v : Switching O)
              → r ≡ (v, done)
              → (v.files verge ≡ some text)
                × (v.files marker ≡ marker_for X G target)
                × (guard v ≡ done))
          → IsPersisted guard target w (after_publish X G guard target w.files r)
      unfolding after_publish
      published (v, done) pair only facts =
          let (chosen, marked, guarded) = facts v refl in
          (only, (text, staged, chosen), marked, guarded, pair)
      published (v, error e) (a, b) only facts =
          restored_pair e (restore X (saved_pair X G w.files) v)
            (restore_only (saved_pair X G w.files) v
              ∙ ap (refile (restore X (saved_pair X G w.files) v).0.files) only)
            (λ u h. let (c, d) = restore-SamePair w.files v h in (c ∙ sym a, d ∙ sym b))

      checked_published :
          (r : Reply)
          → IsPersisted guard target w (publish_checked X G guard target w.files text other r)
      unfolding publish after_publish publish_checked
      checked_published (error e) = (refl, inr (refl, refl))
      checked_published done =
          either_if (IsPersisted guard target w) (same_pair X G (G.elsewhere w) w.files)
            (λ e.
              published (ran text other) (same_pair-SamePair (G.elsewhere w) w.files e)
                (publish_only text other) (λ v. publish-done text other))
            (λ e. (refl, inr (refl, refl)))

    pub persist_lem :
        (w : Switching O)
        → IsPersisted guard target w (persist_stopped_selection X G guard target w)
    unfolding persist_stopped_selection
    persist_lem w = elim (Option-cases (G.insert_proxy_core target (w.files verge))) [
      | inl e ↦ rw (e, persist_stopped_selection) (refl, inl refl)
      | inr (text, e) ↦ elim (Option-cases (G.stage_error w)) [
        | inl f ↦
            rw (e, f, persist_stopped_selection)
              (checked_published w text e (guard (record w { files = G.elsewhere w })))
        | inr (m, f) ↦ rw (e, f, persist_stopped_selection) (refl, inl refl)
      ]
    ]

-- ===== src/Manager/Switch/Disk.antt =====
-- The operations on the files in `apply_prepared_core`: what they leave where they succeed.
use clash_verge_cli.Prelude.{
  String, ◌≡◌, refl, sym, ap, ◌∙◌, subst, inl, inr, true, Option, none, some, Bool-cases,
  Option-cases,
}
use clash_verge_cli.Subscribe.Scheduler.{CoreKind, mihomo, sing_box}
use clash_verge_cli.Subscribe.Refresh.{done}
use clash_verge_cli.Manager.Switch.{
  FilePath, config, verge, marker, candidate, is_path, Files, put, Switching, Outside,
}
use clash_verge_cli.Manager.Switch.Apply.{write_file, remove_file, capture, restore_file, restore}
use clash_verge_cli.Manager.Switch.Steps.{and_then-done}

is_path_sound : (p q : FilePath) → is_path p q ≡ true → p ≡ q
is_path_sound (config mihomo) (config mihomo) h = refl
is_path_sound (config mihomo) (config sing_box) h = cc
is_path_sound (config sing_box) (config mihomo) h = cc
is_path_sound (config sing_box) (config sing_box) h = refl
is_path_sound verge verge h = refl
is_path_sound marker marker h = refl
is_path_sound candidate candidate h = refl
is_path_sound (config k) verge h = cc
is_path_sound (config k) marker h = cc
is_path_sound (config k) candidate h = cc
is_path_sound verge (config k) h = cc
is_path_sound verge marker h = cc
is_path_sound verge candidate h = cc
is_path_sound marker (config k) h = cc
is_path_sound marker verge h = cc
is_path_sound marker candidate h = cc
is_path_sound candidate (config k) h = cc
is_path_sound candidate verge h = cc
is_path_sound candidate marker h = cc

-- taking away a file that is not there changes nothing
put-absent :
    (p : FilePath) (files : Files) → files p ≡ none → (q : FilePath) → files q ≡ put p none files q
put-absent p files h q = elim (Bool-cases (is_path p q)) [
  | inl e ↦ rw (e) (subst (λ r. files r ≡ none) (is_path_sound p q e) h)
  | inr e ↦ rw (e) refl
]

module _ {O : Type 0} (X : Outside O) where
  -- The files after an operation on one of them that succeeds.
  abbrev pub Puts : FilePath → Option String → Switching O → Switching O → Type 0
  Puts p bytes w v = (q : FilePath) → v.files q ≡ put p bytes w.files q

  pub write_file-Puts :
      (p : FilePath) (bytes : Option String) (w : Switching O) {v : Switching O}
      → write_file X p bytes w ≡ (v, done)
      → Puts p bytes w v
  write_file-Puts p bytes w {v = v} = elim (Option-cases (X.io_error p w)) [
    | inl e ↦ rw (e, write_file) (λ h q. ap (λ r. r.0.files q) (sym h))
    | inr (m, e) ↦ rw (e, write_file) (λ h. cc)
  ]

  pub remove_file-Puts :
      (p : FilePath) (w : Switching O) {v : Switching O}
      → remove_file X p w ≡ (v, done)
      → Puts p none w v
  unfolding remove_file
  remove_file-Puts p w {v = v} = elim (Option-cases (w.files p)) [
    | inl e ↦ rw (e, remove_file) (λ h q. ap (λ r. r.0.files q) (sym h) ∙ put-absent p w.files e q)
    | inr (b, e) ↦ rw (e, remove_file) (write_file-Puts p none w)
  ]

  pub restore_file-Puts :
      (p : FilePath) (bytes : Option String) (w : Switching O) {v : Switching O}
      → restore_file X p bytes w ≡ (v, done)
      → Puts p bytes w v
  unfolding restore_file
  restore_file-Puts p none w = remove_file-Puts p w
  restore_file-Puts p (some b) w = write_file-Puts p (some b) w

  abbrev pub SameFiles : CoreKind → Files → Files → Type 0
  SameFiles target f g =
      (f (config target) ≡ g (config target)) × (f verge ≡ g verge) × (f marker ≡ g marker)

  same_after_puts :
      (target : CoreKind) (before f f1 f2 f3 : Files)
      → ((q : FilePath) → f1 q ≡ put (config target) (before (config target)) f q)
      → ((q : FilePath) → f2 q ≡ put verge (before verge) f1 q)
      → ((q : FilePath) → f3 q ≡ put marker (before marker) f2 q)
      → SameFiles target f3 before
  same_after_puts mihomo before f f1 f2 f3 a b c =
      (c (config mihomo) ∙ b (config mihomo) ∙ a (config mihomo), c verge ∙ b verge, c marker)
  same_after_puts sing_box before f f1 f2 f3 a b c =
      (c (config sing_box) ∙ b (config sing_box) ∙ a (config sing_box), c verge ∙ b verge, c marker)

  pub restore-SameFiles :
      (target : CoreKind) (before : Files) (w : Switching O) {v : Switching O}
      → restore X (capture X target before) w ≡ (v, done)
      → SameFiles target v.files before
  unfolding restore capture
  restore-SameFiles target before w h =
      let (w1, e1, h1) =
        and_then-done (restore_file X (config target) (before (config target)) w) _ h in
      let (w2, e2, h2) = and_then-done (restore_file X verge (before verge) w1) _ h1 in
      let (w3, e3, h3) = and_then-done (restore_file X marker (before marker) w2) _ h2 in
      subst (λ u. SameFiles target u.files before) (ap (λ r. r.0) h3)
        (same_after_puts target before w.files w1.files w2.files w3.files
          (restore_file-Puts (config target) (before (config target)) w e1)
          (restore_file-Puts verge (before verge) w1 e2)
          (restore_file-Puts marker (before marker) w2 e3))

  -- A step that changes nothing but the files.
  abbrev pub OnlyFiles : Switching O → Switching O → Type 0
  OnlyFiles w v = v ≡ record w { files = v.files }

  pub write_file-OnlyFiles :
      (p : FilePath) (bytes : Option String) (w : Switching O) {v : Switching O}
      → write_file X p bytes w ≡ (v, done)
      → OnlyFiles w v
  write_file-OnlyFiles p bytes w {v = v} = elim (Option-cases (X.io_error p w)) [
    | inl e ↦ rw (e, write_file) (λ h. subst (λ u. OnlyFiles w u) (ap (λ r. r.0) h) refl)
    | inr (m, e) ↦ rw (e, write_file) (λ h. cc)
  ]

  pub remove_file-OnlyFiles :
      (p : FilePath) (w : Switching O) {v : Switching O}
      → remove_file X p w ≡ (v, done)
      → OnlyFiles w v
  unfolding remove_file
  remove_file-OnlyFiles p w {v = v} = elim (Option-cases (w.files p)) [
    | inl e ↦ rw (e, remove_file) (λ h. subst (λ u. OnlyFiles w u) (ap (λ r. r.0) h) refl)
    | inr (b, e) ↦ rw (e, remove_file) (write_file-OnlyFiles p none w)
  ]

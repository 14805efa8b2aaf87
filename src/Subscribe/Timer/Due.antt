-- ===== src/Subscribe/Timer/Due.antt =====
-- Exactly the profiles whose interval has elapsed are due, timer.rs.
use clash_verge_cli.Prelude.{
  String, ◌≡◌, ◌≢◌, ◌↔◌, inl, inr, false, some, List, arith, eq_refl, ℕ, ◌+◌, ◌*◌, ◌≤◌, ◌<◌, min,
  is_text_iff, Option-cases, unwrap_or, Member, Member-filter_map, filter_map-Member,
}
use clash_verge_cli.Profiles.Item.{PrfOption, PrfItem}
use clash_verge_cli.Subscribe.Timer.{u64_max, due_uid, due_remote_uids}

module _ {M : Type 0} where
  -- A remote profile with automatic updates not switched off and a positive interval, which has
  -- passed since the last update.
  pub record IsDue (now : ℕ) (item : PrfItem M) (uid : String) : Type 0 where
    pub option : PrfOption M
    pub interval : ℕ
    pub remote : item.itype ≡ some "remote"
    pub has_option : item.option ≡ some option
    pub allowed : option.allow_auto_update ≢ some false
    pub has_interval : option.update_interval ≡ some interval
    pub positive_interval : 0 < interval
    pub elapsed : min (unwrap_or 0 item.updated + min (interval * 60) u64_max) u64_max ≤ now
    pub has_uid : item.uid ≡ some uid

  due_uid_sound :
      (now : ℕ) (item : PrfItem M) {uid : String} → due_uid now item ≡ some uid → IsDue now item uid
  unfolding due_uid
  due_uid_sound now item {uid} h = elim (Option-cases item.option) [
    | inl e ↦ ground (arith, e)
    | inr (option, e) ↦ elim (Option-cases option.update_interval) [
      | inl i ↦ ground (arith, e, i)
      | inr (interval, i) ↦ record {
        option = option;
        interval = interval;
        remote = ground (arith, is_text_iff item.itype "remote");
        has_option = e;
        allowed = ground arith;
        has_interval = i;
        positive_interval = ground arith;
        elapsed = ground arith;
        has_uid = ground arith;
      }
    ]
  ]

  due_uid_complete :
      (now : ℕ) (item : PrfItem M) {uid : String} → IsDue now item uid → due_uid now item ≡ some uid
  unfolding due_uid
  due_uid_complete now item d = ground (arith, eq_refl "remote")

  -- The result lists the uids of the due profiles, and nothing else.
  pub due_remote_uids_iff :
      (now : ℕ) (items : List (PrfItem M)) (uid : String)
      → Member uid (due_remote_uids now items)
        ↔ ((item : PrfItem M) × Member item items × IsDue now item uid)
  unfolding due_remote_uids
  due_remote_uids_iff now items uid = (
    (λ m.
        let (item, n, h) = Member-filter_map (due_uid now) items m in
        (item, n, due_uid_sound now item h)),
    λ (item, n, d). filter_map-Member (due_uid now) items n (due_uid_complete now item d),
  )

-- ===== src/Profiles/Item.antt =====
-- A profile and its options, crates/clash-verge-core/src/config/prfitem.rs. `M` is the type of YAML
-- mappings of serde_yaml_ng. The numbers are `u64` and `usize` of 64 bits.
use clash_verge_cli.Prelude.{String, Bool, Option, none, some, List, ℕ, or_else}

pub record PrfSelected (M : Type 0) : Type 0 where
  pub name : Option String
  pub now : Option String
  pub unknown_fields : M

pub record PrfExtra (M : Type 0) : Type 0 where
  pub upload : ℕ
  pub download : ℕ
  pub total : ℕ
  pub expire : ℕ
  pub unknown_fields : M

pub record PrfOption (M : Type 0) : Type 0 where
  pub user_agent : Option String
  pub with_proxy : Option Bool
  pub self_proxy : Option Bool
  pub update_interval : Option ℕ
  pub timeout_seconds : Option ℕ
  pub danger_accept_invalid_certs : Option Bool
  pub allow_auto_update : Option Bool
  pub merge : Option String
  pub script : Option String
  pub rules : Option String
  pub proxies : Option String
  pub groups : Option String
  pub trusted_hosts : Option (List String)
  pub unknown_fields : M

pub record PrfItem (M : Type 0) : Type 0 where
  pub uid : Option String
  pub itype : Option String
  pub name : Option String
  pub file : Option String
  pub desc : Option String
  pub url : Option String
  pub selected : Option (List (PrfSelected M))
  pub extra : Option (PrfExtra M)
  pub updated : Option ℕ
  pub option : Option (PrfOption M)
  pub home : Option String
  pub file_data : Option String
  pub unknown_fields : M

-- `PrfOption::merge`, where `overlay` is `merge_unknown_fields`
unfoldable pub merge_option :
    {M : Type 0} → (M → M → M) → Option (PrfOption M) → Option (PrfOption M) → Option (PrfOption M)
merge_option overlay (some a) (some b) = some (record {
  user_agent = or_else b.user_agent a.user_agent;
  with_proxy = or_else b.with_proxy a.with_proxy;
  self_proxy = or_else b.self_proxy a.self_proxy;
  update_interval = or_else b.update_interval a.update_interval;
  timeout_seconds = or_else b.timeout_seconds a.timeout_seconds;
  danger_accept_invalid_certs = or_else b.danger_accept_invalid_certs a.danger_accept_invalid_certs;
  allow_auto_update = or_else b.allow_auto_update a.allow_auto_update;
  merge = or_else b.merge a.merge;
  script = or_else b.script a.script;
  rules = or_else b.rules a.rules;
  proxies = or_else b.proxies a.proxies;
  groups = or_else b.groups a.groups;
  trusted_hosts = or_else b.trusted_hosts a.trusted_hosts;
  unknown_fields = overlay a.unknown_fields b.unknown_fields;
})
merge_option overlay (some a) none = some a
merge_option overlay none (some b) = some b
merge_option overlay none none = none

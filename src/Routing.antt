-- ===== src/Routing.antt =====
-- The model of a route rule, src-tui/src/routing.rs. A text is the list of its code points.
pub mod Geo
pub mod Clash
use clash_verge_cli.Prelude.{List, ℕ, Text, codes}

pub data GeoKind : Type 0 where
  ip : GeoKind
  site : GeoKind

unfoldable pub clash_header : GeoKind → Text
clash_header ip = codes "GEOIP"
clash_header site = codes "GEOSITE"

pub data MatchField : Type 0 where
  domain : Text → MatchField
  domain_suffix : Text → MatchField
  domain_keyword : Text → MatchField
  ip_cidr : Text → MatchField
  port : ℕ → MatchField
  process : Text → MatchField
  rule_set : Text → MatchField
  geo_set : GeoKind → Text → MatchField

pub data RuleTarget : Type 0 where
  outbound : Text → RuleTarget
  direct : RuleTarget
  block : RuleTarget

pub data LogicOp : Type 0 where
  and_op : LogicOp
  or_op : LogicOp

mutual
  pub data IRouteRule : Type 0 where
    simple : List MatchField → RuleTarget → IRouteRule
    logical : LogicOp → RouteRules → RuleTarget → IRouteRule
    raw : Text → IRouteRule

  -- `Vec<IRouteRule>`
  pub data RouteRules : Type 0 where
    none_left : RouteRules
    one_more : IRouteRule → RouteRules → RouteRules

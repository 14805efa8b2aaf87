-- ===== src/Subscribe/Delay.antt =====
-- Delay tests of a node and how scheduler.rs reads their results; the error of
-- src-tui/src/mihomo_api/error.rs. `http` and `io` carry errors of other libraries, whose content
-- no code here reads.
use clash_verge_cli.Prelude.{
  String, ◌≡◌, refl, ◌↔◌, ◌⊎◌, inl, inr, ◌||◌, arith, ℕ, ltb, eqb, if◌then◌else◌,
}

pub data MihomoError : Type 0 where
  core_down : String → MihomoError
  unauthorized : MihomoError
  not_found : String → MihomoError
  http_status : ℕ → String → MihomoError
  parse : String → MihomoError
  http : String → MihomoError
  operation_timeout : String → String → MihomoError
  unsupported_core_operation : String → String → MihomoError
  io : String → MihomoError
  invalid_uri : String → MihomoError

pub record ProxyDelay : Type 0 where
  pub delay : ℕ

pub data DelayResult : Type 0 where
  measured : ProxyDelay → DelayResult
  failed : MihomoError → DelayResult

pub data ProbeVerdict : Type 0 where
  alive dead api_issue : ProbeVerdict

unfoldable pub classify_delay : DelayResult → ProbeVerdict
classify_delay (measured d) = if ltb 0 d.delay then alive else dead
classify_delay (failed (core_down _)) = api_issue
classify_delay (failed unauthorized) = api_issue
classify_delay (failed (operation_timeout _ _)) = api_issue
classify_delay (failed (http_status status _)) =
    if eqb status 503 || eqb status 504 then dead else api_issue
classify_delay (failed _) = api_issue

-- A node counts as dead only if the controller answered: with no delay, or that the test failed.
abbrev pub NodeFailed : DelayResult → Type 0
NodeFailed r =
    (r ≡ measured (record { delay = 0 }))
    ⊎ ((status : ℕ) × (body : String) × (r ≡ failed (http_status status body))
        × ((status ≡ 503) ⊎ (status ≡ 504)))

classify_delay-dead : (r : DelayResult) → classify_delay r ≡ dead → NodeFailed r
unfolding classify_delay
classify_delay-dead (measured d) h = ground arith
classify_delay-dead (failed (http_status status body)) h = inr (status, body, refl, ground arith)
classify_delay-dead (failed _) h = cc

dead-classify_delay : (r : DelayResult) → NodeFailed r → classify_delay r ≡ dead
unfolding classify_delay
dead-classify_delay r (inl e) = rw e refl
dead-classify_delay r (inr (status, body, e, code)) = rw e (ground arith)

-- A delay test counts against the node exactly if the controller answered that there is no delay, or
-- that the test failed or timed out. A controller that is down, refuses the secret or does not
-- answer never counts.
pub classify_delay-dead_iff : (r : DelayResult) → (classify_delay r ≡ dead) ↔ NodeFailed r
classify_delay-dead_iff r = (classify_delay-dead r, dead-classify_delay r)

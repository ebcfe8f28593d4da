-- ===== src/Gateway/Refusal.antt =====
-- gateway-service/src/app.ts: `requestRefusal` and the middleware that counts requests.
pub mod Bounds
pub mod Rate
use stellar_facilitator.Common.{
  ℕ, suc, ◌-◌, String, Bool, true, false, Option, none, some, List, [], ◌∷◌, ◌==◌, string_eq,
  truthy, if◌then◌else◌, leb, ltb, map_get, map_set,
}
use stellar_facilitator.Gateway.{GatewayLifecycle, GatewayConfig}

pub record RateWindow : Type 0 where
  pub started_at : ℕ
  pub count : ℕ

pub record Limits : Type 0 where
  pub active_requests : ℕ
  pub rate_windows : List (String × RateWindow)

abbrev pub no_requests : Limits
no_requests = record { active_requests = 0; rate_windows = [] }

pub record Refusal : Type 0 where
  pub status : ℕ
  pub code : String
  pub retryable : Bool

abbrev pub is_active : GatewayLifecycle → Bool
is_active GatewayLifecycle.active = true
is_active _ = false

abbrev pub has_expired : Option ℕ → ℕ → Bool
has_expired none now = false
has_expired (some expiry) now = leb expiry now

-- The first entry of X-Forwarded-For, trimmed, is `none` without the header.
abbrev pub client_key : Option String → String
client_key none = "unknown"
client_key (some key) = if truthy key then key else "unknown"

abbrev pub refuses : Option Refusal → Bool
refuses none = false
refuses (some refusal) = true

unfoldable pub count_unless_refused : Option Refusal → Limits → Limits
count_unless_refused (some refusal) s = s
count_unless_refused none s = record s { active_requests = suc s.active_requests }

module _ (config : GatewayConfig) where
  abbrev fresh : ℕ → RateWindow
  fresh now = record { started_at = now; count = 0 }

  unfoldable pub current_window : ℕ → Option RateWindow → RateWindow
  current_window now none = fresh now
  current_window now (some w) = if leb config.window_ms (now - w.started_at) then fresh now else w

  abbrev pub counted : RateWindow → RateWindow
  counted w = record w { count = suc w.count }

  unfoldable pub request_refusal : String → ℕ → Limits → Option Refusal × Limits
  request_refusal key now s =
      let w = counted (current_window now (map_get key s.rate_windows)) in
      let t = record s { rate_windows = map_set key w s.rate_windows } in
      if is_active config.state
      then if has_expired config.expires_at now
        then (some (record { status = 410; code = "gateway_disabled"; retryable = false }), s)
        else if leb config.max_concurrent_requests s.active_requests
        then (some (record { status = 429; code = "rate_limited"; retryable = true }), s)
        else if ltb config.max w.count
        then (some (record { status = 429; code = "rate_limited"; retryable = true }), t)
        else (none, t)
      else (some (record { status = 503; code = "gateway_disabled"; retryable = false }), s)

  -- The middleware: a request that is not refused is counted while its handler runs.
  unfoldable pub enter : String → ℕ → Limits → Option Refusal × Limits
  enter key now s = let r = request_refusal key now s in (r.0, count_unless_refused r.0 r.1)

unfoldable pub leave : Limits → Limits
leave s = record s { active_requests = s.active_requests - 1 }

-- ===== src/Liveness.antt =====
-- bazaar-service/src/telemetry/circuit-breaker.ts: `LivenessCircuitBreaker`, and in tracker.ts beside it
-- the statement of `pruneOfflineNodes`, by whose column a search selects in search/engine.ts.
--
-- An elapsed time is an `Option ℕ`, where `none` is the infinity that stands for a missing timestamp;
-- a timestamp in the future, whose elapsed time is negative, counts as 0, which every test treats
-- alike. A multiplier is in tenths, and a ratio a fraction.
pub mod Decay
mod Tests
use stellar_facilitator.Common.{
  ℕ, ◌+◌, ◌-◌, ◌*◌, ◌/◌, Bool, true, false, ◌||◌, Option, none, some, if◌then◌else◌, ltb, leb,
}

pub data LivenessStatus : Type 0 where
  healthy degraded offline : LivenessStatus

pub record LivenessConfig : Type 0 where
  pub heartbeat_interval_ms : ℕ
  pub max_missed_heartbeats : ℕ
  -- `SETTLEMENT_LIVENESS_WINDOW_MS`, read from the environment.
  pub settlement_window_ms : ℕ

unfoldable pub default_liveness_config : LivenessConfig
default_liveness_config = record {
  heartbeat_interval_ms = 30000;
  max_missed_heartbeats = 3;
  settlement_window_ms = 86400000;
}

abbrev pub elapsed : Option ℕ → ℕ → Option ℕ
elapsed none now = none
elapsed (some at) now = some (now - at)

-- `elapsed ≤ bound`
abbrev pub within : Option ℕ → ℕ → Bool
within none bound = false
within (some e) bound = leb e bound

module _ (config : LivenessConfig) where
  -- `Math.floor(elapsed / interval)`
  abbrev pub missed_pings : Option ℕ → Option ℕ
  missed_pings none = none
  missed_pings (some e) = some (e / config.heartbeat_interval_ms)

  unfoldable pub status_after : Option ℕ → Option ℕ → LivenessStatus
  status_after heartbeat_elapsed settlement_elapsed =
      if within (missed_pings heartbeat_elapsed) 0
        || within settlement_elapsed config.settlement_window_ms
      then healthy
      else if within (missed_pings heartbeat_elapsed) config.max_missed_heartbeats
          || within settlement_elapsed (config.settlement_window_ms * 7)
      then degraded
      else offline

  unfoldable pub evaluate_resource_status : Option ℕ → Option ℕ → ℕ → LivenessStatus
  unfolding status_after
  evaluate_resource_status last_heartbeat last_settlement now =
      status_after (elapsed last_heartbeat now) (elapsed last_settlement now)

  unfoldable pub evaluate_node_status : ℕ → ℕ → LivenessStatus
  evaluate_node_status last_seen now = evaluate_resource_status (some last_seen) none now

  unfoldable pub get_expected_pings_in_window : ℕ → ℕ
  get_expected_pings_in_window window_ms = window_ms / config.heartbeat_interval_ms

-- `at >= now() - interval`, on whole milliseconds; it does not hold of a missing time.
abbrev pub since : Option ℕ → ℕ → ℕ → Bool
since none interval now = false
since (some at) interval now = leb now (at + interval)

-- The `CASE` of `pruneOfflineNodes`.
unfoldable pub stored_status : LivenessConfig → Option ℕ → Option ℕ → ℕ → LivenessStatus
stored_status config last_heartbeat last_settlement now =
    if since last_heartbeat config.heartbeat_interval_ms now
    then healthy
    else if since last_settlement config.settlement_window_ms now
    then healthy
    else if since last_heartbeat (config.heartbeat_interval_ms * config.max_missed_heartbeats) now
    then degraded
    else if since last_settlement (config.settlement_window_ms * 7) now
    then degraded
    else offline

-- `COALESCE(t.liveness_status, 'HEALTHY') <> 'OFFLINE'`, where a resource may have no telemetry.
unfoldable pub is_searched : Option LivenessStatus → Bool
is_searched none = true
is_searched (some healthy) = true
is_searched (some degraded) = true
is_searched (some offline) = false

unfoldable pub get_search_multiplier : LivenessStatus → ℕ
get_search_multiplier healthy = 10
get_search_multiplier degraded = 3
get_search_multiplier offline = 0

-- No other code calls it.
unfoldable pub should_include_in_search : LivenessStatus → Bool
should_include_in_search offline = false
should_include_in_search _ = true

-- Numerator and denominator.
unfoldable pub calculate_uptime_ratio : ℕ → ℕ → ℕ × ℕ
calculate_uptime_ratio successful expected =
    if leb expected 0
    then (1, 1)
    else if leb expected successful
    then (1, 1)
    else (successful, expected)

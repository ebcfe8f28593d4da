-- ===== src/Liveness/Tests.antt =====
-- The circuit breaker's theorems at concrete inputs.
use stellar_facilitator.Common.{◌≡◌, ◌↔◌, ◌⊎◌, true, none, some, arith}
use stellar_facilitator.Liveness.{
  LivenessConfig, evaluate_resource_status, should_include_in_search, stored_status, is_searched,
}
use stellar_facilitator.Liveness.Decay.{IsKept, IsLate, searched_iff}

abbrev config : LivenessConfig
config = record {
  heartbeat_interval_ms = 30000;
  max_missed_heartbeats = 3;
  settlement_window_ms = 86400000;
}

-- A heartbeat of 100 seconds ago, when three intervals of 30 seconds are allowed.
searched_iff_example :
    ((is_searched (some (stored_status config (some 5000) none 105000)) ≡ true)
      ↔ IsKept config (some 5000) none 105000)
    × ((should_include_in_search (evaluate_resource_status config (some 5000) none 105000) ≡ true)
        ↔ (IsKept config (some 5000) none 105000 ⊎ IsLate config (some 5000) 105000))
searched_iff_example = searched_iff config (some 5000) none 105000 (omega arith) (omega arith)

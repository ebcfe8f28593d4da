-- ===== src/RateLimit/Tests.antt =====
-- The rate limit's theorem at a concrete input.
use stellar_facilitator.Common.{ℕ, ◌*◌, ◌≤◌, String, List, [], ◌∷◌, arith}
use stellar_facilitator.RateLimit.{RateLimitOptions, Window}
use stellar_facilitator.RateLimit.Bounds.{admitted, admitted-bound}

abbrev options : RateLimitOptions
options = record { window_ms = 1000; max = 2 }

-- A client whose window is about to end, among another's requests.
abbrev requests : List (String × ℕ)
requests = ("A", 100) ∷ ("B", 150) ∷ ("A", 200) ∷ ("A", 900) ∷ []

abbrev windows : List (String × Window)
windows = ("A", record { count = 0; reset_at = 150 }) ∷ []

admitted-bound_example : admitted options "A" requests windows ≤ 2 * 2
admitted-bound_example = admitted-bound options "A" 1050 requests windows (
  (omega arith, omega arith),
  ((omega arith, omega arith), ((omega arith, omega arith), ((omega arith, omega arith), tt))),
)

-- ===== src/RateLimit.antt =====
-- facilitator-service/src/rate-limit.ts: `rateLimit` and `getClientIp`.
--
-- The map of windows is an association list. The text of the answer and the log hook are left out.
pub mod Bounds
mod Tests
use stellar_facilitator.Common.{
  ℕ, zero, suc, ◌+◌, ◌-◌, ◌/◌, String, Bool, true, false, not, Option, none, some, List, [], ◌∷◌,
  ◌==◌, string_eq, nat_eq, truthy, if◌then◌else◌, leb, ltb, filter, get_elem?, length, map, map_get,
  map_set,
}

pub record RateLimitOptions : Type 0 where
  pub window_ms : ℕ
  pub max : ℕ

pub record Window : Type 0 where
  pub count : ℕ
  pub reset_at : ℕ

-- What of the request the client's address is read from. `none` stands for a missing header or
-- socket; `forwarded` is the header, and its parts behind `split`, `trim` and `filter`.
pub record Request : Type 0 where
  pub socket_address : Option String
  pub forwarded : Option (String × List String)
  pub real_ip : Option String
  -- `realIp.trim()`
  pub real_ip_trimmed : String

abbrev or_else : Option String → String → String
or_else none other = other
or_else (some s) other = if truthy s then s else other

abbrev socket_of : Request → String
socket_of c = elim c.socket_address [ none ↦ "unknown" | some address ↦ address ]

abbrev pub has_header : Option String → Bool
has_header none = false
has_header (some s) = truthy s

unfoldable pub direct_ip : Request → String
direct_ip c =
    if not (socket_of c == "unknown")
    then socket_of c
    else if has_header c.real_ip
    then c.real_ip_trimmed
    else "unknown"

unfoldable pub forwarded_ip : ℕ → Request → List String → String
forwarded_ip trusted_proxies c parts =
    or_else (get_elem? parts (length parts - trusted_proxies))
      (or_else (get_elem? parts 0) (socket_of c))

unfoldable pub get_client_ip : ℕ → Request → String
get_client_ip trusted_proxies c = if trusted_proxies == 0 then direct_ip c else elim c.forwarded [
  | some (text, parts) ↦
      if truthy text
      then forwarded_ip trusted_proxies c parts
      else if has_header c.real_ip
      then c.real_ip_trimmed
      else direct_ip c
  | none ↦ if has_header c.real_ip then c.real_ip_trimmed else direct_ip c
]

-- The timer.
unfoldable pub sweep : ℕ → List (String × Window) → List (String × Window)
sweep now ws = filter (λ e. not (leb e.1.reset_at now)) ws

-- The answer's headers, and whether it is the 429.
pub record Verdict : Type 0 where
  pub limited : Bool
  pub limit : ℕ
  pub remaining : ℕ
  pub reset_seconds : ℕ

module _ (options : RateLimitOptions) where
  abbrev pub fresh_window : ℕ → Window
  fresh_window now = record { count = 0; reset_at = now + options.window_ms }

  -- The window that the request is counted in, before it is.
  unfoldable pub open_window : ℕ → Option Window → Window
  open_window now none = fresh_window now
  open_window now (some w) = if leb w.reset_at now then fresh_window now else w

  abbrev pub counted : Window → Window
  counted w = record w { count = suc w.count }

  unfoldable pub verdict : ℕ → Window → Verdict
  verdict now w = record {
    limited = ltb options.max w.count;
    limit = options.max;
    remaining = options.max - w.count;
    reset_seconds = ((w.reset_at - now) + 999) / 1000;
  }

  -- One request, by the key of its client.
  unfoldable pub rate_limit : String → ℕ → List (String × Window) → Verdict × List (String × Window)
  rate_limit key now windows =
      let w = counted (open_window now (map_get key windows)) in
      (verdict now w, map_set key w windows)

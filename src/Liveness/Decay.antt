-- ===== src/Liveness/Decay.antt =====
-- circuit-breaker.ts: how the status of a silent resource decays.
use stellar_facilitator.Common.{
  ℕ, suc, ◌+◌, ◌-◌, ◌*◌, ◌/◌, ◌≤◌, ◌<◌, ◌≡◌, refl, ◌↔◌, ◌⊎◌, inl, inr, Bool, true, false, ◌||◌,
  Option, none, some, if◌then◌else◌, leb, arith,
}
use native.Mathlib.Nat.{div-lt_iff_lt-mul, mul-le-mul_right}
use stellar_facilitator.Liveness.{
  LivenessStatus, healthy, degraded, offline, LivenessConfig, elapsed, within, missed_pings,
  status_after, evaluate_resource_status, should_include_in_search, since, stored_status,
  is_searched,
}

-- The last settlement is at most `bound` milliseconds old.
abbrev pub IsRecentSettlement : ℕ → Option ℕ → ℕ → Type 0
IsRecentSettlement bound none now = ⊥
IsRecentSettlement bound (some at) now = now - at ≤ bound

abbrev graded : Bool → Bool → LivenessStatus
graded alive fading = if alive then healthy else if fading then degraded else offline

graded-healthy : (alive fading : Bool) → (graded alive fading ≡ healthy) ↔ (alive ≡ true)
graded-healthy true fading = (λ e. refl, λ e. refl)
graded-healthy false true = (λ e. absurd (ground arith), λ e. absurd (ground arith))
graded-healthy false false = (λ e. absurd (ground arith), λ e. absurd (ground arith))

graded-included :
    (alive fading : Bool)
    → (should_include_in_search (graded alive fading) ≡ true) ↔ ((alive || fading) ≡ true)
unfolding should_include_in_search
graded-included true fading = (λ e. refl, λ e. refl)
graded-included false true = (λ e. refl, λ e. refl)
graded-included false false = (λ e. e, λ e. e)

module _ (config : LivenessConfig) where
  -- The last heartbeat is less than `beats` + 1 intervals old.
  abbrev pub IsRecentBeat : ℕ → Option ℕ → ℕ → Type 0
  IsRecentBeat beats none now = ⊥
  IsRecentBeat beats (some at) now = now - at < suc beats * config.heartbeat_interval_ms

  beat_iff :
      (beats : ℕ) (at : Option ℕ) (now : ℕ)
      → 0 < config.heartbeat_interval_ms
      → (within (missed_pings config (elapsed at now)) beats ≡ true) ↔ IsRecentBeat beats at now
  beat_iff beats none now h = ((λ e. absurd (ground (arith, e))), (λ e. absurd e))
  beat_iff beats (some at) now h =
      let bound = div-lt_iff_lt-mul {x = now - at} {y = suc beats} h in
      (
        λ e. bound.0 (ground (arith, e)),
        λ e. within_of_lt ((now - at) / config.heartbeat_interval_ms) (bound.1 e),
      )
    where
      within_of_lt : (q : ℕ) → q < suc beats → leb q beats ≡ true
      within_of_lt q e = ground arith

  settlement_iff :
      (bound : ℕ) (at : Option ℕ) (now : ℕ)
      → (within (elapsed at now) bound ≡ true) ↔ IsRecentSettlement bound at now
  settlement_iff bound none now = ((λ e. absurd (ground (arith, e))), (λ e. absurd e))
  settlement_iff bound (some at) now = ground arith

  or_iff :
      {A B : Type 0} (a b : Bool) → (a ≡ true) ↔ A → (b ≡ true) ↔ B → ((a || b) ≡ true) ↔ (A ⊎ B)
  or_iff true b h k = (λ e. inl (h.0 refl), λ x. refl)
  or_iff false b h k =
      (λ e. inr (k.0 e), λ x. elim x [ inl p ↦ absurd (ground (arith, h.1 p)) | inr q ↦ k.1 q ])

  alive_iff :
      (beats bound : ℕ) (heartbeat settlement : Option ℕ) (now : ℕ)
      → 0 < config.heartbeat_interval_ms
      → ((within (missed_pings config (elapsed heartbeat now)) beats
            || within (elapsed settlement now) bound)
          ≡ true)
        ↔ (IsRecentBeat beats heartbeat now ⊎ IsRecentSettlement bound settlement now)
  alive_iff beats bound heartbeat settlement now h =
      or_iff (within (missed_pings config (elapsed heartbeat now)) beats)
        (within (elapsed settlement now) bound) (beat_iff beats heartbeat now h)
        (settlement_iff bound settlement now)

  -- With a positive interval, a resource counts as healthy exactly while its last heartbeat is less
  -- than one interval old or its last settlement at most one window.
  healthy_iff :
      (heartbeat settlement : Option ℕ) (now : ℕ)
      → 0 < config.heartbeat_interval_ms
      → (evaluate_resource_status config heartbeat settlement now ≡ healthy) ↔ (
          IsRecentBeat 0 heartbeat now
          ⊎ IsRecentSettlement config.settlement_window_ms settlement now)
  unfolding evaluate_resource_status status_after
  healthy_iff heartbeat settlement now h =
      let alive = alive_iff 0 config.settlement_window_ms heartbeat settlement now h in
      let grade =
        graded-healthy
          (within (missed_pings config (elapsed heartbeat now)) 0
            || within (elapsed settlement now) config.settlement_window_ms)
          (within (missed_pings config (elapsed heartbeat now)) config.max_missed_heartbeats
            || within (elapsed settlement now) (config.settlement_window_ms * 7)) in
      (λ e. alive.0 (grade.0 e), λ r. grade.1 (alive.1 r))

  sooner :
      (heartbeat settlement : Option ℕ) (now : ℕ)
      → IsRecentBeat 0 heartbeat now ⊎ IsRecentSettlement config.settlement_window_ms settlement now
      → IsRecentBeat config.max_missed_heartbeats heartbeat now
        ⊎ IsRecentSettlement (config.settlement_window_ms * 7) settlement now
  sooner none settlement now (inl r) = absurd r
  sooner (some at) settlement now (inl r) = inl (
      omega (
        arith,
        r,
        mul-le-mul_right {m = 1} {n = suc config.max_missed_heartbeats} config.heartbeat_interval_ms
            (omega arith),
      ))
  sooner heartbeat none now (inr r) = absurd r
  sooner heartbeat (some at) now (inr r) = inr (omega (arith, r))

  -- With a positive interval, the circuit breaker would search a resource exactly while its last heartbeat is less than
  -- the maximum of missed ones and one more intervals old or its last settlement at most seven
  -- windows.
  included_iff :
      (heartbeat settlement : Option ℕ) (now : ℕ)
      → 0 < config.heartbeat_interval_ms
      → (should_include_in_search (evaluate_resource_status config heartbeat settlement now) ≡ true)
        ↔ (IsRecentBeat config.max_missed_heartbeats heartbeat now
            ⊎ IsRecentSettlement (config.settlement_window_ms * 7) settlement now)
  unfolding evaluate_resource_status status_after
  included_iff heartbeat settlement now h =
      let alive = alive_iff 0 config.settlement_window_ms heartbeat settlement now h in
      let fading =
        alive_iff config.max_missed_heartbeats (config.settlement_window_ms * 7) heartbeat
          settlement now h in
      let a : Bool =
        within (missed_pings config (elapsed heartbeat now)) 0
        || within (elapsed settlement now) config.settlement_window_ms in
      let b : Bool =
        within (missed_pings config (elapsed heartbeat now)) config.max_missed_heartbeats
        || within (elapsed settlement now) (config.settlement_window_ms * 7) in
      let grade = graded-included a b in
      let either = or_iff a b alive fading in
      (
        λ e. elim (either.0 (grade.0 e)) [ inl r ↦ sooner heartbeat settlement now r | inr r ↦ r ],
        λ r. grade.1 (either.1 (inr r)),
      )

  -- The last time is at most `bound` milliseconds old.
  since_iff :
      (bound : ℕ) (at : Option ℕ) (now : ℕ)
      → (since at bound now ≡ true) ↔ IsRecentSettlement bound at now
  since_iff bound none now = ((λ e. absurd (ground (arith, e))), (λ e. absurd e))
  since_iff bound (some at) now = ground arith

  -- The two times since which a resource is kept in the search by its stored status.
  abbrev pub IsKept : Option ℕ → Option ℕ → ℕ → Type 0
  IsKept heartbeat settlement now =
      IsRecentSettlement (config.heartbeat_interval_ms * config.max_missed_heartbeats) heartbeat now
      ⊎ IsRecentSettlement (config.settlement_window_ms * 7) settlement now

  -- The last heartbeat is older than the allowed number of intervals, by less than one more.
  abbrev pub IsLate : Option ℕ → ℕ → Type 0
  IsLate none now = ⊥
  IsLate (some at) now =
      (config.heartbeat_interval_ms * config.max_missed_heartbeats < now - at)
      × (now - at
          < config.heartbeat_interval_ms * config.max_missed_heartbeats
            + config.heartbeat_interval_ms)

  is_searched-graded :
      (a b c d : Bool)
      → (is_searched (
            some (
              if a
              then healthy
              else if b
              then healthy
              else if c
              then degraded
              else if d
              then degraded
              else offline))
          ≡ true)
        ↔ (((a || c) || (b || d)) ≡ true)
  unfolding is_searched
  is_searched-graded a b c d = ground arith

  longer :
      (at : Option ℕ) (settlement : Option ℕ) (small big now : ℕ)
      → small ≤ big
      → ((since at small now || since at big now) ≡ true) ↔ IsRecentSettlement big at now
  longer none settlement small big now h = ground arith
  longer (some at) settlement small big now h = ground arith

  searched_lem :
      (heartbeat settlement : Option ℕ) (now : ℕ)
      → 1 ≤ config.max_missed_heartbeats
      → (is_searched (some (stored_status config heartbeat settlement now)) ≡ true)
        ↔ IsKept heartbeat settlement now
  unfolding stored_status
  searched_lem heartbeat settlement now h =
      let i = config.heartbeat_interval_ms in
      let m = config.max_missed_heartbeats in
      let w = config.settlement_window_ms in
      let wider : i ≤ i * m = omega (arith, mul-le-mul_right {m = 1} {n = m} i h) in
      let graded_iff =
        is_searched-graded (since heartbeat i now) (since settlement w now)
          (since heartbeat (i * m) now) (since settlement (w * 7) now) in
      let parts =
        or_iff (since heartbeat i now || since heartbeat (i * m) now)
          (since settlement w now || since settlement (w * 7) now)
          (longer heartbeat settlement i (i * m) now wider)
          (longer settlement settlement w (w * 7) now (omega arith)) in
      (λ e. parts.0 (graded_iff.0 e), λ k. graded_iff.1 (parts.1 k))

  beat_split :
      (at : Option ℕ) (now : ℕ)
      → 0 < config.heartbeat_interval_ms
      → IsRecentBeat config.max_missed_heartbeats at now ↔ (
          IsRecentSettlement (config.heartbeat_interval_ms * config.max_missed_heartbeats) at now
          ⊎ IsLate at now)
  beat_split none now h = (λ e. absurd e, λ e. elim e [ inl x ↦ x | inr x ↦ x ])
  beat_split (some at) now h =
      let i = config.heartbeat_interval_ms in
      let m = config.max_missed_heartbeats in
      let sum : suc m * i ≡ i * m + i = omega arith in ground (arith, sum, h)

  -- Let at least one missed heartbeat be allowed and the interval be positive. A resource whose stored
  -- status was just computed is searched exactly if its last heartbeat is at most the allowed number
  -- of intervals old or its last settlement at most seven windows. The circuit breaker would search
  -- exactly these and those whose last heartbeat is older by less than one interval more.
  pub searched_iff :
      (heartbeat settlement : Option ℕ) (now : ℕ)
      → 1 ≤ config.max_missed_heartbeats
      → 0 < config.heartbeat_interval_ms
      → ((is_searched (some (stored_status config heartbeat settlement now)) ≡ true)
          ↔ IsKept heartbeat settlement now)
        × ((should_include_in_search (evaluate_resource_status config heartbeat settlement now)
              ≡ true)
            ↔ (IsKept heartbeat settlement now ⊎ IsLate heartbeat now))
  searched_iff heartbeat settlement now h positive =
      let breaker = included_iff heartbeat settlement now positive in
      let split = beat_split heartbeat now positive in
      (
        searched_lem heartbeat settlement now h,
        (
          λ e. elim (breaker.0 e) [
            | inr s ↦ inl (inr s)
            | inl b ↦ elim (split.0 b) [ inl k ↦ inl (inl k) | inr l ↦ inr l ]
          ],
          λ k. breaker.1 (elim k [
            | inr l ↦ inl (split.1 (inr l))
            | inl (inl b) ↦ inl (split.1 (inl b))
            | inl (inr s) ↦ inr s
          ]),
        ),
      )

-- ===== src/Gateway/Refusal/Rate.antt =====
-- gateway-service/src/app.ts: how many requests of a client are admitted.
use stellar_facilitator.Common.{
  ℕ, ◌+◌, ◌-◌, ◌*◌, ◌≤◌, ◌<◌, ◌≡◌, subst, ◌⊎◌, inl, inr, String, true, Option, none, some, List, [],
  ◌∷◌, ◌==◌, ==_iff, string_eq, if◌then◌else◌, ltb, arith, Bool-cases, Option-cases, map_get,
  map_set, map_get-map_set, All,
}
use stellar_facilitator.Gateway.{GatewayConfig}
use stellar_facilitator.Gateway.Refusal.{
  RateWindow, Limits, Refusal, refuses, current_window, counted, request_refusal,
  count_unless_refused, enter, leave,
}
use stellar_facilitator.Gateway.Refusal.Bounds.{Traffic, arrives, ends}

module _ (config : GatewayConfig) where
  abbrev admits : String → String → Option Refusal → ℕ
  admits key k refusal = if refuses refusal then 0 else if k == key then 1 else 0

  -- How many of the requests of a client are admitted.
  unfoldable pub admitted : String → List Traffic → Limits → ℕ
  admitted key [] s = 0
  admitted key (ends ∷ traffic) s = admitted key traffic (leave s)
  admitted key (arrives k now ∷ traffic) s =
      let r = enter config k now s in admits key k r.0 + admitted key traffic r.1

  -- What the window of a client still admits before `until`, if all times lie within a window's
  -- length before it.
  unfoldable allowance : ℕ → Option RateWindow → ℕ
  allowance until none = config.max
  allowance until (some w) =
      if ltb (w.started_at + config.window_ms) until
      then (config.max - w.count) + config.max
      else config.max - w.count

  -- One admitted request of the client uses up one of its allowance, and a refused one none.
  uses :
      (until now : ℕ) (o : Option RateWindow)
      → now < until
      → until ≤ now + config.window_ms
      → (if ltb config.max (counted config (current_window config now o)).count then 0 else 1)
          + allowance until (some (counted config (current_window config now o)))
        ≤ allowance until o
  unfolding allowance current_window
  uses until now none h k = ground arith
  uses until now (some w) h k = ground arith

  lowers :
      (until now : ℕ) (o : Option RateWindow)
      → now < until
      → until ≤ now + config.window_ms
      → allowance until (some (counted config (current_window config now o))) ≤ allowance until o
  lowers until now o h k = omega (arith, uses until now o h k)

  enter-windows :
      (k : String) (now : ℕ) (s : Limits)
      → ((refuses (enter config k now s).0 ≡ true)
          × ((enter config k now s).1.rate_windows ≡ s.rate_windows))
        ⊎ ((refuses (enter config k now s).0
              ≡ ltb config.max
                  (counted config (current_window config now (map_get k s.rate_windows))).count)
            × ((enter config k now s).1.rate_windows
                ≡ map_set k
                    (counted config (current_window config now (map_get k s.rate_windows)))
                    s.rate_windows))
  unfolding enter count_unless_refused request_refusal
  enter-windows k now s = ground arith

  enter-allowance :
      (until now : ℕ) (key k : String) (s : Limits)
      → now < until
      → until ≤ now + config.window_ms
      → admits key k (enter config k now s).0
          + allowance until (map_get key (enter config k now s).1.rate_windows)
        ≤ allowance until (map_get key s.rate_windows)
  enter-allowance until now key k s h l =
      let w : RateWindow = counted config (current_window config now (map_get k s.rate_windows)) in
      let used = uses until now (map_get k s.rate_windows) h l in
      let stored = map_get-map_set key k w s.rate_windows in
      elim (enter-windows k now s) [
        | inl (refused, same) ↦ rw (refused, same) (omega arith)
        | inr (tested, changed) ↦
            rw (tested, changed, stored)
              (elim (Bool-cases (k == key)) [
                | inr other ↦ rw other (ground arith)
                | inl same ↦ rw same (
                    subst
                      (λ x.
                        (if ltb config.max w.count then 0 else 1) + allowance until (some w)
                        ≤ allowance until (map_get x s.rate_windows))
                      ((==_iff k key).0 same) used)
              ])
      ]

  abbrev pub IsWithin : ℕ → Traffic → Type 0
  IsWithin until (arrives key now) = (now < until) × (until ≤ now + config.window_ms)
  IsWithin until ends = Unit

  admitted-allowance :
      (key : String) (until : ℕ) (traffic : List Traffic) (s : Limits)
      → All (IsWithin until) traffic
      → admitted key traffic s ≤ allowance until (map_get key s.rate_windows)
  unfolding admitted leave
  admitted-allowance key until [] s h = omega arith
  admitted-allowance key until (ends ∷ traffic) s h =
      admitted-allowance key until traffic (leave s) h.1
  admitted-allowance key until (arrives k now ∷ traffic) s h = omega (
    arith,
    enter-allowance until now key k s h.0.0 h.0.1,
    admitted-allowance key until traffic (enter config k now s).1 h.1,
  )

  -- From any state, of the requests that arrive within one window's length, among ends of requests
  -- and other clients' arrivals in any order, at most twice the maximum are admitted of one client.
  pub admitted_bound :
      (key : String) (until : ℕ) (traffic : List Traffic) (s : Limits)
      → All (IsWithin until) traffic
      → admitted key traffic s ≤ 2 * config.max
  unfolding allowance
  admitted_bound key until traffic s h =
      let spent = admitted-allowance key until traffic s h in
      elim (Option-cases (map_get key s.rate_windows)) [
        | inl gone ↦ ground (arith, spent, gone)
        | inr (w, found) ↦ ground (arith, spent, found)
      ]

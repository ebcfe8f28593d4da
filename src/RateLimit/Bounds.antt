-- ===== src/RateLimit/Bounds.antt =====
-- rate-limit.ts: how many requests of a client pass.
use stellar_facilitator.Common.{
  ℕ, suc, ◌+◌, ◌-◌, ◌*◌, ◌≤◌, ◌<◌, ◌≡◌, refl, subst, ◌∙◌, inl, inr, String, true, false, Option,
  none, some, List, [], ◌∷◌, ◌==◌, ==_iff, string_eq, if◌then◌else◌, leb, arith, Bool-cases,
  Option-cases, All, map_get, map_set, map_get-map_set,
}
use stellar_facilitator.RateLimit.{
  RateLimitOptions, Window, open_window, counted, verdict, rate_limit,
}

module _ (options : RateLimitOptions) where
  -- How many of the requests pass that come from `key`.
  unfoldable pub admitted : String → List (String × ℕ) → List (String × Window) → ℕ
  admitted key [] ws = 0
  admitted key ((k, now) ∷ requests) ws =
      let answer = rate_limit options k now ws in
      let later = admitted key requests answer.1 in
      if k == key then (if answer.0.limited then later else suc later) else later

  -- What the window of a client still admits before `until`, if all times lie within a window's
  -- length before it.
  unfoldable budget : ℕ → Option Window → ℕ
  budget until none = options.max
  budget until (some w) =
      if leb until w.reset_at then options.max - w.count else (options.max - w.count) + options.max

  -- One request of the client spends the budget if it passes.
  spends :
      (until now : ℕ) (o : Option Window)
      → now < until
      → until ≤ now + options.window_ms
      → (if (verdict options now (counted options (open_window options now o))).limited
            then 0
            else 1)
          + budget until (some (counted options (open_window options now o)))
        ≤ budget until o
  unfolding budget verdict open_window
  spends until now none h k = ground arith
  spends until now (some w) h k = ground arith

  admitted-budget :
      (key : String) (until : ℕ) (requests : List (String × ℕ)) (ws : List (String × Window))
      → All (λ (r : String × ℕ). (r.1 < until) × (until ≤ r.1 + options.window_ms)) requests
      → admitted key requests ws ≤ budget until (map_get key ws)
  unfolding admitted rate_limit
  admitted-budget key until [] ws h = omega arith
  admitted-budget key until ((k, now) ∷ requests) ws h =
      let w : Window = counted options (open_window options now (map_get k ws)) in
      let after = admitted-budget key until requests (map_set k w ws) h.1 in
      let stored = map_get-map_set key k w ws in
      elim (Bool-cases (k == key)) [
        | inr other ↦ rw other (
            subst (λ o. admitted key requests (map_set k w ws) ≤ budget until o)
              (stored ∙ unless_same w other) after)
        | inl same ↦
            let key_of : k ≡ key = (==_iff k key).0 same in
            let spent =
              subst
                (λ x.
                  (if (verdict options now w).limited then 0 else 1) + budget until (some w)
                  ≤ budget until (map_get x ws))
                key_of (spends until now (map_get k ws) h.0.0 h.0.1) in
            let rest =
              subst (λ o. admitted key requests (map_set k w ws) ≤ budget until o)
                (stored ∙ if_same w same) after in
            rw same (ground (arith, rest, spent))
      ]
    where
      unless_same :
          (w : Window)
          → (k == key) ≡ false
          → (if k == key then some w else map_get key ws) ≡ map_get key ws
      unless_same w other = rw other refl

      if_same :
          (w : Window) → (k == key) ≡ true → (if k == key then some w else map_get key ws) ≡ some w
      if_same w same = rw same refl

  -- From any state of the map, of requests that all fall within one window's length, in whatever
  -- order they come, at most twice the maximum pass that are of the same client.
  pub admitted-bound :
      (key : String) (until : ℕ) (requests : List (String × ℕ)) (ws : List (String × Window))
      → All (λ (r : String × ℕ). (r.1 < until) × (until ≤ r.1 + options.window_ms)) requests
      → admitted key requests ws ≤ 2 * options.max
  unfolding budget
  admitted-bound key until requests ws h =
      let spent = admitted-budget key until requests ws h in
      elim (Option-cases (map_get key ws)) [
        | inl gone ↦ ground (arith, spent, gone)
        | inr (w, found) ↦ ground (arith, spent, found)
      ]

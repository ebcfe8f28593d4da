-- ===== src/Gateway/Refusal/Bounds.antt =====
-- gateway-service/src/app.ts: which requests are admitted, and how many run at once.
use stellar_facilitator.Common.{
  ℕ, zero, suc, ◌≤◌, ◌<◌, ◌≡◌, refl, inl, inr, String, none, some, List, [], ◌∷◌, string_eq, arith,
  Option-cases,
}
use stellar_facilitator.Gateway.{GatewayConfig}
use stellar_facilitator.Gateway.Refusal.{
  Limits, no_requests, Refusal, request_refusal, count_unless_refused, enter, leave,
}

-- A request arrives, with its client's key and the time, or one that runs comes to its end.
pub data Traffic : Type 0 where
  arrives : String → ℕ → Traffic
  ends : Traffic

module _ (config : GatewayConfig) where
  -- The state together with how many handlers run; only one that runs can end.
  unfoldable pub after : List Traffic → Limits → ℕ → Limits × ℕ
  after [] s running = (s, running)
  after (arrives key now ∷ traffic) s running =
      let r = enter config key now s in
      let refused = after traffic r.1 running in
      let admitted = after traffic r.1 (suc running) in
      elim r.0 [ some _ ↦ refused | none ↦ admitted ]
  after (ends ∷ traffic) s zero = after traffic s zero
  after (ends ∷ traffic) s (suc running) = after traffic (leave s) running

  abbrev IsCounted : Limits → ℕ → Type 0
  IsCounted s running =
      (s.active_requests ≡ running) × (s.active_requests ≤ config.max_concurrent_requests)

  request_refusal-keeps :
      (key : String) (now : ℕ) (s : Limits)
      → (request_refusal config key now s).1.active_requests ≡ s.active_requests
  unfolding request_refusal
  request_refusal-keeps key now s = ground arith

  request_refusal-room :
      (key : String) (now : ℕ) (s : Limits)
      → (request_refusal config key now s).0 ≡ none
      → s.active_requests < config.max_concurrent_requests
  unfolding request_refusal
  request_refusal-room key now s h = ground (arith, h)

  enter-IsCounted :
      (key : String) (now : ℕ) (s : Limits) (running : ℕ)
      → IsCounted s running
      → (enter config key now s).0 ≡ none
      → IsCounted (enter config key now s).1 (suc running)
  unfolding enter count_unless_refused
  enter-IsCounted key now s running h passed =
      let kept = request_refusal-keeps key now s in
      let room = request_refusal-room key now s passed in
      rw (passed, count_unless_refused) (omega (arith, kept, h.0), omega (arith, kept, room))

  refuse-IsCounted :
      (key : String) (now : ℕ) (s : Limits) (running : ℕ) (refusal : Refusal)
      → IsCounted s running
      → (enter config key now s).0 ≡ some refusal
      → IsCounted (enter config key now s).1 running
  unfolding enter count_unless_refused
  refuse-IsCounted key now s running refusal h refused =
      let kept = request_refusal-keeps key now s in
      rw (refused, count_unless_refused) (omega (arith, kept, h.0), omega (arith, kept, h.1))

  after-IsCounted :
      (traffic : List Traffic) (s : Limits) (running : ℕ)
      → IsCounted s running
      → IsCounted (after traffic s running).0 (after traffic s running).1
  unfolding after leave
  after-IsCounted [] s running h = h
  after-IsCounted (ends ∷ traffic) s zero h = after-IsCounted traffic s zero h
  after-IsCounted (ends ∷ traffic) s (suc running) h =
      after-IsCounted traffic (leave s) running (omega (arith, h.0), omega (arith, h.1))
  after-IsCounted (arrives key now ∷ traffic) s running h =
      elim (Option-cases (enter config key now s).0) [
        | inl passed ↦
            rw (passed, after)
              (after-IsCounted traffic (enter config key now s).1 (suc running)
                (enter-IsCounted key now s running h passed))
        | inr (refusal, refused) ↦
            rw (refused, after)
              (after-IsCounted traffic (enter config key now s).1 running
                (refuse-IsCounted key now s running refusal h refused))
      ]

  -- In every history of arrivals and ends, the counter is the number of handlers that run, and
  -- never more than the maximum run at once.
  pub after_lem :
      (traffic : List Traffic)
      → ((after traffic no_requests 0).0.active_requests ≡ (after traffic no_requests 0).1)
        × ((after traffic no_requests 0).1 ≤ config.max_concurrent_requests)
  after_lem traffic =
      let h = after-IsCounted traffic no_requests 0 (refl, omega arith) in
      (h.0, omega (arith, h.0, h.1))

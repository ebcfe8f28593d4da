-- ===== src/Gateway/Handler/Money.antt =====
-- gateway-service/src/app.ts: in every interleaving of requests and settlements, the upstream is
-- called for settled payments only, and no payment has two settlements in flight.
use mathlib.Core.Option.{some-injective}
use stellar_facilitator.Common.{
  map_get, ℕ, ◌≡◌, sym, ap, ◌∙◌, inl, inr, true, false, some, List, [], ◌∷◌, string_eq, arith,
  Option-cases, get_elem?, All, All-snoc, All-mono, All-set, All_get,
}
use stellar_facilitator.Gateway.{PaymentEvent, is_settled, GatewayConfig}
use stellar_facilitator.Gateway.Handler.{
  resume, System, new_system, Happening, request_arrives, request_resumes, settlement_returns,
  resume_request, happen, run,
}
use stellar_facilitator.Gateway.State.{
  Request, SettleCall, GatewayState, Phase, arrived, new_gateway, finish_settlement,
}
use stellar_facilitator.Gateway.Handler.Consistency.{
  IsReported, IsStored, Extends, IsPaid, IsPrepared, IsPrepared-mono,
}
use stellar_facilitator.Gateway.Handler.Flights.{finish_settlement-IsPaid}
use stellar_facilitator.Gateway.Handler.Sound.{resume-IsSound}

-- The shared state is consistent, and every request may rely on what its phase relies on.
record IsConsistent (s : System) : Type 0 where
  paid : IsPaid s.state
  prepared : All (λ (q : Request × Phase). IsPrepared s.state q.1) s.requests

All-IsPrepared :
    (s t : GatewayState) (requests : List (Request × Phase))
    → Extends s t
    → All (λ (q : Request × Phase). IsPrepared s q.1) requests
    → All (λ (q : Request × Phase). IsPrepared t q.1) requests
All-IsPrepared s t requests x h =
    All-mono (λ (q : Request × Phase). IsPrepared s q.1) (λ (q : Request × Phase). IsPrepared t q.1)
      requests (λ q k. IsPrepared-mono s t q.1 x k) h

pub new_gateway-IsPaid : IsPaid new_gateway
unfolding map_get
new_gateway-IsPaid = record {
  events_reported = tt;
  sent_stored = tt;
  tracked = λ p n found. absurd (ground (arith, found));
  recorded = λ n call at running. absurd (ground (arith, at));
}

new_system-IsConsistent : IsConsistent new_system
new_system-IsConsistent = record { paid = new_gateway-IsPaid; prepared = tt }

module _ (config : GatewayConfig) where
  resumed :
      (i : ℕ) (request : Request × Phase) (s : System)
      → IsConsistent s
      → get_elem? s.requests i ≡ some request
      → IsConsistent (resume_request config i request s)
  unfolding resume_request
  resumed i (r, phase) s h at =
      let ready =
        All_get (λ (q : Request × Phase). IsPrepared s.state q.1) s.requests i h.prepared at in
      let sound = resume-IsSound config r phase s.state h.paid ready in
      let next = resume config r phase s.state in
      record {
        paid = sound.paid;
        prepared =
            All-set (λ (q : Request × Phase). IsPrepared next.1 q.1) s.requests i (r, next.0)
              (All-IsPrepared s.state next.1 s.requests sound.extends h.prepared) sound.prepared;
      }

  happen-IsConsistent :
      (h : Happening) (s : System) → IsConsistent s → IsConsistent (happen config h s)
  unfolding happen
  happen-IsConsistent (request_arrives r) s h = record {
    paid = h.paid;
    prepared =
        All-snoc (λ (q : Request × Phase). IsPrepared s.state q.1) s.requests (r, arrived)
          h.prepared tt;
  }
  happen-IsConsistent (settlement_returns n) s h =
      let (extends, paid) = finish_settlement-IsPaid n s.state h.paid in
      record {
        paid = paid;
        prepared =
            All-IsPrepared s.state (finish_settlement n s.state) s.requests extends h.prepared;
      }
  happen-IsConsistent (request_resumes i) s h = elim (Option-cases (get_elem? s.requests i)) [
    | inl gone ↦ rw (gone, happen) h
    | inr (request, at) ↦ rw (at, happen) (resumed i request s h at)
  ]

  run-IsConsistent :
      (hs : List Happening) (s : System) → IsConsistent s → IsConsistent (run config hs s)
  unfolding run
  run-IsConsistent [] s h = h
  run-IsConsistent (x ∷ hs) s h =
      run-IsConsistent hs (happen config x s) (happen-IsConsistent x s h)

  -- In every interleaving of arrivals, resumptions and returning settlements, each payment that a
  -- request to the upstream names has a settled event in the store, and each settled event stands
  -- for a call of `settlePayment` for its payment that came back with success.
  pub run-IsPaid :
      (hs : List Happening)
      → All
          (IsStored (run config hs new_system).state.store.payment_events)
          (run config hs new_system).state.sent
        × All
            (λ (e : PaymentEvent).
              is_settled e.status ≡ true
              → IsReported (run config hs new_system).state.calls e.payment_id)
            (run config hs new_system).state.store.payment_events
  run-IsPaid hs =
      let h = (run-IsConsistent hs new_system new_system-IsConsistent).paid in
      (h.sent_stored, h.events_reported)

  -- In every interleaving, two calls of `settlePayment` for one payment that are both unfinished are
  -- the same call.
  pub run_settles_once_at_a_time :
      (hs : List Happening) (m n : ℕ) (a b : SettleCall)
      → get_elem? (run config hs new_system).state.calls m ≡ some a
      → get_elem? (run config hs new_system).state.calls n ≡ some b
      → a.finished ≡ false
      → b.finished ≡ false
      → a.payment_id ≡ b.payment_id
      → m ≡ n
  run_settles_once_at_a_time hs m n a b at_m at_n running_a running_b same =
      let h = (run-IsConsistent hs new_system new_system-IsConsistent).paid in
      let flights = (run config hs new_system).state.in_flight_settlements in
      some-injective m n (
        sym (h.recorded m a at_m running_a)
        ∙ ap (λ p. map_get p flights) same
        ∙ h.recorded n b at_n running_b)

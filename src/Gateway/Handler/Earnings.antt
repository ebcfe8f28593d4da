-- ===== src/Gateway/Handler/Earnings.antt =====
-- gateway-service/src/app.ts: what requests that share one settlement add to the earnings.
use stellar_facilitator.Common.{
  ℕ, ◌+◌, ◌≡◌, refl, ap, ◌∙◌, String, true, some, List, [], ◌∷◌, ◌++◌, arith, filter, length,
  get_elem?,
}
use stellar_facilitator.Gateway.{
  PaymentEvent, is_settled, or_default, GatewayConfig, SettleResponse, VerifyResponse,
}
use stellar_facilitator.Gateway.Event.{
  payment_event, route_price, sum_gross, EarningsSnapshot, earnings_snapshot,
}
use stellar_facilitator.Gateway.Handler.{settled_event, after_settlement, await_settlement}
use stellar_facilitator.Gateway.State.{
  at_settled, Request, SettleCall, GatewayState, append_payment_event, append_or,
}

abbrev pub earnings : GatewayConfig → GatewayState → EarningsSnapshot
earnings config s = earnings_snapshot config s.store.payment_events

gross_snoc :
    (es : List PaymentEvent) (e : PaymentEvent)
    → is_settled e.status ≡ true
    → sum_gross (filter (λ (x : PaymentEvent). is_settled x.status) (es ++ (e ∷ [])))
      ≡ sum_gross (filter (λ (x : PaymentEvent). is_settled x.status) es)
        + or_default e.gross_amount 0
unfolding sum_gross
gross_snoc [] e h = rw h (omega arith)
gross_snoc (x ∷ es) e h = ground (arith, gross_snoc es e h)

count_snoc :
    (es : List PaymentEvent) (e : PaymentEvent)
    → is_settled e.status ≡ true
    → length (filter (λ (x : PaymentEvent). is_settled x.status) (es ++ (e ∷ [])))
      ≡ length (filter (λ (x : PaymentEvent). is_settled x.status) es) + 1
count_snoc [] e h = rw h (omega arith)
count_snoc (x ∷ es) e h = ground (arith, count_snoc es e h)

-- One request more that has been paid.
record IsEarned (config : GatewayConfig) (r : Request) (s t : GatewayState) : Type 0 where
  calls_kept : t.calls ≡ s.calls
  gross :
      (earnings config t).gross_amount
      ≡ (earnings config s).gross_amount + route_price config r.route
  counted : (earnings config t).settlement_count ≡ (earnings config s).settlement_count + 1

module _ (config : GatewayConfig) where
  after_settlement-IsEarned :
      (r : Request) (p : String) (v : VerifyResponse) (result : SettleResponse) (s : GatewayState)
      → result.success ≡ true
      → r.stores at_settled ≡ true
      → IsEarned config r s (after_settlement config r p v (some result) s).1
  unfolding after_settlement append_or append_payment_event settled_event payment_event
      earnings_snapshot
  after_settlement-IsEarned r p v result s success stored =
      simp (success, stored)
        (record {
          calls_kept = refl;
          gross = gross_snoc s.store.payment_events (settled_event config r p v result) refl;
          counted = count_snoc s.store.payment_events (settled_event config r p v result) refl;
        })

  await_settlement-IsEarned :
      (r : Request) (p : String) (v : VerifyResponse) (n : ℕ) (call : SettleCall)
      (result : SettleResponse) (s : GatewayState)
      → get_elem? s.calls n ≡ some call
      → call.finished ≡ true
      → call.answer ≡ some result
      → result.success ≡ true
      → r.stores at_settled ≡ true
      → IsEarned config r s (await_settlement config r p v n s).1
  unfolding await_settlement
  await_settlement-IsEarned r p v n call result s at done answer success stored =
      rw (at, await_settlement)
        (rw (done, answer) (after_settlement-IsEarned r p v result s success stored))

  -- Two requests with the same payment that wait for the same call of `settlePayment`, when it has
  -- come back with success and the store takes their events, each add their price to the gross
  -- earnings and one to the number of settlements, although the payment was settled once.
  pub shared_settlement_counted_twice :
      (a b : Request) (p : String) (v w : VerifyResponse) (n : ℕ) (call : SettleCall)
      (result : SettleResponse) (s : GatewayState)
      → get_elem? s.calls n ≡ some call
      → call.finished ≡ true
      → call.answer ≡ some result
      → result.success ≡ true
      → a.stores at_settled ≡ true
      → b.stores at_settled ≡ true
      → let t = (await_settlement config b p w n (await_settlement config a p v n s).1).1 in
        ((earnings config t).gross_amount
          ≡ (earnings config s).gross_amount
            + (route_price config a.route + route_price config b.route))
        × ((earnings config t).settlement_count ≡ (earnings config s).settlement_count + 2)
        × (t.calls ≡ s.calls)
  shared_settlement_counted_twice a b p v w n call result s at done answer success stored_a
        stored_b =
      let one = await_settlement-IsEarned a p v n call result s at done answer success stored_a in
      let here = ap (λ calls. get_elem? calls n) one.calls_kept ∙ at in
      let two =
        await_settlement-IsEarned b p w n call result (await_settlement config a p v n s).1 here
          done answer success stored_b in
      (
        omega (arith, one.gross, two.gross),
        omega (arith, one.counted, two.counted),
        two.calls_kept ∙ one.calls_kept,
      )

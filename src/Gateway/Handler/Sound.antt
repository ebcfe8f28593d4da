-- ===== src/Gateway/Handler/Sound.antt =====
-- gateway-service/src/app.ts: each stretch of the handler keeps the shared state consistent.
use stellar_facilitator.Common.{
  ◌≡◌, refl, inl, inr, String, Bool, true, false, ◌&&◌, Option, none, some, List, [], ◌∷◌, ◌++◌,
  ==_iff, string_eq, arith, Option-cases, if◌then◌else◌, not, ℕ, get_elem?_last, map_get, All,
  All-snoc, if-elim,
}
use stellar_facilitator.Gateway.{GatewayConfig, SettleResponse, VerifyResponse}
use stellar_facilitator.Gateway.Event.{payment_event, event_to_settlement}
use stellar_facilitator.Gateway.Store.{find_last, settles}
use stellar_facilitator.Gateway.Handler.{
  refusal, with_header, settled_event, admit, arrive, look_up, after_verification, settle_payment,
  after_settlement, await_settlement, catch_unavailable, forward, resume,
}
use stellar_facilitator.Gateway.State.{
  at_challenge, at_mismatch, at_rejection, at_verified, at_failure, at_settled, at_catch,
  PaymentHeader, absent, undecodable, payload, holds, request_body, Request, GatewayState, Phase,
  arrived, looking_up, verifying, settling, waiting, catching, forwarding, answered,
  append_payment_event, settle_once, start_settlement,
}
use stellar_facilitator.Gateway.Handler.Consistency.{
  IsReported, IsStored, find_last_snoc, IsPaid, IsPrepared, IsSound, stays, append_or-IsSound,
  append_or_unsettled, either-IsSound,
}
use stellar_facilitator.Gateway.Handler.Flights.{started-Extends, started-IsPaid}

module _ (config : GatewayConfig) (r : Request) where
  refusal-IsPrepared :
      (s : GatewayState) (thrown : Phase)
      → IsPrepared s thrown
      → IsPrepared s (refusal config r thrown)
  unfolding refusal
  refusal-IsPrepared s thrown h = if-elim (IsPrepared s) r.refusal_built (λ _. tt) (λ _. h)

  admit-IsSound : (p : String) (s : GatewayState) → IsPaid s → IsSound s (admit config r p s)
  unfolding admit payment_event
  admit-IsSound p s h = elim (Option-cases (request_body config r)) [
    | inr (code, unsafe) ↦ rw (unsafe, admit) (stays s _ h tt)
    | inl safe ↦
        rw (safe, admit)
          (either-IsSound (r.requirements_match && r.extension_valid) s
            (λ _. stays s (looking_up p) h tt)
            (λ _.
              append_or_unsettled (r.stores at_mismatch) _ _ _ s h refl
                (λ t. refusal-IsPrepared t _ tt) (λ _. tt)))
  ]

  with_header-IsSound :
      (header : PaymentHeader) (s : GatewayState)
      → IsPaid s
      → IsSound s (with_header config r header s)
  unfolding with_header payment_event
  with_header-IsSound undecodable s h = stays s _ h tt
  with_header-IsSound absent s h =
      append_or_unsettled (r.stores at_challenge) _ _ _ s h refl (λ t. refusal-IsPrepared t _ tt)
        (λ _. tt)
  with_header-IsSound (payload p) s h = admit-IsSound p s h

  arrive-IsSound : (s : GatewayState) → IsPaid s → IsSound s (arrive config r s)
  unfolding arrive
  arrive-IsSound s h =
      either-IsSound (holds r.provider_policy) s (λ _. stays s _ h tt)
        (λ _.
          either-IsSound (not (r.requirements_built && r.challenge_built)) s (λ _. stays s _ h tt)
            (λ _. with_header-IsSound r.payment_header s h))

  look_up-IsSound : (p : String) (s : GatewayState) → IsPaid s → IsSound s (look_up config r p s)
  unfolding look_up
  look_up-IsSound p s h =
      either-IsSound r.settlement_lookup s
        (λ _. elim (Option-cases (find_last (settles p) s.store.payment_events)) [
          | inl none' ↦ rw (none', look_up) (stays s (verifying p) h tt)
          | inr (e, found) ↦
              rw (found, look_up) (stays s (forwarding p (event_to_settlement e)) h (e, found))
        ])
        (λ _. stays s _ h tt)

  after_verification-IsSound :
      (p : String) (v : Option VerifyResponse) (s : GatewayState)
      → IsPaid s
      → IsSound s (after_verification config r p v s)
  unfolding after_verification payment_event
  after_verification-IsSound p none s h = stays s (catching p) h tt
  after_verification-IsSound p (some v) s h =
      either-IsSound v.is_valid s
        (λ _. append_or_unsettled (r.stores at_verified) _ _ _ s h refl (λ _. tt) (λ _. tt))
        (λ _.
          append_or_unsettled (r.stores at_rejection) _ _ _ s h refl
            (λ t. refusal-IsPrepared t _ tt) (λ _. tt))

  settled_event-settles :
      (p : String) (v : VerifyResponse) (result : SettleResponse)
      → settles p (settled_event config r p v result) ≡ true
  unfolding settled_event payment_event
  settled_event-settles p v result = ground (arith, ==_iff p p)

  after_settlement-IsSound :
      (p : String) (v : VerifyResponse) (answer : Option SettleResponse) (s : GatewayState)
      → IsPaid s
      → ((result : SettleResponse)
          → answer ≡ some result
          → result.success ≡ true
          → IsReported s.calls p)
      → IsSound s (after_settlement config r p v answer s)
  unfolding after_settlement payment_event settled_event append_payment_event
  after_settlement-IsSound p v none s h reported = stays s (catching p) h tt
  after_settlement-IsSound p v (some result) s h reported =
      either-IsSound result.success s
        (λ ok.
          append_or-IsSound (r.stores at_settled) (settled_event config r p v result)
            (forwarding p result) (catching p) s h (λ _. reported result refl ok)
            (find_last_snoc p s.store.payment_events (settled_event config r p v result)
              (settled_event-settles p v result))
            tt)
        (λ _. append_or_unsettled (r.stores at_failure) _ _ _ s h refl (λ _. tt) (λ _. tt))

  catch-IsSound :
      (p : String) (s : GatewayState) → IsPaid s → IsSound s (catch_unavailable config r p s)
  unfolding catch_unavailable payment_event
  catch-IsSound p s h = append_or_unsettled (r.stores at_catch) _ _ _ s h refl (λ _. tt) (λ _. tt)

  await-IsSound :
      (p : String) (v : VerifyResponse) (n : ℕ) (s : GatewayState)
      → IsPaid s
      → IsPrepared s (waiting p v n)
      → IsSound s (await_settlement config r p v n s)
  unfolding await_settlement
  await-IsSound p v n s h (call, at, of) =
      rw (at, await_settlement)
        (either-IsSound call.finished s
          (λ done.
            after_settlement-IsSound p v call.answer s h
              (λ result answer success. (n, call, result, at, of, done, answer, success)))
          (λ _. stays s (waiting p v n) h (call, at, of)))

  started-IsPrepared :
      (p : String) (v : VerifyResponse) (s : GatewayState)
      → IsPrepared
          (start_settlement p r.settlement s).1
          (waiting p v (start_settlement p r.settlement s).0)
  unfolding start_settlement
  started-IsPrepared p v s = (_, get_elem?_last s.calls _, refl)

  settle_once-IsSound :
      (p : String) (v : VerifyResponse) (s : GatewayState)
      → IsPaid s
      → IsSound s (settle_payment config r p v s)
  unfolding settle_payment settle_once
  settle_once-IsSound p v s h = elim (Option-cases (map_get p s.in_flight_settlements)) [
    | inl free ↦
        rw (free, settle_once, settle_payment)
          (record {
            extends = started-Extends p r.settlement s;
            paid = started-IsPaid p r.settlement s h free;
            prepared = started-IsPrepared p v s;
          })
    | inr (n, found) ↦
        let (call, at, of, _) = h.tracked p n found in
        rw (found, settle_once, settle_payment) (stays s (waiting p v n) h (call, at, of))
  ]

  sent_with :
      (P : String → Type 0) (b : Bool) (sent : List String) (p : String)
      → All P sent
      → P p
      → All P (if b then sent ++ (p ∷ []) else sent)
  sent_with P true sent p h k = All-snoc P sent p h k
  sent_with P false sent p h k = h

  forward-IsSound :
      (p : String) (result : SettleResponse) (s : GatewayState)
      → IsPaid s
      → IsStored s.store.payment_events p
      → IsSound s (forward config r p result s)
  unfolding forward
  forward-IsSound p result s h stored = record {
    extends = record {
      calls_kept = λ n call at. (call, at, refl, refl, λ finished. finished);
      settlements_kept = λ q kept. kept;
    };
    paid = record {
      events_reported = h.events_reported;
      sent_stored = sent_with (IsStored s.store.payment_events) _ s.sent p h.sent_stored stored;
      tracked = h.tracked;
      recorded = h.recorded;
    };
    prepared = tt;
  }

  pub resume-IsSound :
      (phase : Phase) (s : GatewayState)
      → IsPaid s
      → IsPrepared s phase
      → IsSound s (resume config r phase s)
  unfolding resume
  resume-IsSound arrived s h k = arrive-IsSound s h
  resume-IsSound (looking_up p) s h k = look_up-IsSound p s h
  resume-IsSound (verifying p) s h k = after_verification-IsSound p r.verification s h
  resume-IsSound (settling p v) s h k = settle_once-IsSound p v s h
  resume-IsSound (waiting p v n) s h k = await-IsSound p v n s h k
  resume-IsSound (catching p) s h k = catch-IsSound p s h
  resume-IsSound (forwarding p result) s h k = forward-IsSound p result s h k
  resume-IsSound (answered response) s h k = stays s (answered response) h tt

-- ===== src/Gateway/Handler.antt =====
-- gateway-service/src/app.ts: `handleProtectedRequest`, one function for each stretch of code that
-- reads or writes the state that requests share.
--
-- Each external call of a request is made once at most, so a request carries their answers: what it
-- awaits returns or throws. A request is resumed from its `Phase`. Awaits that touch the request
-- alone are in one stretch with the call of the store that follows them: those before the first
-- event in `arrive`, and those of forwarding in `forward`.
pub mod Consistency
pub mod Flights
pub mod Sound
pub mod Money
pub mod Alone
pub mod Replay
pub mod Earnings
use stellar_facilitator.Common.{
  ℕ, zero, suc, String, Bool, true, false, not, ◌&&◌, ◌||◌, Option, none, some, List, [], ◌∷◌, ◌++◌,
  ◌==◌, string_eq, if◌then◌else◌, length, get_elem?, set, map_get, map_set, map_delete,
}
use stellar_facilitator.Gateway.{
  PaymentEventStatus, challenged, verified, settled, rejected, failed, ProviderAction, hold,
  GatewayProviderPolicyDecision, PaymentEvent, ProviderOutcomeRecord, GatewayConfig,
  GatewayRouteConfig, SettleResponse, VerifyResponse, or_default,
}
use stellar_facilitator.Gateway.Event.{
  EventInput, OutcomeContext, payment_event, event_to_settlement,
}
use stellar_facilitator.Gateway.Store.{InMemoryGatewayEventStore, empty_store, find_last, settles}
use stellar_facilitator.Gateway.Body.{
  Bytes, Message, Read, read, http_error, stream_error, read_bounded_body,
  assert_unambiguous_framing,
}
use stellar_facilitator.Gateway.Forward.{
  Response, error_response, payment_required, server_error, with_provider_policy, Upstream,
  forward_settled_request,
}
use stellar_facilitator.Gateway.State.{
  Append, GatewayState, PaymentHeader, Phase, Request, SettleCall, absent, answered, append_or,
  append_payment_event, arrived, at_catch, at_challenge, at_failure, at_mismatch, at_rejection,
  at_settled, at_verified, catching, close_call, finish_call, finish_settlement, forwarding, holds,
  looking_up, mismatch_code, new_gateway, no_details, payload, request_body, settle_once, settling,
  start_settlement, undecodable, verifying, waiting,
}

module _ (config : GatewayConfig) (r : Request) where
  abbrev refused_402 : Phase
  refused_402 = answered (with_provider_policy payment_required r.provider_policy)

  -- The refusal, or what follows an exception of the call that builds it.
  unfoldable pub refusal : Phase → Phase
  refusal thrown = if r.refusal_built then refused_402 else thrown

  -- After the challenge is built, for a request with a payload.
  unfoldable pub admit : String → GatewayState → Phase × GatewayState
  admit payment_id s = elim (request_body config r) [
    | some code ↦ (answered (error_response 413 code false), s)
    | none ↦
        if r.requirements_match && r.extension_valid
        then (looking_up payment_id, s)
        else append_or (r.stores at_mismatch)
            (payment_event config r.route
              (record (no_details r payment_id rejected) { failure_code = mismatch_code r }))
            (refusal (answered server_error)) (answered server_error) s
  ]

  unfoldable pub with_header : PaymentHeader → GatewayState → Phase × GatewayState
  with_header undecodable s = (answered payment_required, s)
  with_header absent s =
      append_or (r.stores at_challenge)
        (payment_event config r.route (no_details r r.request_id challenged))
        (refusal (answered server_error)) (answered server_error) s
  with_header (payload payment_id) s = admit payment_id s

  unfoldable pub arrive : GatewayState → Phase × GatewayState
  arrive s =
      if holds r.provider_policy
      then (answered (error_response 503 "resource_unavailable" true), s)
      else if not (r.requirements_built && r.challenge_built)
      then (answered server_error, s)
      else with_header r.payment_header s

  unfoldable pub look_up : String → GatewayState → Phase × GatewayState
  look_up payment_id s =
      if r.settlement_lookup
      then elim (find_last (settles payment_id) s.store.payment_events) [
        | some event ↦ (forwarding payment_id (event_to_settlement event), s)
        | none ↦ (verifying payment_id, s)
      ]
      else (answered server_error, s)

  unfoldable pub after_verification :
      String → Option VerifyResponse → GatewayState → Phase × GatewayState
  after_verification payment_id none s = (catching payment_id, s)
  after_verification payment_id (some v) s =
      if v.is_valid
      then append_or (r.stores at_verified)
          (payment_event config r.route
            (record (no_details r payment_id verified) { payer = v.payer }))
          (settling payment_id v) (catching payment_id) s
      else append_or (r.stores at_rejection)
          (payment_event config r.route (record (no_details r payment_id rejected) {
            payer = v.payer;
            failure_code = v.invalid_reason;
          }))
          (refusal (catching payment_id)) (catching payment_id) s

  unfoldable pub settle_payment : String → VerifyResponse → GatewayState → Phase × GatewayState
  settle_payment payment_id v s =
      let started = settle_once payment_id r.settlement s in
      (waiting payment_id v started.0, started.1)

  abbrev pub or_else : Option String → Option String → Option String
  or_else none other = other
  or_else (some a) other = some a

  unfoldable pub settled_event : String → VerifyResponse → SettleResponse → PaymentEvent
  settled_event payment_id v result =
      payment_event config r.route (record (no_details r payment_id settled) {
        payer = or_else result.payer v.payer;
        transaction_hash = result.transaction;
        settlement_latency_ms = some r.latency_ms;
        settled_at = some r.now;
      })

  unfoldable pub after_settlement :
      String → VerifyResponse → Option SettleResponse → GatewayState → Phase × GatewayState
  after_settlement payment_id v none s = (catching payment_id, s)
  after_settlement payment_id v (some result) s =
      if result.success
      then append_or (r.stores at_settled) (settled_event payment_id v result)
          (forwarding payment_id result) (catching payment_id) s
      else append_or (r.stores at_failure)
          (payment_event config r.route (record (no_details r payment_id failed) {
            payer = v.payer;
            failure_code = result.error_reason;
          }))
          (answered (error_response 402 "settlement_failed" false)) (catching payment_id) s

  -- A request waits until its call is finished.
  unfoldable pub await_settlement :
      String → VerifyResponse → ℕ → GatewayState → Phase × GatewayState
  await_settlement payment_id v n s = elim (get_elem? s.calls n) [
    | none ↦ (waiting payment_id v n, s)
    | some call ↦
        let next = after_settlement payment_id v call.answer s in
        if call.finished then next else (waiting payment_id v n, s)
  ]

  unfoldable pub catch_unavailable : String → GatewayState → Phase × GatewayState
  catch_unavailable payment_id s =
      append_or (r.stores at_catch)
        (payment_event config r.route (record (no_details r payment_id failed) {
          failure_code = some "facilitator_unavailable";
        }))
        (answered (error_response 503 "facilitator_unavailable" true)) (answered server_error) s

  unfoldable pub forward : String → SettleResponse → GatewayState → Phase × GatewayState
  forward payment_id result s =
      let context : OutcomeContext = record {
        payment_id = payment_id;
        gateway_id = config.id;
        resource_id = r.resource_id;
        request_id = r.request_id;
      } in
      let forwarded = forward_settled_request config context result r.upstream in
      (
        answered (with_provider_policy forwarded.2 r.provider_policy),
        record s {
          store = record s.store { provider_outcomes = s.store.provider_outcomes ++ forwarded.1 };
          sent = if forwarded.0 then s.sent ++ (payment_id ∷ []) else s.sent;
        },
      )

  unfoldable pub resume : Phase → GatewayState → Phase × GatewayState
  resume arrived s = arrive s
  resume (looking_up payment_id) s = look_up payment_id s
  resume (verifying payment_id) s = after_verification payment_id r.verification s
  resume (settling payment_id v) s = settle_payment payment_id v s
  resume (waiting payment_id v n) s = await_settlement payment_id v n s
  resume (catching payment_id) s = catch_unavailable payment_id s
  resume (forwarding payment_id result) s = forward payment_id result s
  resume (answered response) s = (answered response, s)

-- All requests so far with their phases, and the state they share.
pub record System : Type 0 where
  pub state : GatewayState
  pub requests : List (Request × Phase)

abbrev pub new_system : System
new_system = record { state = new_gateway; requests = [] }

-- A request arrives, a request is resumed, or a call of `settlePayment` comes back.
pub data Happening : Type 0 where
  request_arrives : Request → Happening
  request_resumes : ℕ → Happening
  settlement_returns : ℕ → Happening

unfoldable pub resume_request : GatewayConfig → ℕ → Request × Phase → System → System
resume_request config i (r, phase) s =
    let next = resume config r phase s.state in
    record { state = next.1; requests = set s.requests i (r, next.0) }

unfoldable pub happen : GatewayConfig → Happening → System → System
happen config (request_arrives r) s = record s { requests = s.requests ++ ((r, arrived) ∷ []) }
happen config (settlement_returns n) s = record s { state = finish_settlement n s.state }
happen config (request_resumes i) s = elim (get_elem? s.requests i) [
  | none ↦ s
  | some request ↦ resume_request config i request s
]

unfoldable pub run : GatewayConfig → List Happening → System → System
run config [] s = s
run config (h ∷ hs) s = run config hs (happen config h s)

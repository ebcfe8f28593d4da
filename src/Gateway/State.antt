-- ===== src/Gateway/State.antt =====
-- gateway-service/src/app.ts: a request of `handleProtectedRequest`, the state that all requests share,
-- and `settleOnce`.
use stellar_facilitator.Common.{
  ℕ, String, Bool, true, false, not, Option, none, some, List, [], ◌∷◌, ◌++◌, string_eq,
  if◌then◌else◌, length, get_elem?, set, map_get, map_set, map_delete,
}
use stellar_facilitator.Gateway.{
  PaymentEventStatus, hold, GatewayProviderPolicyDecision, PaymentEvent, GatewayConfig,
  GatewayRouteConfig, SettleResponse, VerifyResponse,
}
use stellar_facilitator.Gateway.Event.{EventInput}
use stellar_facilitator.Gateway.Store.{InMemoryGatewayEventStore, empty_store}
use stellar_facilitator.Gateway.Body.{
  Message, read, http_error, stream_error, read_bounded_body, assert_unambiguous_framing,
}
use stellar_facilitator.Gateway.Forward.{Response, Upstream}

-- The payment header: missing or empty, not decodable, or the payload's identifier, which is
-- `stableId` of the gateway and the payload.
pub data PaymentHeader : Type 0 where
  absent : PaymentHeader
  undecodable : PaymentHeader
  payload : String → PaymentHeader

-- The calls of `appendPaymentEvent`.
pub data Append : Type 0 where
  at_challenge at_mismatch at_rejection at_verified at_failure at_settled at_catch : Append

-- A request with the answers that the code below gets for it. `none` is an exception.
pub record Request : Type 0 where
  pub route : GatewayRouteConfig
  pub request_id : String
  pub resource_id : String
  pub resource_url : String
  pub provider_policy : Option GatewayProviderPolicyDecision
  -- Whether the requirements are built without an exception, then the response that states them, and
  -- whether the answer 402 that the request may end with is built and encoded without one.
  pub requirements_built : Bool
  pub challenge_built : Bool
  pub refusal_built : Bool
  pub payment_header : PaymentHeader
  pub has_request_body : Bool
  pub message : Message
  pub requirements_match : Bool
  pub extension_valid : Bool
  pub extension_invalid_reason : Option String
  pub settlement_lookup : Bool
  pub verification : Option VerifyResponse
  pub settlement : Option SettleResponse
  -- Whether the store takes the event.
  pub stores : Append → Bool
  pub upstream : Upstream
  pub now : String
  pub latency_ms : ℕ

-- A call of `settlePayment`: its answer counts from when it is finished.
pub record SettleCall : Type 0 where
  pub payment_id : String
  pub answer : Option SettleResponse
  pub finished : Bool

pub record GatewayState : Type 0 where
  pub store : InMemoryGatewayEventStore
  -- The promises of `inFlightSettlements`, as positions in the list of all calls so far.
  pub in_flight_settlements : List (String × ℕ)
  pub calls : List SettleCall
  -- The Idempotency-Key of each request to the upstream.
  pub sent : List String

abbrev pub new_gateway : GatewayState
new_gateway = record { store = empty_store; in_flight_settlements = []; calls = []; sent = [] }

-- What a request does when it is resumed. The payment's identifier goes with it.
pub data Phase : Type 0 where
  arrived : Phase
  looking_up : String → Phase
  verifying : String → Phase
  settling : String → VerifyResponse → Phase
  waiting : String → VerifyResponse → ℕ → Phase
  catching : String → Phase
  forwarding : String → SettleResponse → Phase
  answered : Response → Phase

abbrev pub no_details : Request → String → PaymentEventStatus → EventInput
no_details r payment_id status = record {
  payment_id = payment_id;
  resource_id = r.resource_id;
  resource_url = r.resource_url;
  request_id = r.request_id;
  status = status;
  payer = none;
  transaction_hash = none;
  settlement_latency_ms = none;
  settled_at = none;
  failure_code = none;
  provider_policy = r.provider_policy;
  now = r.now;
}

unfoldable pub append_payment_event : PaymentEvent → GatewayState → GatewayState
append_payment_event event s = record s {
  store = record s.store { payment_events = s.store.payment_events ++ (event ∷ []) };
}

-- `await eventStore.appendPaymentEvent(event)`, then one phase, or another where that throws.
unfoldable pub append_or : Bool → PaymentEvent → Phase → Phase → GatewayState → Phase × GatewayState
append_or true event next thrown s = (next, append_payment_event event s)
append_or false event next thrown s = (thrown, s)

abbrev pub holds : Option GatewayProviderPolicyDecision → Bool
holds none = false
holds (some decision) = elim decision.action [ hold ↦ true | _ ↦ false ]

-- The body that is forwarded, or the code of the answer 413. It is read before anything is paid.
unfoldable pub request_body : GatewayConfig → Request → Option String
request_body config r =
    if assert_unambiguous_framing r.message
    then if r.has_request_body
      then elim (read_bounded_body config.max_request_body_bytes r.message) [
        | read body ↦ none
        | http_error code ↦ some code
        | stream_error ↦ some "invalid_request"
      ]
      else none
    else some "invalid_request"

unfoldable pub mismatch_code : Request → Option String
mismatch_code r =
    if not r.requirements_match
    then some "payment_requirements_mismatch"
    else if r.extension_valid
    then some "extension_validation_failed"
    else r.extension_invalid_reason

-- The call of `settlePayment`, its promise put into the map.
unfoldable pub start_settlement : String → Option SettleResponse → GatewayState → ℕ × GatewayState
start_settlement payment_id answer s =
    let call : SettleCall = record { payment_id = payment_id; answer = answer; finished = false } in
    (
      length s.calls,
      record s {
        in_flight_settlements = map_set payment_id (length s.calls) s.in_flight_settlements;
        calls = s.calls ++ (call ∷ []);
      },
    )

unfoldable pub settle_once : String → Option SettleResponse → GatewayState → ℕ × GatewayState
settle_once payment_id answer s = elim (map_get payment_id s.in_flight_settlements) [
  | some existing ↦ (existing, s)
  | none ↦ start_settlement payment_id answer s
]

-- The promise of a call settles, and `finally` removes it from the map.
unfoldable pub close_call : ℕ → SettleCall → GatewayState → GatewayState
close_call n call s = record s {
  in_flight_settlements = map_delete call.payment_id s.in_flight_settlements;
  calls = set s.calls n (record call { finished = true });
}

-- A promise settles once.
unfoldable pub finish_call : ℕ → SettleCall → GatewayState → GatewayState
finish_call n call s = if call.finished then s else close_call n call s

unfoldable pub finish_settlement : ℕ → GatewayState → GatewayState
finish_settlement n s = elim (get_elem? s.calls n) [ none ↦ s | some call ↦ finish_call n call s ]

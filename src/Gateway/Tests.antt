-- ===== src/Gateway/Tests.antt =====
-- The gateway's theorems at concrete inputs.
use stellar_facilitator.Common.{
  map_get, map_set, nat_eq, string_eq, ℕ, ◌+◌, ◌*◌, ◌≤◌, ◌≡◌, refl, ◌↔◌, true, false, Option, none,
  some, List, [], ◌∷◌, ◌++◌, ◌==◌, arith, if◌then◌else◌, All,
}
use stellar_facilitator.Gateway.{
  PaymentEventStatus, PaymentEvent, ProviderOutcomeRecord, GatewayLifecycle, GatewayConfig,
  GatewayRouteConfig, SettleResponse, VerifyResponse, is_settled,
}
use stellar_facilitator.Gateway.Event.{payment_event, OutcomeContext}
use stellar_facilitator.Gateway.Store.{
  find_last, Codec, Text, Operation, append_payment_event, find_settlement, list_payment_events,
  Disk, works, rejects, run_store, empty_store, jsonl, no_files,
}
use stellar_facilitator.Gateway.Store.Refinement.{files_of, guarded, run_store_refines}
use stellar_facilitator.Gateway.Body.{
  Message, assert_unambiguous_framing, read, declares_more, read_bounded_body,
}
use stellar_facilitator.Gateway.Body.Content.{IsBody, read_bounded_body_iff}
use stellar_facilitator.Gateway.Refusal.{no_requests}
use stellar_facilitator.Gateway.Refusal.Bounds.{Traffic, arrives, ends, after, after_lem}
use stellar_facilitator.Gateway.Refusal.Rate.{admitted, admitted_bound}
use stellar_facilitator.Gateway.Network.{is_blocked_ipv4, ipv4}
use stellar_facilitator.Gateway.Network.Ranges.{
  address_number, blocked_networks, IsIn, is_blocked_ipv4_iff,
}
use stellar_facilitator.Gateway.Forward.{Upstream, ends, throws, responds, forward_settled_request}
use stellar_facilitator.Gateway.Forward.Outcomes.{IsAccounted, forward_settled_request-IsAccounted}
use stellar_facilitator.Gateway.Handler.{
  new_system, Happening, request_arrives, request_resumes, settlement_returns, run, happen,
  resume_request, resume, arrive, with_header, admit, look_up, after_verification, settle_payment,
  settled_event, await_settlement,
}
use stellar_facilitator.Gateway.State.{
  Request, payload, arrived, new_gateway, request_body, append_or, settle_once,
  append_payment_event as gateway_append, start_settlement, SettleCall, GatewayState,
}
use stellar_facilitator.Gateway.Handler.Consistency.{IsStored, IsReported}
use stellar_facilitator.Gateway.Handler.Money.{run-IsPaid, run_settles_once_at_a_time}
use stellar_facilitator.Gateway.Handler.Alone.{handle_protected_request}
use stellar_facilitator.Gateway.Handler.Replay.{settlements, replay_uncharged}
use stellar_facilitator.Gateway.Handler.Earnings.{earnings, shared_settlement_counted_twice}

abbrev config : GatewayConfig
config = record {
  id = "gw";
  pay_to = "GSELLER";
  network = "stellar:testnet";
  asset = "CASSET";
  price = 100;
  state = GatewayLifecycle.active;
  expires_at = none;
  max_request_body_bytes = 4;
  max_response_body_bytes = 4;
  max_concurrent_requests = 1;
  window_ms = 1000;
  max = 2;
}

abbrev route : GatewayRouteConfig
route = record { path = "/*"; price = some 250 }

-- Three bytes in two chunks, of a message that declares nothing.
abbrev message : Message
message = record {
  declared_length = some 0;
  has_content_length = false;
  has_transfer_encoding = true;
  has_body = true;
  chunks = (1 ∷ 2 ∷ []) ∷ (3 ∷ []) ∷ [];
  breaks_off = false;
}

read_bounded_body_iff_example :
    (read_bounded_body 4 message ≡ read (1 ∷ 2 ∷ 3 ∷ []))
    ↔ ((declares_more 4 (some 0) ≡ false) × (3 ≤ 4) × IsBody message (1 ∷ 2 ∷ 3 ∷ []))
read_bounded_body_iff_example = read_bounded_body_iff 4 message (1 ∷ 2 ∷ 3 ∷ [])

-- A burst of one client while its first request still runs, and another after that has ended.
abbrev traffic : List Traffic
traffic = arrives "A" 10 ∷ arrives "A" 20 ∷ ends ∷ arrives "A" 30 ∷ arrives "B" 40 ∷ []

after_lem_example :
    ((after config traffic no_requests 0).0.active_requests
      ≡ (after config traffic no_requests 0).1)
    × ((after config traffic no_requests 0).1 ≤ 1)
after_lem_example = after_lem config traffic

admitted_bound_example : admitted config "A" traffic no_requests ≤ 2 * 2
admitted_bound_example = admitted_bound config "A" 1000 traffic no_requests (
  (omega arith, omega arith),
  (
    (omega arith, omega arith),
    (tt, ((omega arith, omega arith), ((omega arith, omega arith), tt))),
  ),
)

-- 172.31.255.255
is_blocked_ipv4_iff_example :
    (is_blocked_ipv4 172 31 ≡ true) ↔ IsIn (address_number 172 31 255 255) blocked_networks
is_blocked_ipv4_iff_example =
    is_blocked_ipv4_iff 172 31 255 255 (omega arith) (omega arith) (omega arith) (omega arith)

abbrev context : OutcomeContext
context = record { payment_id = "p"; gateway_id = "gw"; resource_id = "res"; request_id = "req" }

-- The upstream answers 200, but the store refuses the outcome.
abbrev upstream : Upstream
upstream = record {
  development_origin_allowed = false;
  resolved = some (ipv4 93 184 216 34 ∷ []);
  fetched = responds 200 message;
  stream_times_out = false;
  resolver_times_out = false;
  outcome_append = throws false;
  settlement_encoded = true;
  outcome_signing = ends;
  fault_stored = true;
  observed_at = "now";
}

abbrev success : SettleResponse
success = record {
  success = true;
  transaction = some "hash";
  network = "stellar:testnet";
  payer = some "GPAYER";
  error_reason = none;
}

forward_settled_request-IsAccounted_example :
    IsAccounted config context success upstream
      (forward_settled_request config context success upstream).2
forward_settled_request-IsAccounted_example =
    forward_settled_request-IsAccounted config context success upstream

abbrev valid : VerifyResponse
valid = record { is_valid = true; payer = some "GPAYER"; invalid_reason = none }

-- A request with the payment "p" for which everything goes well.
abbrev request : Request
request = record {
  route = route;
  request_id = "req";
  resource_id = "res";
  resource_url = "https://gw/";
  provider_policy = none;
  requirements_built = true;
  challenge_built = true;
  refusal_built = true;
  payment_header = payload "p";
  has_request_body = false;
  message = record message { has_transfer_encoding = false };
  requirements_match = true;
  extension_valid = true;
  extension_invalid_reason = none;
  settlement_lookup = true;
  verification = some valid;
  settlement = some success;
  stores = λ _. true;
  upstream = upstream;
  now = "now";
  latency_ms = 7;
}

-- Two such requests, which share one call of `settlePayment`.
abbrev both_wait : List Happening
both_wait =
    request_arrives request
    ∷ request_arrives request
    ∷ request_resumes 0
    ∷ request_resumes 1
    ∷ request_resumes 0
    ∷ request_resumes 1
    ∷ request_resumes 0
    ∷ request_resumes 1
    ∷ request_resumes 0
    ∷ request_resumes 1
    ∷ []

abbrev both_served : List Happening
both_served =
    both_wait
    ++ (settlement_returns 0
        ∷ request_resumes 0
        ∷ request_resumes 1
        ∷ request_resumes 0
        ∷ request_resumes 1
        ∷ [])

run-IsPaid_example :
    All
      (IsStored (run config both_served new_system).state.store.payment_events)
      (run config both_served new_system).state.sent
    × All
        (λ (e : PaymentEvent).
          is_settled e.status ≡ true
          → IsReported (run config both_served new_system).state.calls e.payment_id)
        (run config both_served new_system).state.store.payment_events
run-IsPaid_example = run-IsPaid config both_served

abbrev unfinished_call : SettleCall
unfinished_call = record { payment_id = "p"; answer = some success; finished = false }

run_settles_once_at_a_time_example : ◌≡◌ {A = ℕ} 0 0
unfolding run happen resume_request resume arrive with_header admit request_body
    assert_unambiguous_framing look_up find_last after_verification append_or settle_payment
    settle_once map_get gateway_append start_settlement map_set
run_settles_once_at_a_time_example =
    run_settles_once_at_a_time config both_wait 0 0 unfinished_call unfinished_call refl refl refl
      refl refl

abbrev waiting_state : GatewayState
waiting_state = record new_gateway { calls = record unfinished_call { finished = true } ∷ [] }

shared_settlement_counted_twice_example :
    let t =
      (await_settlement config request "p" valid 0
        (await_settlement config request "p" valid 0 waiting_state).1).1 in
    ((earnings config t).gross_amount ≡ (earnings config waiting_state).gross_amount + (250 + 250))
    × ((earnings config t).settlement_count ≡ (earnings config waiting_state).settlement_count + 2)
    × (t.calls ≡ waiting_state.calls)
shared_settlement_counted_twice_example =
    shared_settlement_counted_twice config request request "p" valid valid 0
      (record unfinished_call { finished = true }) success waiting_state refl refl refl refl refl
      refl

-- The state after the payment "p" was settled.
abbrev settled_state : GatewayState
settled_state = record new_gateway {
  store = record empty_store {
    payment_events = settled_event config request "p" valid success ∷ [];
  };
}

replay_uncharged_example :
    ((handle_protected_request config request 6 arrived settled_state).1.calls
      ≡ settled_state.calls)
    × (settlements (handle_protected_request config request 6 arrived settled_state).1
        ≡ settlements settled_state)
unfolding find_last settled_event payment_event
replay_uncharged_example =
    replay_uncharged config request "p" 6 settled_state
      (settled_event config request "p" valid success, refl) refl

-- The text of an event is "s" or "f", by its status, and only these texts can be read.
abbrev event_text : PaymentEvent → Text
event_text e = if is_settled e.status then 115 ∷ [] else 102 ∷ []

abbrev settled_p : PaymentEvent
settled_p = settled_event config request "p" valid success

abbrev failed_p : PaymentEvent
failed_p = record settled_p { status = PaymentEventStatus.failed }

abbrev event_of_text : Text → Option PaymentEvent
event_of_text (c ∷ []) =
    if c == 115 then some settled_p else if c == 102 then some failed_p else none
event_of_text _ = none

abbrev events_json : Codec PaymentEvent
events_json = record { stringify = event_text; parse = event_of_text }

abbrev outcomes_json : Codec ProviderOutcomeRecord
outcomes_json = record { stringify = λ _. []; parse = λ _. none }

-- The second write is rejected, and so is the third, which the disk would have taken.
abbrev operations : List (Operation × Disk)
operations =
    (find_settlement "p", works)
    ∷ (append_payment_event settled_p, works)
    ∷ (append_payment_event failed_p, rejects [])
    ∷ (append_payment_event failed_p, works)
    ∷ (find_settlement "p", rejects [])
    ∷ (list_payment_events "gw", works)
    ∷ []

run_store_refines_example : run_store (jsonl events_json outcomes_json) operations no_files ≡ (
  (run_store guarded operations (empty_store, false)).0,
  files_of events_json outcomes_json (run_store guarded operations (empty_store, false)).1,
)
unfolding settled_event payment_event
run_store_refines_example = run_store_refines events_json outcomes_json operations (
  tt,
  (
    ((refl, refl, refl), tt),
    (((refl, refl, refl), refl), (((refl, refl, refl), tt), (tt, (tt, tt)))),
  ),
)

-- ===== src/Gateway/Event.antt =====
-- gateway-service/src/app.ts: `paymentEvent`, `eventToSettlement`, `classifyProviderOutcome` and
-- `earningsSnapshot`.
use stellar_facilitator.Common.{
  ℕ, ◌+◌, String, ◌<>◌, Bool, true, false, not, ◌&&◌, Option, none, some, List, [], ◌∷◌, ◌==◌,
  string_eq, nat_eq, if◌then◌else◌, leb, ltb, filter, length,
}
use stellar_facilitator.Gateway.{
  PaymentEventStatus, GatewayProviderPolicyDecision, PaymentEvent, to_provider, to_caller,
  to_unknown, ProviderOutcomeRecord, GatewayConfig, GatewayRouteConfig, SettleResponse, is_settled,
  or_default,
}

-- The argument of `paymentEvent`, and the time it reads from the clock.
pub record EventInput : Type 0 where
  pub payment_id : String
  pub resource_id : String
  pub resource_url : String
  pub request_id : String
  pub status : PaymentEventStatus
  pub payer : Option String
  pub transaction_hash : Option String
  pub settlement_latency_ms : Option ℕ
  pub settled_at : Option String
  pub failure_code : Option String
  pub provider_policy : Option GatewayProviderPolicyDecision
  pub now : String

abbrev pub route_price : GatewayConfig → GatewayRouteConfig → ℕ
route_price config route = or_default route.price config.price

abbrev if_settled : PaymentEventStatus → ℕ → Option ℕ
if_settled status amount = if is_settled status then some amount else none

unfoldable pub payment_event : GatewayConfig → GatewayRouteConfig → EventInput → PaymentEvent
payment_event config route input =
    let amount = route_price config route in
    record {
      payment_id = input.payment_id;
      resource_id = input.resource_id;
      resource_url = input.resource_url;
      network = config.network;
      asset = config.asset;
      payer = input.payer;
      pay_to = config.pay_to;
      authorized_amount = some amount;
      settled_amount = if_settled input.status amount;
      gross_amount = if_settled input.status amount;
      net_seller_amount = if_settled input.status amount;
      status = input.status;
      transaction_hash = input.transaction_hash;
      request_id = some input.request_id;
      gateway_id = config.id;
      settlement_latency_ms = input.settlement_latency_ms;
      created_at = input.now;
      settled_at = input.settled_at;
      failure_code = input.failure_code;
      provider_policy = input.provider_policy;
    }

unfoldable pub event_to_settlement : PaymentEvent → SettleResponse
event_to_settlement event = record {
  success = true;
  transaction = some (or_default event.transaction_hash "");
  network = event.network;
  payer = some (or_default event.payer "");
  error_reason = none;
}

-- What identifies the call that is classified.
pub record OutcomeContext : Type 0 where
  pub payment_id : String
  pub gateway_id : String
  pub resource_id : String
  pub request_id : String

-- The statuses that are the caller's fault, with the text of each.
abbrev caller_faults : List (ℕ × String)
caller_faults =
    (400, "400")
    ∷ (401, "401")
    ∷ (403, "403")
    ∷ (404, "404")
    ∷ (409, "409")
    ∷ (422, "422")
    ∷ (429, "429")
    ∷ []

unfoldable pub fault_text : ℕ → List (ℕ × String) → Option String
fault_text status [] = none
fault_text status ((s, text) ∷ faults) =
    let later = fault_text status faults in if s == status then some text else later

abbrev pub is_usable : ℕ → Bool
is_usable status = leb 200 status && ltb status 400

abbrev pub caller_fault : ℕ → Option String
caller_fault status = fault_text status caller_faults

unfoldable pub classify_provider_outcome : ℕ → OutcomeContext → String → ProviderOutcomeRecord
classify_provider_outcome status context now = record {
  payment_id = some context.payment_id;
  gateway_id = context.gateway_id;
  resource_id = context.resource_id;
  request_id = context.request_id;
  upstream_status = some status;
  usable = is_usable status;
  provider_at_fault =
      not (is_usable status) && elim (caller_fault status) [ none ↦ true | some _ ↦ false ];
  attributable =
      if is_usable status
      then to_unknown
      else elim (caller_fault status) [ none ↦ to_provider | some _ ↦ to_caller ];
  reason_code = if is_usable status then "ok" else elim (caller_fault status) [
    | none ↦ "upstream_failure"
    | some text ↦ "upstream_" <> text
  ];
  observed_at = now;
}

pub record EarningsSnapshot : Type 0 where
  pub gateway_id : String
  pub network : String
  pub asset : String
  pub gross_amount : ℕ
  pub net_seller_amount : ℕ
  pub settlement_count : ℕ

unfoldable pub sum_gross : List PaymentEvent → ℕ
sum_gross [] = 0
sum_gross (event ∷ events) = or_default event.gross_amount 0 + sum_gross events

unfoldable pub earnings_snapshot : GatewayConfig → List PaymentEvent → EarningsSnapshot
earnings_snapshot config events =
    let settlements = filter (λ (e : PaymentEvent). is_settled e.status) events in
    record {
      gateway_id = config.id;
      network = config.network;
      asset = config.asset;
      gross_amount = sum_gross settlements;
      net_seller_amount = sum_gross settlements;
      settlement_count = length settlements;
    }

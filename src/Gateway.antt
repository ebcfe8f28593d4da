-- ===== src/Gateway.antt =====
-- gateway-service/src/types.ts and the records of gateway-service/src/app.ts.
--
-- An amount is the number of atomic units that its string of digits says (config.ts requires
-- digits), a body the list of its bytes, and a time the text or the number that the source keeps.
pub mod Event
pub mod Store
pub mod Body
pub mod Refusal
pub mod Network
pub mod Forward
pub mod State
pub mod Handler
mod Tests
use stellar_facilitator.Common.{
  ℕ, String, Bool, true, false, Option, none, some, List, [], ◌∷◌, ◌==◌, string_eq, if◌then◌else◌,
}

pub data PaymentEventStatus : Type 0 where
  challenged verified settled rejected failed : PaymentEventStatus

pub data ProviderAction : Type 0 where
  sell sell_and_warn hold : ProviderAction

pub record GatewayProviderPolicyDecision : Type 0 where
  pub action : ProviderAction
  pub reason : String
  pub warning : Option String
  pub evaluated_at : String

-- The fields that are constants of the source are left out: the schema version, the scheme "exact",
-- the fees and `feeDetermination`.
pub record PaymentEvent : Type 0 where
  pub payment_id : String
  pub resource_id : String
  pub resource_url : String
  pub network : String
  pub asset : String
  pub payer : Option String
  pub pay_to : String
  pub authorized_amount : Option ℕ
  pub settled_amount : Option ℕ
  pub gross_amount : Option ℕ
  pub net_seller_amount : Option ℕ
  pub status : PaymentEventStatus
  pub transaction_hash : Option String
  pub request_id : Option String
  pub gateway_id : String
  pub settlement_latency_ms : Option ℕ
  pub created_at : String
  pub settled_at : Option String
  pub failure_code : Option String
  pub provider_policy : Option GatewayProviderPolicyDecision

pub data Attribution : Type 0 where
  to_provider to_caller to_unknown : Attribution

pub record ProviderOutcomeRecord : Type 0 where
  pub payment_id : Option String
  pub gateway_id : String
  pub resource_id : String
  pub request_id : String
  pub upstream_status : Option ℕ
  pub usable : Bool
  pub provider_at_fault : Bool
  pub attributable : Attribution
  pub reason_code : String
  pub observed_at : String

pub data GatewayLifecycle : Type 0 where
  draft active paused disabled : GatewayLifecycle

-- What `validateGatewayConfig` leaves, its defaults filled in, as far as app.ts reads it.
pub record GatewayConfig : Type 0 where
  pub id : String
  pub pay_to : String
  pub network : String
  pub asset : String
  pub price : ℕ
  pub state : GatewayLifecycle
  -- `Date.parse(config.expiresAt)`
  pub expires_at : Option ℕ
  pub max_request_body_bytes : ℕ
  pub max_response_body_bytes : ℕ
  pub max_concurrent_requests : ℕ
  pub window_ms : ℕ
  pub max : ℕ

pub record GatewayRouteConfig : Type 0 where
  pub path : String
  pub price : Option ℕ

pub record SettleResponse : Type 0 where
  pub success : Bool
  pub transaction : Option String
  pub network : String
  pub payer : Option String
  pub error_reason : Option String

pub record VerifyResponse : Type 0 where
  pub is_valid : Bool
  pub payer : Option String
  pub invalid_reason : Option String

abbrev pub is_settled : PaymentEventStatus → Bool
is_settled PaymentEventStatus.settled = true
is_settled _ = false

abbrev pub or_default {ℓ} : {A : Type ℓ} → Option A → A → A
or_default none a = a
or_default (some b) a = b

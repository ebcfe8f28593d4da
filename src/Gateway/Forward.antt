-- ===== src/Gateway/Forward.antt =====
-- gateway-service/src/app.ts: `forwardSettledRequest`, and the answers of the gateway.
pub mod Outcomes
use stellar_facilitator.Common.{
  ℕ, String, Bool, true, false, not, Option, none, some, List, [], ◌∷◌, ◌++◌, ◌==◌, string_eq,
  if◌then◌else◌,
}
use stellar_facilitator.Gateway.{
  GatewayProviderPolicyDecision, Attribution, to_provider, ProviderOutcomeRecord, GatewayConfig,
  SettleResponse, or_default,
}
use stellar_facilitator.Gateway.Event.{OutcomeContext, classify_provider_outcome}
use stellar_facilitator.Gateway.Body.{
  Bytes, Message, Read, read, http_error, stream_error, read_bounded_body,
}
use stellar_facilitator.Gateway.Network.{Address, assert_safe_dns}

-- An answer: its code and `retryable` where it is an error, its body where that is the upstream's,
-- and `none` where the gateway writes a body of its own, and the settlement and the policy decision
-- where its headers name them.
pub record Response : Type 0 where
  pub status : ℕ
  pub code : Option String
  pub retryable : Option Bool
  pub upstream_body : Option Bytes
  pub payment_response : Option SettleResponse
  pub provider_policy : Option GatewayProviderPolicyDecision

abbrev pub error_response : ℕ → String → Bool → Response
error_response status code retryable = record {
  status = status;
  code = some code;
  retryable = some retryable;
  upstream_body = none;
  payment_response = none;
  provider_policy = none;
}

-- The status 402, with the challenge in the header PAYMENT-REQUIRED.
abbrev pub payment_required : Response
payment_required = record {
  status = 402;
  code = none;
  retryable = none;
  upstream_body = none;
  payment_response = none;
  provider_policy = none;
}

-- What the framework answers where the handler throws.
abbrev pub server_error : Response
server_error = record {
  status = 500;
  code = none;
  retryable = none;
  upstream_body = none;
  payment_response = none;
  provider_policy = none;
}

unfoldable pub with_provider_policy : Response → Option GatewayProviderPolicyDecision → Response
with_provider_policy response none = response
with_provider_policy response (some decision) = record response { provider_policy = some decision }

-- What `fetch` comes to: a response with its status, a timeout, or another error.
pub data Fetched : Type 0 where
  responds : ℕ → Message → Fetched
  times_out : Fetched
  fails : Fetched

pub data UpstreamError : Type 0 where
  gateway_error : String → UpstreamError
  timeout : UpstreamError
  unreachable : UpstreamError

-- An exception of a call that is no `GatewayHttpError`, by whether `isTimeout` holds of it.
abbrev pub other_error : Bool → UpstreamError
other_error is_timeout = if is_timeout then timeout else unreachable

-- What a call comes to that gives nothing back: it ends, or throws an error that is a timeout or not.
pub data Attempted : Type 0 where
  ends : Attempted
  throws : Bool → Attempted

-- What the upstream, the resolver and the store answer while a request is forwarded.
pub record Upstream : Type 0 where
  pub development_origin_allowed : Bool
  pub resolved : Option (List Address)
  -- Whether the exception of an address that is refused or not resolved is a timeout.
  pub resolver_times_out : Bool
  pub fetched : Fetched
  -- Whether a broken stream is the timeout's doing.
  pub stream_times_out : Bool
  -- The store takes the outcome, or throws.
  pub outcome_append : Attempted
  -- Whether `encodePaymentResponseHeader` gives a header for the settlement.
  pub settlement_encoded : Bool
  -- The other headers are set and the outcome is signed, or that throws.
  pub outcome_signing : Attempted
  -- Whether the store takes the outcome that the `catch` block appends.
  pub fault_stored : Bool
  pub observed_at : String

unfoldable pub error_code : UpstreamError → String
error_code (gateway_error code) = code
error_code timeout = "upstream_timeout"
error_code unreachable = "upstream_unreachable"

-- How the `try` block ends: whether the upstream was called, the outcomes it appended, and the
-- answer or the error.
pub data Ended : Type 0 where
  replied : Response → Ended
  failed : UpstreamError → Ended

pub record Forwarded : Type 0 where
  pub sent : Bool
  pub appended : List ProviderOutcomeRecord
  pub ended : Ended

module _ (config : GatewayConfig) (context : OutcomeContext) (settle_result : SettleResponse) where
  -- The headers and the answer, once the outcome is stored. The encoder's error is no timeout.
  unfoldable pub answer_with : ℕ → Bytes → Attempted → Upstream → Ended
  answer_with status body (throws is_timeout) u =
      failed (if u.settlement_encoded then other_error is_timeout else unreachable)
  answer_with status body ends u =
      if u.settlement_encoded
      then replied (record {
        status = status;
        code = none;
        retryable = none;
        upstream_body = some body;
        payment_response = some settle_result;
        provider_policy = none;
      })
      else failed unreachable

  -- From the whole body on.
  unfoldable pub reply_with : ℕ → Bytes → Attempted → Upstream → Forwarded
  reply_with status body ends u = record {
    sent = true;
    appended = classify_provider_outcome status context u.observed_at ∷ [];
    ended = answer_with status body u.outcome_signing u;
  }
  reply_with status body (throws is_timeout) u = record {
    sent = true;
    appended = [];
    ended = failed (other_error is_timeout);
  }

  unfoldable pub after_fetch : Fetched → Upstream → Forwarded
  after_fetch times_out u = record { sent = true; appended = []; ended = failed timeout }
  after_fetch fails u = record { sent = true; appended = []; ended = failed unreachable }
  after_fetch (responds status message) u =
      elim (read_bounded_body config.max_response_body_bytes message) [
        | read body ↦ reply_with status body u.outcome_append u
        | http_error code ↦ record {
          sent = true;
          appended = [];
          ended = failed (gateway_error code);
        }
        | stream_error ↦ record {
          sent = true;
          appended = [];
          ended = failed (other_error u.stream_times_out);
        }
      ]

  unfoldable pub try_upstream : Upstream → Forwarded
  try_upstream u =
      if assert_safe_dns u.development_origin_allowed u.resolved
      then after_fetch u.fetched u
      else record { sent = false; appended = []; ended = failed (other_error u.resolver_times_out) }

  unfoldable pub fault_record : String → String → ProviderOutcomeRecord
  fault_record code now = record {
    payment_id = some context.payment_id;
    gateway_id = context.gateway_id;
    resource_id = context.resource_id;
    request_id = context.request_id;
    upstream_status = none;
    usable = false;
    provider_at_fault = true;
    attributable = to_provider;
    reason_code = code;
    observed_at = now;
  }

  unfoldable pub fault_response : String → Response
  fault_response code = record {
    status = if code == "upstream_timeout" then 504 else 502;
    code = some code;
    retryable = some (not (code == "body_limit_exceeded"));
    upstream_body = none;
    payment_response = some settle_result;
    provider_policy = none;
  }

  -- The `catch` block: the outcomes it appends and its answer, where an exception of its own is
  -- answered by the framework.
  unfoldable pub catch_upstream : UpstreamError → Upstream → List ProviderOutcomeRecord × Response
  catch_upstream e u =
      if u.fault_stored
      then (
        fault_record (error_code e) u.observed_at ∷ [],
        (if u.settlement_encoded then fault_response (error_code e) else server_error),
      )
      else ([], server_error)

  unfoldable pub conclude :
      Ended → Forwarded → Upstream → Bool × List ProviderOutcomeRecord × Response
  conclude (replied response) tried u = (tried.sent, tried.appended, response)
  conclude (failed e) tried u =
      let caught = catch_upstream e u in (tried.sent, tried.appended ++ caught.0, caught.1)

  -- Whether the upstream was called, the outcomes appended, and the answer.
  unfoldable pub forward_settled_request : Upstream → Bool × List ProviderOutcomeRecord × Response
  forward_settled_request u = let tried = try_upstream u in conclude tried.ended tried u

-- ===== src/Gateway/Forward/Outcomes.antt =====
-- gateway-service/src/app.ts: what is answered and recorded after a settlement.
use stellar_facilitator.Common.{
  ℕ, ◌≤◌, ◌<◌, ◌≡◌, ◌↔◌, refl, ◌⊎◌, inl, inr, String, true, false, Option, none, some, List, [],
  ◌∷◌, string_eq, nat_eq, arith, if-elim, length, includes,
}
use stellar_facilitator.Gateway.{
  to_provider, to_caller, ProviderOutcomeRecord, GatewayConfig, SettleResponse,
}
use stellar_facilitator.Gateway.Event.{OutcomeContext, fault_text, classify_provider_outcome}
use stellar_facilitator.Gateway.Body.{
  Bytes, Read, read, http_error, stream_error, read_bounded_body,
}
use stellar_facilitator.Gateway.Body.Content.{read_bounded_body_iff}
use stellar_facilitator.Gateway.Network.{assert_safe_dns}
use stellar_facilitator.Gateway.Forward.{
  Response, server_error, Fetched, responds, times_out, fails, Upstream, Ended, replied, failed,
  Forwarded, Attempted, ends, throws, UpstreamError, answer_with, reply_with, after_fetch,
  try_upstream, conclude, fault_response, catch_upstream, forward_settled_request,
}

-- The caller's faults.
abbrev pub caller_statuses : List ℕ
caller_statuses = 400 ∷ 401 ∷ 403 ∷ 404 ∷ 409 ∷ 422 ∷ 429 ∷ []

-- An outcome is the provider's fault exactly if its status is neither from 200 to 399 nor one of
-- the caller's faults, and this is when it is attributed to the provider; it is usable exactly if
-- the status is from 200 to 399, and attributed to the caller exactly if it is a caller's fault.
classify_provider_outcome-IsFair :
    (status : ℕ) (context : OutcomeContext) (now : String)
    → let o = classify_provider_outcome status context now in
      ((o.usable ≡ true) ↔ ((200 ≤ status) × (status < 400)))
      × ((o.provider_at_fault ≡ true)
          ↔ (((status < 200) ⊎ (400 ≤ status)) × (includes caller_statuses status ≡ false)))
      × ((o.provider_at_fault ≡ true) ↔ (o.attributable ≡ to_provider))
      × ((o.attributable ≡ to_caller) ↔ (includes caller_statuses status ≡ true))
unfolding classify_provider_outcome fault_text
classify_provider_outcome-IsFair status context now =
    (ground arith, ground arith, ground arith, ground arith)

Read-cases :
    (o : Read)
    → ((body : Bytes) × (o ≡ read body))
      ⊎ (((code : String) × (o ≡ http_error code)) ⊎ (o ≡ stream_error))
Read-cases (read body) = inl (body, refl)
Read-cases (http_error code) = inr (inl (code, refl))
Read-cases stream_error = inr (inr refl)

module _ (config : GatewayConfig) (context : OutcomeContext) (result : SettleResponse) where
  abbrev pub IsBoundedBody : Option Bytes → Type 0
  IsBoundedBody none = Unit
  IsBoundedBody (some body) = length body ≤ config.max_response_body_bytes

  -- A body of the upstream is within the limit for responses.
  abbrev pub IsBounded : Response → Type 0
  IsBounded response = IsBoundedBody response.upstream_body

  -- An answer of the upstream has the settlement in its headers and a body within the limit.
  abbrev IsReply : Ended → Type 0
  IsReply (replied response) = (response.payment_response ≡ some result) × IsBounded response
  IsReply (failed e) = Unit

  answer_with-IsReply :
      (status : ℕ) (body : Bytes) (signing : Attempted) (u : Upstream)
      → length body ≤ config.max_response_body_bytes
      → IsReply (answer_with config context result status body signing u)
  unfolding answer_with
  answer_with-IsReply status body ends u h =
      if-elim IsReply u.settlement_encoded (λ _. (refl, h)) (λ _. tt)
  answer_with-IsReply status body (throws is_timeout) u h = tt

  reply_with-IsReply :
      (status : ℕ) (body : Bytes) (stored : Attempted) (u : Upstream)
      → length body ≤ config.max_response_body_bytes
      → IsReply (reply_with config context result status body stored u).ended
  unfolding reply_with
  reply_with-IsReply status body ends u h = answer_with-IsReply status body u.outcome_signing u h
  reply_with-IsReply status body (throws is_timeout) u h = tt

  after_fetch-IsReply :
      (fetched : Fetched) (u : Upstream)
      → IsReply (after_fetch config context result fetched u).ended
  unfolding after_fetch
  after_fetch-IsReply times_out u = tt
  after_fetch-IsReply fails u = tt
  after_fetch-IsReply (responds status message) u =
      elim (Read-cases (read_bounded_body config.max_response_body_bytes message)) [
        | inl (body, got) ↦
            let bounds =
              (read_bounded_body_iff config.max_response_body_bytes message body).0 got in
            rw (got, after_fetch) (reply_with-IsReply status body u.outcome_append u bounds.1)
        | inr (inl (code, got)) ↦ rw (got, after_fetch) tt
        | inr (inr got) ↦ rw (got, after_fetch) tt
      ]

  try_upstream-IsReply : (u : Upstream) → IsReply (try_upstream config context result u).ended
  unfolding try_upstream
  try_upstream-IsReply u =
      if-elim (λ (f : Forwarded). IsReply f.ended)
        (assert_safe_dns u.development_origin_allowed u.resolved)
        (λ _. after_fetch-IsReply u.fetched u) (λ _. tt)

  abbrev pub IsAccounted : Upstream → Response → Type 0
  IsAccounted u response =
      ((response.payment_response ≡ some result)
        ⊎ ((response ≡ server_error) × ((u.fault_stored ≡ false) ⊎ (u.settlement_encoded ≡ false))))
      × IsBounded response

  catch_upstream-IsAccounted :
      (e : UpstreamError) (u : Upstream)
      → IsAccounted u (catch_upstream config context result e u).1
  unfolding catch_upstream fault_response
  catch_upstream-IsAccounted e u =
      if-elim (λ (c : List ProviderOutcomeRecord × Response). IsAccounted u c.1) u.fault_stored
        (λ _.
          if-elim (IsAccounted u) u.settlement_encoded (λ _. (inl refl, tt))
            (λ lost. (inr (refl, inr lost), tt)))
        (λ refused. (inr (refl, inl refused), tt))

  conclude-IsAccounted :
      (ended : Ended) (tried : Forwarded) (u : Upstream)
      → IsReply ended
      → IsAccounted u (conclude config context result ended tried u).2
  unfolding conclude
  conclude-IsAccounted (replied response) tried u h = (inl h.0, h.1)
  conclude-IsAccounted (failed e) tried u h = catch_upstream-IsAccounted e u

  -- Whatever the resolver, the upstream and the store do, the answer after a settlement names the
  -- settlement in its headers, unless the store refuses the record of the failure or the settlement
  -- cannot be encoded, where the framework answers 500; and a body of the upstream in it is not
  -- longer than the limit for responses.
  pub forward_settled_request-IsAccounted :
      (u : Upstream) → IsAccounted u (forward_settled_request config context result u).2
  unfolding forward_settled_request
  forward_settled_request-IsAccounted u =
      conclude-IsAccounted (try_upstream config context result u).ended
        (try_upstream config context result u) u (try_upstream-IsReply u)

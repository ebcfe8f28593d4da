-- ===== src/Rpc/Tests.antt =====
-- The coordinator's theorems at concrete inputs.
use stellar_facilitator.Common.{
  ◌+◌, ◌≤◌, ◌≡◌, refl, String, true, false, none, some, List, [], ◌∷◌, ◌++◌, filter, ◌==◌,
  string_eq, if◌then◌else◌, length,
}
use stellar_facilitator.Rpc.{
  transport_error, JsonRpcRequest, JsonRpcResponse, RpcProviderHealth, RpcCoordinator, Network,
  Fetched, fetch_threw, fetched, judge, threw, call, handle, ordered_urls, status_request,
  submit_to, settle_status, handle_read, ordered_providers,
}
use stellar_facilitator.Rpc.Once.{sent_by, handle_submits_once}
use stellar_facilitator.Rpc.Health.{IsKept, handle-IsKept, is_down, ordered_providers_lem}
use stellar_facilitator.Rpc.Reading.{IsServedBy, handle_read-IsServedBy}
use stellar_facilitator.Rpc.Agreement.{IsReconciled, settle_status-IsReconciled}
use stellar_facilitator.Rpc.Submission.{IsReported, heard, submit_to-IsReported}

abbrev provider : String → RpcProviderHealth
provider url = record {
  url = url;
  healthy = true;
  consecutive_failures = 0;
  last_success_at = none;
  last_failure_at = none;
}

abbrev two_providers : RpcCoordinator
two_providers = record { providers = provider "A" ∷ (provider "B" ∷ []); calls = [] }

abbrev status_is : String → JsonRpcResponse
status_is status = record {
  id = "1";
  result = some (record { status = some status; hash = none; uncertain = none; fields = "" });
  error = none;
}

-- A submission times out; `A` then does not know the transaction, and `B` has it as failed.
abbrev answer : String → JsonRpcRequest → Fetched
answer url request =
    if request.method == "sendTransaction"
    then fetch_threw "timeout"
    else if url == "A"
    then fetched (status_is "NOT_FOUND")
    else fetched (status_is "FAILED")

abbrev network : Network
network = record {
  fetch = λ n url request. answer url request;
  clock = λ n. n;
  transaction_hash = λ xdr. some "H";
}

abbrev submission : JsonRpcRequest
submission = record { id = "1"; method = "sendTransaction"; transaction = some "XDR"; hash = none }

handle_submits_once_example : sent_by (handle network submission two_providers).1 ≤ 0 + 1
handle_submits_once_example = handle_submits_once network submission two_providers

consistent : IsKept ("A" ∷ ("B" ∷ [])) two_providers
consistent = (refl, ((λ h. refl, λ h. refl), ((λ h. refl, λ h. refl), tt)))

handle-IsKept_example : IsKept ("A" ∷ ("B" ∷ [])) (handle network submission two_providers).1
handle-IsKept_example = handle-IsKept network ("A" ∷ ("B" ∷ [])) submission two_providers consistent

handle_read-IsServedBy_example :
    IsServedBy network
      (status_request "1" "H")
      0
      (ordered_urls two_providers)
      (handle_read network (status_request "1" "H") two_providers).0
      (length (handle_read network (status_request "1" "H") two_providers).1.calls)
handle_read-IsServedBy_example =
    handle_read-IsServedBy network (status_request "1" "H") two_providers

settle_status-IsReconciled_example :
    IsReconciled "1" "H"
      (status_is "NOT_FOUND" ∷ (status_is "FAILED" ∷ []))
      (settle_status "1" "H" (status_is "NOT_FOUND" ∷ (status_is "FAILED" ∷ [])))
settle_status-IsReconciled_example =
    settle_status-IsReconciled "1" "H" (status_is "NOT_FOUND" ∷ (status_is "FAILED" ∷ []))
      (refl, (refl, tt))

timed_out : judge (network.fetch 0 "A" submission) ≡ threw (transport_error "timeout")
unfolding judge
timed_out = refl

submit_to-IsReported_example :
    IsReported "1" "H"
      (transport_error "timeout")
      (heard network 1
        (ordered_urls (call network "A" submission two_providers).1)
        (status_request "1" "H"))
      (submit_to network "A" "H" submission two_providers).0
submit_to-IsReported_example =
    submit_to-IsReported network "A" "H" submission two_providers (transport_error "timeout")
      timed_out

abbrev one_down : List RpcProviderHealth
one_down = record (provider "A") { healthy = false } ∷ (provider "B" ∷ [])

ordered_providers_lem_example :
    ordered_providers one_down ≡ filter (λ q. q.healthy) one_down ++ filter is_down one_down
ordered_providers_lem_example = ordered_providers_lem one_down

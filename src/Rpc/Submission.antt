-- ===== src/Rpc/Submission.antt =====
-- rpc-coordinator.ts: what `handleSubmission` answers when its call threw.
use stellar_facilitator.Common.{
  ℕ, suc, ◌≡◌, ◌≢◌, refl, inl, inr, String, true, false, ◌||◌, Option, none, some, List, [], ◌∷◌,
  string_eq, arith, opt_is, Bool-cases, Option-cases, All, length,
}
use stellar_facilitator.Common.Int.{negsuc}
use stellar_facilitator.Rpc.{
  Error, JsonRpcRequest, JsonRpcResponse, RpcResult, RpcCoordinator, Network, answered, threw,
  judge, disagreement, all_failed_reconciling, status_of, finals, rpc_error, pending_result,
  status_request, ordered_urls, call, gather, reconcile, after_reconciliation, submit_to,
}
use stellar_facilitator.Rpc.Once.{Called-cases}
use stellar_facilitator.Rpc.Agreement.{
  has, IsReconciled, conflicting, succeeded, failed, undecided, unheard, settle_status-IsReconciled,
}

-- What a submission says whose call threw `e`, when the providers then answer `rs`.
pub data IsReported (id hash : String) (e : Error) (rs : List JsonRpcResponse)
    (response : JsonRpcResponse) : Type 0 where
  -- A provider knows of a failure, and none of a success.
  reported_failed :
      has "FAILED" rs ≡ true
      → has "SUCCESS" rs ≡ false
      → response.error ≡ none
      → status_of response ≡ some "FAILED"
      → IsReported id hash e rs response
  -- Pending, with the hash of the submitted transaction: it may be on the network.
  reported_pending :
      has "FAILED" rs ≡ false
      → rs ≢ []
      → (uncertain : Option Error) → response.result ≡ some (pending_result hash uncertain)
      → IsReported id hash e rs response
  reported_conflict :
      has "FAILED" rs ≡ true
      → has "SUCCESS" rs ≡ true
      → response ≡ rpc_error id (negsuc 32002) (disagreement hash (finals rs))
      → IsReported id hash e rs response
  reported_unknown :
      rs ≡ []
      → response ≡ rpc_error id (negsuc 32000) (all_failed_reconciling hash)
      → IsReported id hash e rs response

failed_result :
    (response : JsonRpcResponse)
    → status_of response ≡ some "FAILED"
    → (result : RpcResult) × (response.result ≡ some result) × (result.status ≡ some "FAILED")
failed_result response h = elim (Option-cases response.result) [
  | inl gone ↦ absurd (ground (arith, gone))
  | inr (result, found) ↦ (result, found, ground (arith, found))
]

after-IsReported :
    (id hash : String) (e : Error) (rs : List JsonRpcResponse) (response : JsonRpcResponse)
    → IsReconciled id hash rs response
    → IsReported id hash e rs (after_reconciliation id hash e response)
unfolding after_reconciliation
after-IsReported id hash e rs response (conflicting s f same) = rw same (reported_conflict f s refl)
after-IsReported id hash e rs response (unheard empty same) = rw same (reported_unknown empty refl)
after-IsReported id hash e rs response (succeeded s f clear status) =
    rw (clear, after_reconciliation, status)
      (reported_pending f (λ h. absurd (ground (arith, h))) none refl)
after-IsReported id hash e rs response (failed s f clear status) =
    let (result, found, final) = failed_result response status in
    rw (clear, after_reconciliation, status, found) (reported_failed f s refl final)
after-IsReported id hash e rs response (undecided s f some' clear open') =
    elim (Bool-cases
      (opt_is (status_of response) "PENDING" || opt_is (status_of response) "DUPLICATE")) [
        | inl known ↦ reported_pending f some' none (ground (arith, clear, open', known))
        | inr unknown ↦ reported_pending f some' (some e) (ground (arith, clear, open', unknown))
      ]

module _ (network : Network) where
  -- The answers without an error of the calls to `urls`, made after `n` others.
  unfoldable pub heard : ℕ → List String → JsonRpcRequest → List JsonRpcResponse
  heard n [] request = []
  heard n (url ∷ urls) request =
      let later = heard (suc n) urls request in
      elim (judge (network.fetch n url request)) [
        | threw e ↦ later
        | answered r ↦ elim r.error [ none ↦ r ∷ later | some e ↦ later ]
      ]

  heard-clear :
      (n : ℕ) (urls : List String) (request : JsonRpcRequest)
      → All (λ q. q.error ≡ none) (heard n urls request)
  unfolding heard
  heard-clear n [] request = tt
  heard-clear n (url ∷ urls) request =
      let later = heard-clear (suc n) urls request in
      elim (Called-cases (judge (network.fetch n url request))) [
        | inr (e, found) ↦ rw (found, heard) later
        | inl (r, found) ↦ elim (Option-cases r.error) [
          | inl clear ↦ rw (found, heard, clear) (clear, later)
          | inr (e, failing) ↦ rw (found, heard, failing) later
        ]
      ]

  gather-heard :
      (urls : List String) (request : JsonRpcRequest) (c : RpcCoordinator)
      → (gather network urls request c).0 ≡ heard (length c.calls) urls request
  unfolding gather call heard
  gather-heard [] request c = refl
  gather-heard (url ∷ urls) request c =
      let later = gather-heard urls request (call network url request c).1 in
      elim (Called-cases (judge (network.fetch (length c.calls) url request))) [
        | inr (e, found) ↦ ground (arith, found, later)
        | inl (r, found) ↦ elim (Option-cases r.error) [
          | inl clear ↦ ground (arith, found, clear, later)
          | inr (e, failing) ↦ ground (arith, found, failing, later)
        ]
      ]

  reconcile-IsReconciled :
      (hash id : String) (c : RpcCoordinator)
      → IsReconciled id hash
          (heard (length c.calls) (ordered_urls c) (status_request id hash))
          (reconcile network hash id c).0
  unfolding reconcile
  reconcile-IsReconciled hash id c = rw (gather-heard (ordered_urls c) (status_request id hash) c) (
      settle_status-IsReconciled id hash _
        (heard-clear (length c.calls) (ordered_urls c) (status_request id hash)))

  call-threw :
      (url : String) (request : JsonRpcRequest) (c : RpcCoordinator) (e : Error)
      → judge (network.fetch (length c.calls) url request) ≡ threw e
      → (call network url request c).0 ≡ threw e
  unfolding call
  call-threw url request c e thrown = thrown

  after_call :
      (url hash : String) (request : JsonRpcRequest) (c : RpcCoordinator)
      → IsReconciled request.id hash
          (heard
            (suc (length c.calls))
            (ordered_urls (call network url request c).1)
            (status_request request.id hash))
          (reconcile network hash request.id (call network url request c).1).0
  unfolding call
  after_call url hash request c =
      reconcile-IsReconciled hash request.id (call network url request c).1

  -- When the call that submits throws, so that the transaction may or may not be on the network,
  -- the providers are asked for it: the submission is reported as failed only if a provider says so
  -- and none says that it succeeded, as an error only if providers contradict each other or none
  -- answers, and in all other cases as pending under the hash of the transaction.
  pub submit_to-IsReported :
      (url hash : String) (request : JsonRpcRequest) (c : RpcCoordinator) (e : Error)
      → judge (network.fetch (length c.calls) url request) ≡ threw e
      → IsReported request.id hash e
          (heard
            (suc (length c.calls))
            (ordered_urls (call network url request c).1)
            (status_request request.id hash))
          (submit_to network url hash request c).0
  unfolding submit_to
  submit_to-IsReported url hash request c e thrown =
      rw (call-threw url request c e thrown, submit_to)
        (after-IsReported request.id hash e _ _ (after_call url hash request c))

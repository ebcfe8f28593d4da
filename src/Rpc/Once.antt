-- ===== src/Rpc/Once.antt =====
-- rpc-coordinator.ts: no request is submitted twice.
use stellar_facilitator.Common.{
  ℕ, suc, ◌+◌, ◌≤◌, ◌≡◌, refl, ◌∙◌, ◌⊎◌, inl, inr, String, false, Option, none, some, List, [], ◌∷◌,
  ◌==◌, string_eq, if◌then◌else◌, arith, Bool-cases, Option-cases,
}
use stellar_facilitator.Rpc.{
  Error, JsonRpcRequest, JsonRpcResponse, Call, RpcCoordinator, Network, Called, answered, threw,
  call, read_from, handle_read, probe, pick, gather, reconcile, submit_to, handle_submission,
  handle_transaction_status, handle, ordered_urls, status_request, health_request,
}

-- How many of the calls are submissions.
abbrev pub submissions : List Call → ℕ
submissions [] = 0
submissions (c ∷ cs) =
    if c.method == "sendTransaction" then suc (submissions cs) else submissions cs

abbrev pub sent_by : RpcCoordinator → ℕ
sent_by c = submissions c.calls

pub Called-cases :
    (o : Called)
    → ((response : JsonRpcResponse) × (o ≡ answered response)) ⊎ ((e : Error) × (o ≡ threw e))
Called-cases (answered response) = inl (response, refl)
Called-cases (threw e) = inr (e, refl)

module _ (network : Network) where
  call-sends :
      (url : String) (request : JsonRpcRequest) (c : RpcCoordinator)
      → sent_by (call network url request c).1 ≤ suc (sent_by c)
  unfolding call
  call-sends url request c = ground arith

  call-other :
      (url : String) (request : JsonRpcRequest) (c : RpcCoordinator)
      → (request.method == "sendTransaction") ≡ false
      → sent_by (call network url request c).1 ≡ sent_by c
  unfolding call
  call-other url request c h = ground (arith, h)

  read_from-other :
      (urls : List String) (last : Option Error) (request : JsonRpcRequest) (c : RpcCoordinator)
      → (request.method == "sendTransaction") ≡ false
      → sent_by (read_from network urls last request c).1 ≡ sent_by c
  unfolding read_from
  read_from-other [] last request c h = refl
  read_from-other (url ∷ urls) last request c h =
      elim (Called-cases (call network url request c).0) [
        | inl (response, found) ↦ rw (found, read_from) (call-other url request c h)
        | inr (e, found) ↦
            rw (found, read_from)
              (read_from-other urls (some e) request (call network url request c).1 h
                ∙ call-other url request c h)
      ]

  probe-other : (url : String) (c : RpcCoordinator) → sent_by (probe network url c).1 ≡ sent_by c
  unfolding probe
  probe-other url c = elim (Called-cases (call network url health_request c).0) [
    | inl (response, found) ↦ rw (found, probe) (call-other url health_request c refl)
    | inr (e, found) ↦ rw (found, probe) (call-other url health_request c refl)
  ]

  pick-other :
      (urls : List String) (c : RpcCoordinator) → sent_by (pick network urls c).1 ≡ sent_by c
  unfolding pick
  pick-other [] c = refl
  pick-other (url ∷ urls) c = elim (Bool-cases (probe network url c).0) [
    | inl yes' ↦ rw (yes', pick) (probe-other url c)
    | inr no' ↦ rw (no', pick) (pick-other urls (probe network url c).1 ∙ probe-other url c)
  ]

  gather-other :
      (urls : List String) (request : JsonRpcRequest) (c : RpcCoordinator)
      → (request.method == "sendTransaction") ≡ false
      → sent_by (gather network urls request c).1 ≡ sent_by c
  unfolding gather
  gather-other [] request c h = refl
  gather-other (url ∷ urls) request c h =
      let rest =
        gather-other urls request (call network url request c).1 h ∙ call-other url request c h in
      elim (Called-cases (call network url request c).0) [
        | inl (response, found) ↦ rw (found, gather) rest
        | inr (e, found) ↦ rw (found, gather) rest
      ]

  reconcile-other :
      (hash id : String) (c : RpcCoordinator) → sent_by (reconcile network hash id c).1 ≡ sent_by c
  unfolding reconcile
  reconcile-other hash id c = gather-other (ordered_urls c) (status_request id hash) c refl

  submit_to-sends :
      (url hash : String) (request : JsonRpcRequest) (c : RpcCoordinator)
      → sent_by (submit_to network url hash request c).1 ≤ suc (sent_by c)
  unfolding submit_to
  submit_to-sends url hash request c = elim (Called-cases (call network url request c).0) [
    | inl (response, found) ↦ rw (found, submit_to) (call-sends url request c)
    | inr (e, found) ↦
        rw (found, submit_to)
          (omega (
            arith,
            call-sends url request c,
            reconcile-other hash request.id (call network url request c).1,
          ))
  ]

  submission-sends :
      (request : JsonRpcRequest) (c : RpcCoordinator)
      → sent_by (handle_submission network request c).1 ≤ suc (sent_by c)
  unfolding handle_submission
  submission-sends request c = elim (Option-cases request.transaction) [
    | inl gone ↦ rw (gone, handle_submission) (omega arith)
    | inr (transaction, found) ↦ elim (Option-cases (network.transaction_hash transaction)) [
      | inl gone ↦ rw (found, handle_submission, gone) (omega arith)
      | inr (hash, hashed) ↦ elim (Option-cases (pick network (ordered_urls c) c).0) [
        | inl gone ↦
            rw (found, handle_submission, hashed, gone)
              (omega (arith, pick-other (ordered_urls c) c))
        | inr (url, picked) ↦
            rw (found, handle_submission, hashed, picked)
              (omega (
                arith,
                pick-other (ordered_urls c) c,
                submit_to-sends url hash request (pick network (ordered_urls c) c).1,
              ))
      ]
    ]
  ]

  status-other :
      (request : JsonRpcRequest) (c : RpcCoordinator)
      → sent_by (handle_transaction_status network request c).1 ≡ sent_by c
  unfolding handle_transaction_status
  status-other request c = elim (Option-cases request.hash) [
    | inl gone ↦ rw (gone, handle_transaction_status) refl
    | inr (hash, found) ↦ rw (found, handle_transaction_status) (reconcile-other hash request.id c)
  ]

  -- Whatever the providers answer, one request makes at most one submission, over all the
  -- providers, retries and reconciliation; a request for another method makes none.
  pub handle_submits_once :
      (request : JsonRpcRequest) (c : RpcCoordinator)
      → sent_by (handle network request c).1
        ≤ sent_by c + (if request.method == "sendTransaction" then 1 else 0)
  unfolding handle handle_read
  handle_submits_once request c = elim (Bool-cases (request.method == "sendTransaction")) [
    | inl submits ↦ rw (submits, handle) (omega (arith, submission-sends request c))
    | inr other ↦ elim (Bool-cases (request.method == "getTransaction")) [
      | inl asks ↦ rw (other, handle, asks) (omega (arith, status-other request c))
      | inr reads ↦
          rw (other, handle, reads)
            (omega (arith, read_from-other (ordered_urls c) none request c other))
    ]
  ]

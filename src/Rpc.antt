-- ===== src/Rpc.antt =====
-- facilitator-service/src/rpc-coordinator.ts: `RpcCoordinator`.
--
-- `calls` lists what the coordinator has sent, the newest first; the call made after `n` others is
-- answered by `Network.fetch n`, so that the network may change its mind at each call. The local
-- HTTP server (`start`, `stop`), the metrics callbacks and the text of error messages are left out:
-- a message is the value that it is made of.
pub mod Once
pub mod Health
pub mod Reading
pub mod Agreement
pub mod Submission
mod Tests
use stellar_facilitator.Common.{
  ℕ, zero, suc, ◌+◌, String, Bool, true, false, not, ◌&&◌, ◌||◌, Option, none, some, List, [], ◌∷◌,
  ◌++◌, map, ◌==◌, string_eq, truthy, opt_is, if◌then◌else◌, leb, ltb, length, find, filter, every,
  includes, set_add, set_delete,
}
use stellar_facilitator.Common.Int.{ℤ, pos, negsuc, ltb_ℤ}

pub record JsonRpcRequest : Type 0 where
  pub id : String
  pub method : String
  -- The parameters, where they are strings.
  pub transaction : Option String
  pub hash : Option String

-- What `call` throws.
pub data Error : Type 0 where
  transport_error : String → Error
  http_error : ℕ → Error
  json_rpc_error : ℤ → String → Error

pub data Message : Type 0 where
  -- A provider's own message.
  provider_message : String → Message
  all_failed : Option Error → Message
  missing_transaction missing_hash no_healthy_provider : Message
  disagreement : String → List String → Message
  all_failed_reconciling : String → Message

pub record RpcFailure : Type 0 where
  pub code : ℤ
  pub message : Message

-- `fields` is the rest of a provider's result.
pub record RpcResult : Type 0 where
  pub status : Option String
  pub hash : Option String
  pub uncertain : Option Error
  pub fields : String

pub record JsonRpcResponse : Type 0 where
  pub id : String
  pub result : Option RpcResult
  pub error : Option RpcFailure

-- `response.result?.status`
abbrev pub status_of : JsonRpcResponse → Option String
status_of r = elim r.result [ none ↦ none | some result ↦ result.status ]

pub record RpcProviderHealth : Type 0 where
  pub url : String
  pub healthy : Bool
  pub consecutive_failures : ℕ
  pub last_success_at : Option ℕ
  pub last_failure_at : Option ℕ

pub record Call : Type 0 where
  pub url : String
  pub method : String

pub record RpcCoordinator : Type 0 where
  pub providers : List RpcProviderHealth
  pub calls : List Call

-- What `fetch` and `response.json()` come to.
pub data Fetched : Type 0 where
  fetch_threw : String → Fetched
  not_ok : ℕ → Fetched
  fetched : JsonRpcResponse → Fetched

pub record Network : Type 0 where
  pub fetch : ℕ → String → JsonRpcRequest → Fetched
  pub clock : ℕ → ℕ
  -- `TransactionBuilder.fromXDR(…).hash()`, which may throw.
  pub transaction_hash : String → Option String

pub data Called : Type 0 where
  answered : JsonRpcResponse → Called
  threw : Error → Called

-- What the promise of a handler comes to.
pub data Handled : Type 0 where
  responds : JsonRpcResponse → Handled
  rejects : Handled

-- -32099 ≤ code ≤ -32000
unfoldable pub is_retryable_provider_error : RpcFailure → Bool
is_retryable_provider_error e =
    not (ltb_ℤ e.code (negsuc 32098)) && not (ltb_ℤ (negsuc 31999) e.code)

abbrev message_text : Message → String
message_text (provider_message text) = text
message_text _ = ""

unfoldable pub judge : Fetched → Called
judge (fetch_threw text) = threw (transport_error text)
judge (not_ok status) = threw (http_error status)
judge (fetched body) = elim body.error [
  | none ↦ answered body
  | some e ↦
      if is_retryable_provider_error e
      then threw (json_rpc_error e.code (message_text e.message))
      else answered body
]

abbrev pub rpc_error : String → ℤ → Message → JsonRpcResponse
rpc_error id code message = record {
  id = id;
  result = none;
  error = some (record { code = code; message = message });
}

abbrev pub pending_result : String → Option Error → RpcResult
pending_result hash uncertain = record {
  status = some "PENDING";
  hash = some hash;
  uncertain = uncertain;
  fields = "";
}

-- The part of the constructor behind `map` and `filter`: `new Set` keeps the first of equal entries.
unfoldable pub distinct : List String → List String
distinct [] = []
distinct (url ∷ urls) = url ∷ set_delete url (distinct urls)

-- `trim`, and `new URL(…).protocol`, which may throw, are passed in.
unfoldable pub new_coordinator :
    (String → String) → (String → Option String) → List String → Option RpcCoordinator
unfolding distinct
new_coordinator trim protocol providers =
    let urls = distinct (filter truthy (map trim providers)) in
    if ltb (length urls) 2
    then none
    else if every (λ url. opt_is (protocol url) "https:" || opt_is (protocol url) "http:") urls
    then some (record {
      providers =
          map
            (λ url. record {
              url = url;
              healthy = true;
              consecutive_failures = 0;
              last_success_at = none;
              last_failure_at = none;
            })
            urls;
      calls = [];
    })
    else none

-- A stable sort by `Number(right.healthy) - Number(left.healthy)`.
unfoldable pub insert_by_health :
    RpcProviderHealth → List RpcProviderHealth → List RpcProviderHealth
insert_by_health p [] = p ∷ []
insert_by_health p (q ∷ qs) =
    let later = insert_by_health p qs in
    if q.healthy && not p.healthy then q ∷ later else p ∷ (q ∷ qs)

unfoldable pub ordered_providers : List RpcProviderHealth → List RpcProviderHealth
ordered_providers [] = []
ordered_providers (p ∷ ps) = insert_by_health p (ordered_providers ps)

abbrev pub ordered_urls : RpcCoordinator → List String
ordered_urls c = map (λ (p : RpcProviderHealth). p.url) (ordered_providers c.providers)

-- What `call` writes into the provider's health.
unfoldable pub noted : Called → ℕ → RpcProviderHealth → RpcProviderHealth
noted (answered body) now p = record p {
  healthy = true;
  consecutive_failures = 0;
  last_success_at = some now;
}
noted (threw e) now p = record p {
  healthy = false;
  consecutive_failures = suc p.consecutive_failures;
  last_failure_at = some now;
}

unfoldable pub note : String → Called → ℕ → List RpcProviderHealth → List RpcProviderHealth
note url outcome now [] = []
note url outcome now (p ∷ ps) =
    (if p.url == url then noted outcome now p else p) ∷ note url outcome now ps

abbrev pub is_final : JsonRpcResponse → Bool
is_final r = opt_is (status_of r) "SUCCESS" || opt_is (status_of r) "FAILED"

abbrev pub is_known : JsonRpcResponse → Bool
is_known r = not (opt_is (status_of r) "NOT_FOUND")

-- The set of the final statuses.
unfoldable pub finals : List JsonRpcResponse → List String
finals [] = []
finals (r ∷ rs) = elim (status_of r) [
  | none ↦ finals rs
  | some status ↦
      if status == "SUCCESS" || status == "FAILED"
      then status ∷ set_delete status (finals rs)
      else finals rs
]

-- What `reconcile` makes of the responses that it has gathered.
unfoldable pub settle_status : String → String → List JsonRpcResponse → JsonRpcResponse
settle_status id hash rs =
    if ltb 1 (length (finals rs))
    then rpc_error id (negsuc 32002) (disagreement hash (finals rs))
    else elim (find is_final rs) [
      | some final ↦ final
      | none ↦ elim (find is_known rs) [
        | some pending ↦ pending
        | none ↦ elim rs [
          | first ∷ others ↦ first
          | [] ↦ rpc_error id (negsuc 32000) (all_failed_reconciling hash)
        ]
      ]
    ]

abbrev pub status_request : String → String → JsonRpcRequest
status_request id hash = record {
  id = id;
  method = "getTransaction";
  transaction = none;
  hash = some hash;
}

abbrev pub health_request : JsonRpcRequest
health_request = record { id = "0"; method = "getHealth"; transaction = none; hash = none }

-- How a submission whose call threw is answered, by the reconciliation.
unfoldable pub after_reconciliation : String → String → Error → JsonRpcResponse → JsonRpcResponse
after_reconciliation id hash e reconciled = elim reconciled.error [
  | some failure ↦ reconciled
  | none ↦
      if opt_is (status_of reconciled) "SUCCESS"
        || opt_is (status_of reconciled) "PENDING"
        || opt_is (status_of reconciled) "DUPLICATE"
      then record { id = id; result = some (pending_result hash none); error = none }
      else if opt_is (status_of reconciled) "FAILED"
      then record {
        id = id;
        result = elim reconciled.result [
          | none ↦ none
          | some result ↦ some (record result { hash = some hash })
        ];
        error = none;
      }
      else record { id = id; result = some (pending_result hash (some e)); error = none }
]

module _ (network : Network) where
  unfoldable pub call : String → JsonRpcRequest → RpcCoordinator → Called × RpcCoordinator
  call url request c =
      let n = length c.calls in
      let outcome = judge (network.fetch n url request) in
      (
        outcome,
        record {
          providers = note url outcome (network.clock n) c.providers;
          calls = record { url = url; method = request.method } ∷ c.calls;
        },
      )

  -- The loop of `handleRead`.
  unfoldable pub read_from :
      List String
      → Option Error
      → JsonRpcRequest
      → RpcCoordinator
      → JsonRpcResponse × RpcCoordinator
  read_from [] last_error request c =
      (rpc_error request.id (negsuc 32000) (all_failed last_error), c)
  read_from (url ∷ urls) last_error request c =
      let tried = call url request c in
      elim tried.0 [
        | answered response ↦ (response, tried.1)
        | threw e ↦ read_from urls (some e) request tried.1
      ]

  unfoldable pub handle_read : JsonRpcRequest → RpcCoordinator → JsonRpcResponse × RpcCoordinator
  handle_read request c = read_from (ordered_urls c) none request c

  unfoldable pub probe : String → RpcCoordinator → Bool × RpcCoordinator
  probe url c =
      let tried = call url health_request c in
      elim tried.0 [
        | answered response ↦ (elim response.error [ none ↦ true | some e ↦ false ], tried.1)
        | threw e ↦ (false, tried.1)
      ]

  -- The loop that looks for a provider to submit to.
  unfoldable pub pick : List String → RpcCoordinator → Option String × RpcCoordinator
  pick [] c = (none, c)
  pick (url ∷ urls) c =
      let probed = probe url c in
      elim probed.0 [ true ↦ (some url, probed.1) | false ↦ pick urls probed.1 ]

  -- The loop of `reconcile`.
  unfoldable pub gather :
      List String → JsonRpcRequest → RpcCoordinator → List JsonRpcResponse × RpcCoordinator
  gather [] request c = ([], c)
  gather (url ∷ urls) request c =
      let tried = call url request c in
      let rest = gather urls request tried.1 in
      elim tried.0 [
        | threw e ↦ rest
        | answered response ↦
            (elim response.error [ none ↦ response ∷ rest.0 | some e ↦ rest.0 ], rest.1)
      ]

  unfoldable pub reconcile : String → String → RpcCoordinator → JsonRpcResponse × RpcCoordinator
  reconcile hash id c =
      let gathered = gather (ordered_urls c) (status_request id hash) c in
      (settle_status id hash gathered.0, gathered.1)

  -- The `try` and `catch` of `handleSubmission`.
  unfoldable pub submit_to :
      String → String → JsonRpcRequest → RpcCoordinator → JsonRpcResponse × RpcCoordinator
  submit_to url hash request c =
      let tried = call url request c in
      elim tried.0 [
        | answered response ↦ (response, tried.1)
        | threw e ↦
            let reconciled = reconcile hash request.id tried.1 in
            (after_reconciliation request.id hash e reconciled.0, reconciled.1)
      ]

  unfoldable pub handle_submission : JsonRpcRequest → RpcCoordinator → Handled × RpcCoordinator
  handle_submission request c = elim request.transaction [
    | none ↦ (responds (rpc_error request.id (negsuc 32601) missing_transaction), c)
    | some transaction ↦ elim (network.transaction_hash transaction) [
      | none ↦ (rejects, c)
      | some hash ↦
          let picked = pick (ordered_urls c) c in
          elim picked.0 [
            | none ↦ (responds (rpc_error request.id (negsuc 32000) no_healthy_provider), picked.1)
            | some url ↦
                let submitted = submit_to url hash request picked.1 in
                (responds submitted.0, submitted.1)
          ]
    ]
  ]

  unfoldable pub handle_transaction_status :
      JsonRpcRequest → RpcCoordinator → JsonRpcResponse × RpcCoordinator
  handle_transaction_status request c = elim request.hash [
    | none ↦ (rpc_error request.id (negsuc 32601) missing_hash, c)
    | some hash ↦ reconcile hash request.id c
  ]

  unfoldable pub handle : JsonRpcRequest → RpcCoordinator → Handled × RpcCoordinator
  handle request c =
      if request.method == "sendTransaction"
      then handle_submission request c
      else if request.method == "getTransaction"
      then (
        responds (handle_transaction_status request c).0,
        (handle_transaction_status request c).1,
      )
      else (responds (handle_read request c).0, (handle_read request c).1)

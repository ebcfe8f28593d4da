-- ===== src/Rpc/Health.antt =====
-- rpc-coordinator.ts: the order of the providers, and their health.
use stellar_facilitator.Common.{
  ℕ, ◌≡◌, refl, ap, ◌∙◌, ◌↔◌, inl, inr, String, Bool, true, false, not, Option, none, some, List,
  [], ◌∷◌, ◌++◌, map, ◌==◌, string_eq, arith, Bool-cases, filter, All,
}
use stellar_facilitator.Rpc.{
  RpcProviderHealth, RpcCoordinator, Network, Called, answered, threw, noted, note, call,
  insert_by_health, ordered_providers, Error, JsonRpcRequest, call, read_from, handle_read, probe,
  pick, gather, reconcile, submit_to, handle_submission, handle_transaction_status, handle,
  ordered_urls, status_request, health_request,
}
use stellar_facilitator.Common.{Option-cases}
use stellar_facilitator.Rpc.Once.{Called-cases}

abbrev pub is_down : RpcProviderHealth → Bool
is_down p = not p.healthy

insert_healthy :
    (p : RpcProviderHealth) (up down : List RpcProviderHealth)
    → p.healthy ≡ true
    → insert_by_health p (up ++ down) ≡ p ∷ (up ++ down)
unfolding insert_by_health
insert_healthy p [] [] h = refl
insert_healthy p [] (q ∷ qs) h = ground (arith, h)
insert_healthy p (q ∷ qs) down h = ground (arith, h)

insert_down :
    (p : RpcProviderHealth) (up down : List RpcProviderHealth)
    → p.healthy ≡ false
    → All (λ q. q.healthy ≡ true) up
    → All (λ q. q.healthy ≡ false) down
    → insert_by_health p (up ++ down) ≡ up ++ (p ∷ down)
unfolding insert_by_health
insert_down p [] [] h ups downs = refl
insert_down p [] (q ∷ qs) h ups downs = ground (arith, h, downs.0)
insert_down p (q ∷ qs) down h ups downs =
    ground (arith, h, ups.0, insert_down p qs down h ups.1 downs)

filter-All :
    (b : Bool) (test : RpcProviderHealth → Bool) (ps : List RpcProviderHealth)
    → ((p : RpcProviderHealth) → test p ≡ true → p.healthy ≡ b)
    → All (λ q. q.healthy ≡ b) (filter test ps)
filter-All b test [] h = tt
filter-All b test (p ∷ ps) h = elim (Bool-cases (test p)) [
  | inl kept ↦ rw kept (h p kept, filter-All b test ps h)
  | inr dropped ↦ rw dropped (filter-All b test ps h)
]

insert_sorted :
    (p : RpcProviderHealth) (ps : List RpcProviderHealth)
    → insert_by_health p (filter (λ q. q.healthy) ps ++ filter is_down ps)
      ≡ filter (λ q. q.healthy) (p ∷ ps) ++ filter is_down (p ∷ ps)
insert_sorted p ps = elim (Bool-cases p.healthy) [
  | inl up ↦
      ground (arith, up, insert_healthy p (filter (λ q. q.healthy) ps) (filter is_down ps) up)
  | inr down ↦ ground (
    arith,
    down,
    insert_down p (filter (λ q. q.healthy) ps) (filter is_down ps) down
        (filter-All true (λ q. q.healthy) ps (λ q h. h))
        (filter-All false is_down ps (λ q h. ground arith)),
  )
]

-- The providers are tried in the order in which they are configured, but the healthy ones first.
pub ordered_providers_lem :
    (ps : List RpcProviderHealth)
    → ordered_providers ps ≡ filter (λ q. q.healthy) ps ++ filter is_down ps
unfolding ordered_providers
ordered_providers_lem [] = refl
ordered_providers_lem (p ∷ ps) =
    ap (insert_by_health p) (ordered_providers_lem ps) ∙ insert_sorted p ps

abbrev pub IsConsistent : RpcProviderHealth → Type 0
IsConsistent p = (p.healthy ≡ true) ↔ (p.consecutive_failures ≡ 0)

noted-IsConsistent :
    (outcome : Called) (now : ℕ) (p : RpcProviderHealth) → IsConsistent (noted outcome now p)
unfolding noted
noted-IsConsistent (answered body) now p = (λ _. refl, λ _. refl)
noted-IsConsistent (threw e) now p = ground arith

note-IsConsistent :
    (url : String) (outcome : Called) (now : ℕ) (ps : List RpcProviderHealth)
    → All IsConsistent ps
    → All IsConsistent (note url outcome now ps)
unfolding note
note-IsConsistent url outcome now [] h = tt
note-IsConsistent url outcome now (p ∷ ps) h = elim (Bool-cases (p.url == url)) [
  | inl same ↦ rw same (noted-IsConsistent outcome now p, note-IsConsistent url outcome now ps h.1)
  | inr other ↦ rw other (h.0, note-IsConsistent url outcome now ps h.1)
]

abbrev pub urls_of : List RpcProviderHealth → List String
urls_of ps = map (λ (p : RpcProviderHealth). p.url) ps

noted-url : (outcome : Called) (now : ℕ) (p : RpcProviderHealth) → (noted outcome now p).url ≡ p.url
unfolding noted
noted-url (answered body) now p = refl
noted-url (threw e) now p = refl

note-urls :
    (url : String) (outcome : Called) (now : ℕ) (ps : List RpcProviderHealth)
    → urls_of (note url outcome now ps) ≡ urls_of ps
unfolding note
note-urls url outcome now [] = refl
note-urls url outcome now (p ∷ ps) = elim (Bool-cases (p.url == url)) [
  | inl same ↦ rw same (
      ap (λ (u : String). u ∷ urls_of (note url outcome now ps)) (noted-url outcome now p)
      ∙ ap (λ us. p.url ∷ us) (note-urls url outcome now ps))
  | inr other ↦ rw other (ap (λ us. p.url ∷ us) (note-urls url outcome now ps))
]

-- The configured providers are kept, and each counts as healthy exactly while it has no failure
-- since its last success.
abbrev pub IsKept : List String → RpcCoordinator → Type 0
IsKept urls c = (urls_of c.providers ≡ urls) × All IsConsistent c.providers

module _ (network : Network) (urls : List String) where
  call-IsKept :
      (url : String) (request : JsonRpcRequest) (c : RpcCoordinator)
      → IsKept urls c
      → IsKept urls (call network url request c).1
  unfolding call
  call-IsKept url request c h =
      (note-urls url _ _ c.providers ∙ h.0, note-IsConsistent url _ _ c.providers h.1)

  read_from-IsKept :
      (tried : List String) (last : Option Error) (request : JsonRpcRequest) (c : RpcCoordinator)
      → IsKept urls c
      → IsKept urls (read_from network tried last request c).1
  unfolding read_from
  read_from-IsKept [] last request c h = h
  read_from-IsKept (url ∷ others) last request c h =
      let after = call-IsKept url request c h in
      elim (Called-cases (call network url request c).0) [
        | inl (response, found) ↦ rw (found, read_from) after
        | inr (e, found) ↦
            rw (found, read_from)
              (read_from-IsKept others (some e) request (call network url request c).1 after)
      ]

  probe-IsKept :
      (url : String) (c : RpcCoordinator) → IsKept urls c → IsKept urls (probe network url c).1
  unfolding probe
  probe-IsKept url c h = elim (Called-cases (call network url health_request c).0) [
    | inl (response, found) ↦ rw (found, probe) (call-IsKept url health_request c h)
    | inr (e, found) ↦ rw (found, probe) (call-IsKept url health_request c h)
  ]

  pick-IsKept :
      (tried : List String) (c : RpcCoordinator)
      → IsKept urls c
      → IsKept urls (pick network tried c).1
  unfolding pick
  pick-IsKept [] c h = h
  pick-IsKept (url ∷ others) c h = elim (Bool-cases (probe network url c).0) [
    | inl yes' ↦ rw (yes', pick) (probe-IsKept url c h)
    | inr no' ↦ rw (no', pick) (pick-IsKept others (probe network url c).1 (probe-IsKept url c h))
  ]

  gather-IsKept :
      (tried : List String) (request : JsonRpcRequest) (c : RpcCoordinator)
      → IsKept urls c
      → IsKept urls (gather network tried request c).1
  unfolding gather
  gather-IsKept [] request c h = h
  gather-IsKept (url ∷ others) request c h =
      let rest =
        gather-IsKept others request (call network url request c).1 (call-IsKept url request c h) in
      elim (Called-cases (call network url request c).0) [
        | inl (response, found) ↦ rw (found, gather) rest
        | inr (e, found) ↦ rw (found, gather) rest
      ]

  reconcile-IsKept :
      (hash id : String) (c : RpcCoordinator)
      → IsKept urls c
      → IsKept urls (reconcile network hash id c).1
  unfolding reconcile
  reconcile-IsKept hash id c h = gather-IsKept (ordered_urls c) (status_request id hash) c h

  submit_to-IsKept :
      (url hash : String) (request : JsonRpcRequest) (c : RpcCoordinator)
      → IsKept urls c
      → IsKept urls (submit_to network url hash request c).1
  unfolding submit_to
  submit_to-IsKept url hash request c h =
      let after = call-IsKept url request c h in
      elim (Called-cases (call network url request c).0) [
        | inl (response, found) ↦ rw (found, submit_to) after
        | inr (e, found) ↦
            rw (found, submit_to)
              (reconcile-IsKept hash request.id (call network url request c).1 after)
      ]

  submission-IsKept :
      (request : JsonRpcRequest) (c : RpcCoordinator)
      → IsKept urls c
      → IsKept urls (handle_submission network request c).1
  unfolding handle_submission
  submission-IsKept request c h = elim (Option-cases request.transaction) [
    | inl gone ↦ rw (gone, handle_submission) h
    | inr (transaction, found) ↦ elim (Option-cases (network.transaction_hash transaction)) [
      | inl gone ↦ rw (found, handle_submission, gone) h
      | inr (hash, hashed) ↦
          let after = pick-IsKept (ordered_urls c) c h in
          elim (Option-cases (pick network (ordered_urls c) c).0) [
            | inl gone ↦ rw (found, handle_submission, hashed, gone) after
            | inr (url, picked) ↦
                rw (found, handle_submission, hashed, picked)
                  (submit_to-IsKept url hash request (pick network (ordered_urls c) c).1 after)
          ]
    ]
  ]

  status-IsKept :
      (request : JsonRpcRequest) (c : RpcCoordinator)
      → IsKept urls c
      → IsKept urls (handle_transaction_status network request c).1
  unfolding handle_transaction_status
  status-IsKept request c h = elim (Option-cases request.hash) [
    | inl gone ↦ rw (gone, handle_transaction_status) h
    | inr (hash, found) ↦
        rw (found, handle_transaction_status) (reconcile-IsKept hash request.id c h)
  ]

  -- A request keeps the configured providers, in their order, and keeps each of them marked healthy
  -- exactly while it has no failure since its last success.
  pub handle-IsKept :
      (request : JsonRpcRequest) (c : RpcCoordinator)
      → IsKept urls c
      → IsKept urls (handle network request c).1
  unfolding handle handle_read
  handle-IsKept request c h = elim (Bool-cases (request.method == "sendTransaction")) [
    | inl submits ↦ rw (submits, handle) (submission-IsKept request c h)
    | inr other ↦ elim (Bool-cases (request.method == "getTransaction")) [
      | inl asks ↦ rw (other, handle, asks) (status-IsKept request c h)
      | inr reads ↦ rw (other, handle, reads) (read_from-IsKept (ordered_urls c) none request c h)
    ]
  ]

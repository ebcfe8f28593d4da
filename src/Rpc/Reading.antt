-- ===== src/Rpc/Reading.antt =====
-- rpc-coordinator.ts: `handleRead`.
use stellar_facilitator.Common.{
  ℕ, zero, suc, ◌+◌, ◌<◌, ◌≡◌, refl, subst, inl, inr, String, Option, none, some, List, [], ◌∷◌,
  arith, length, get_elem?,
}
use stellar_facilitator.Common.Int.{negsuc}
use stellar_facilitator.Rpc.{
  Error, JsonRpcRequest, JsonRpcResponse, RpcCoordinator, Network, Called, answered, threw, judge,
  rpc_error, all_failed, call, read_from, handle_read, ordered_urls,
}
use stellar_facilitator.Rpc.Once.{Called-cases}

module _ (network : Network) (request : JsonRpcRequest) where
  -- The call made after `n` others, to `url`, threw.
  abbrev pub HasThrown : ℕ → String → Type 0
  HasThrown n url = (e : Error) × (judge (network.fetch n url request) ≡ threw e)

  abbrev pub AllThrew : ℕ → List String → ℕ → Type 0
  AllThrew n urls bound =
      (j : ℕ) (url : String) → j < bound → get_elem? urls j ≡ some url → HasThrown (n + j) url

  -- Of the providers `urls`, asked in this order after `n` calls, either the first that answers gives
  -- the response, and the later ones are not asked, or each was asked once and threw.
  pub data IsServedBy (n : ℕ) (urls : List String) (response : JsonRpcResponse) (calls : ℕ)
      : Type 0 where
    first_answer :
        (at : ℕ) (url : String)
        → get_elem? urls at ≡ some url
        → judge (network.fetch (n + at) url request) ≡ answered response
        → AllThrew n urls at
        → calls ≡ n + suc at
        → IsServedBy n urls response calls
    no_answer :
        (last : Option Error)
        → AllThrew n urls (length urls)
        → calls ≡ n + length urls
        → response ≡ rpc_error request.id (negsuc 32000) (all_failed last)
        → IsServedBy n urls response calls

  AllThrew-suc :
      (n : ℕ) (url : String) (urls : List String) (bound : ℕ)
      → HasThrown n url
      → AllThrew (suc n) urls bound
      → AllThrew n (url ∷ urls) (suc bound)
  AllThrew-suc n url urls bound h later zero other less found =
      let same : url ≡ other = ground (arith, found) in
      subst (λ m. HasThrown m other) n_plus_0 (subst (HasThrown n) same h)
    where
      n_plus_0 : n ≡ n + 0
      n_plus_0 = omega arith
  AllThrew-suc n url urls bound h later (suc j) other less found =
      subst (λ m. HasThrown m other) n_plus_suc (later j other (omega arith) found)
    where
      n_plus_suc : suc n + j ≡ n + suc j
      n_plus_suc = omega arith

  IsServedBy-suc :
      (n : ℕ) (url : String) (urls : List String) (response : JsonRpcResponse) (calls : ℕ)
      → HasThrown n url
      → IsServedBy (suc n) urls response calls
      → IsServedBy n (url ∷ urls) response calls
  IsServedBy-suc n url urls response calls h
        (first_answer at found at_found answer before counted) =
      first_answer (suc at) found at_found
        (subst (λ m. judge (network.fetch m found request) ≡ answered response) n_plus_suc answer)
        (AllThrew-suc n url urls at h before) (omega (arith, counted))
    where
      n_plus_suc : suc n + at ≡ n + suc at
      n_plus_suc = omega arith
  IsServedBy-suc n url urls response calls h (no_answer last before counted same) =
      no_answer last (AllThrew-suc n url urls (length urls) h before) (omega (arith, counted)) same

  call-judged :
      (url : String) (c : RpcCoordinator) (o : Called)
      → (call network url request c).0 ≡ o
      → judge (network.fetch (length c.calls) url request) ≡ o
  unfolding call
  call-judged url c o h = h

  call-length :
      (url : String) (c : RpcCoordinator)
      → length (call network url request c).1.calls ≡ suc (length c.calls)
  unfolding call
  call-length url c = refl

  read_from-IsServedBy :
      (urls : List String) (last : Option Error) (c : RpcCoordinator)
      → IsServedBy
          (length c.calls)
          urls
          (read_from network urls last request c).0
          (length (read_from network urls last request c).1.calls)
  unfolding read_from
  read_from-IsServedBy [] last c =
      no_answer last (λ j url less found. absurd (omega arith)) (omega arith) refl
  read_from-IsServedBy (url ∷ urls) last c = elim (Called-cases (call network url request c).0) [
    | inl (response, found) ↦
        rw (found, read_from)
          (first_answer 0 url refl
            (subst (λ m. judge (network.fetch m url request) ≡ answered response) n_plus_0
              (call-judged url c (answered response) found))
            (λ j other less e. absurd (omega arith)) (omega (arith, call-length url c)))
    | inr (e, found) ↦
        rw (found, read_from)
          (IsServedBy-suc (length c.calls) url urls _ _ (e, call-judged url c (threw e) found)
            (subst
              (λ n.
                IsServedBy n urls
                  (read_from network urls (some e) request (call network url request c).1).0
                  (length
                    (read_from network urls (some e) request
                      (call network url request c).1).1.calls))
              (call-length url c)
              (read_from-IsServedBy urls (some e) (call network url request c).1)))
  ]
    where
      n_plus_0 : length c.calls ≡ length c.calls + 0
      n_plus_0 = omega arith

  -- A read asks the providers in order until one answers, and gives that answer; it asks none
  -- twice, and gives an error of its own only if all of them threw.
  pub handle_read-IsServedBy :
      (c : RpcCoordinator)
      → IsServedBy
          (length c.calls)
          (ordered_urls c)
          (handle_read network request c).0
          (length (handle_read network request c).1.calls)
  unfolding handle_read
  handle_read-IsServedBy c = read_from-IsServedBy (ordered_urls c) none c

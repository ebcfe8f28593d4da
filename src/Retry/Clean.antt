-- ===== src/Retry/Clean.antt =====
-- retry.ts over upto-scheme.ts: no check of `_verify` refuses for the ledger skew.
use stellar_facilitator.Common.{
  ◌≡◌, refl, inl, inr, String, Bool, true, false, Option, none, some, List, [], ◌∷◌, ◌==◌,
  string_eq, opt_is, arith, Option-cases,
}
use stellar_facilitator.Common.Int.{ℤ}
use stellar_facilitator.Common.Check.{Check, pass, reject, throws, ◌>>=◌, refuse_if, attempt}
use stellar_facilitator.Upto.{
  Bytes, AuthEntry, Credentials, address_credentials, other_credentials, Operation,
  invoke_host_function, other_operation, HostFunction, invoke_contract, other_function,
  ParsedUptoTerms, PaymentPayload, PaymentRequirements, UptoStellarScheme, Simulation, sim_success,
  sim_error, SimulateSuccess, Transaction, Sdk, Rpc,
}
use stellar_facilitator.Upto.Verify.{
  Invocation, conclude, single_call, settle_args, malformed_unless, decode, parse_terms,
  match_terms, check_ledger, replay_state, check_replay, accept_simulation, check_simulation,
  check_entries, validate_auth_entries, check_terms, check_from, verify,
}
use stellar_facilitator.Retry.{ledger_skew_reason}

-- The check may refuse, but not for ledger skew.
abbrev pub IsClean {ℓ} : {A : Type ℓ} → Check A → Type 0
IsClean (pass a) = Unit
IsClean (reject reason payer) = (reason == ledger_skew_reason) ≡ false
IsClean throws = Unit

pub IsClean-bind {ℓ κ} :
    {A : Type ℓ} {B : Type κ} (m : Check A) (f : A → Check B)
    → IsClean m
    → ((a : A) → IsClean (f a))
    → IsClean (m >>= f)
IsClean-bind (pass a) f h k = k a
IsClean-bind (reject reason payer) f h k = h
IsClean-bind throws f h k = tt

pub refuse_if-IsClean :
    (test : Bool) (reason : String) (payer : Option String)
    → (reason == ledger_skew_reason) ≡ false
    → IsClean (refuse_if test reason payer)
unfolding refuse_if
refuse_if-IsClean true reason payer h = h
refuse_if-IsClean false reason payer h = tt

pub attempt-IsClean {ℓ} : {A : Type ℓ} (o : Option A) → IsClean (attempt o)
unfolding attempt
attempt-IsClean none = tt
attempt-IsClean (some a) = tt

malformed_unless-IsClean {ℓ} : {A : Type ℓ} (o : Option A) → IsClean (malformed_unless o)
unfolding malformed_unless
malformed_unless-IsClean none = refl
malformed_unless-IsClean (some a) = tt

single_call-IsClean : (ops : List Operation) → IsClean (single_call ops)
unfolding single_call
single_call-IsClean [] = refl
single_call-IsClean (other_operation ∷ ops) = refl
single_call-IsClean (invoke_host_function none a ∷ ops) = refl
single_call-IsClean (invoke_host_function (some g) a ∷ []) = tt
single_call-IsClean (invoke_host_function (some g) a ∷ (o ∷ ops)) = refl

settle_args-IsClean : (id : String) (f : HostFunction) → IsClean (settle_args id f)
unfolding settle_args refuse_if
settle_args-IsClean id other_function = refl
settle_args-IsClean id (invoke_contract c n []) = ground arith
settle_args-IsClean id (invoke_contract c n (a ∷ [])) = ground arith
settle_args-IsClean id (invoke_contract c n (a ∷ (b ∷ more))) = ground arith

-- A response that does not name the ledger skew.
abbrev pub IsUnskewed : Option String → Type 0
IsUnskewed o = opt_is o ledger_skew_reason ≡ false

module _ (sdk : Sdk) (rpc : Rpc) (scheme : UptoStellarScheme) where
  parse_terms-IsClean :
      (payer : String) (arg : Bytes) → IsClean (parse_terms sdk rpc scheme payer arg)
  unfolding parse_terms
  parse_terms-IsClean payer arg = search (IsClean-bind, attempt-IsClean) depth 12

  match_terms-IsClean :
      (p : PaymentPayload) (r : PaymentRequirements) (t : ParsedUptoTerms)
      → IsClean (match_terms sdk rpc scheme p r t)
  unfolding match_terms
  match_terms-IsClean p r t = search (IsClean-bind, refuse_if-IsClean, attempt-IsClean) depth 12

  check_ledger-IsClean : (t : ParsedUptoTerms) → IsClean (check_ledger sdk rpc scheme t)
  unfolding check_ledger
  check_ledger-IsClean t = search (IsClean-bind, refuse_if-IsClean, attempt-IsClean) depth 12

  check_replay-IsClean : (t : ParsedUptoTerms) → IsClean (check_replay sdk rpc scheme t)
  unfolding check_replay
  check_replay-IsClean t = elim (Option-cases (replay_state sdk rpc scheme t)) [
    | inl gone ↦ rw (gone, check_replay) refl
    | inr (settled, known) ↦ rw (known, check_replay) (refuse_if-IsClean settled _ _ refl)
  ]

  accept_simulation-IsClean :
      (t : ParsedUptoTerms) (answer : Simulation)
      → IsClean (accept_simulation sdk rpc scheme t answer)
  unfolding accept_simulation
  accept_simulation-IsClean t sim_error = refl
  accept_simulation-IsClean t (sim_success sim) =
      IsClean-bind _ _ (refuse_if-IsClean _ _ _ refl) λ _. tt

  check_simulation-IsClean :
      (transaction : Transaction) (t : ParsedUptoTerms)
      → IsClean (check_simulation sdk rpc scheme transaction t)
  unfolding check_simulation
  check_simulation-IsClean transaction t =
      search (IsClean-bind, attempt-IsClean, accept_simulation-IsClean) depth 12

  check_entries-IsClean :
      (payer : String) (max_ledger : Option ℤ) (entries : List AuthEntry)
      → IsClean (check_entries sdk rpc scheme payer max_ledger entries)
  unfolding check_entries
  check_entries-IsClean payer max_ledger [] = tt
  check_entries-IsClean payer max_ledger (entry ∷ entries) =
      go entry.credentials refl (check_entries-IsClean payer max_ledger entries)
    where
      go :
          (c : Credentials)
          → entry.credentials ≡ c
          → IsClean (check_entries sdk rpc scheme payer max_ledger entries)
          → IsClean (check_entries sdk rpc scheme payer max_ledger (entry ∷ entries))
      go other_credentials h ih = rw (h, check_entries) refl
      go (address_credentials address expiration) h ih =
          rw (h, check_entries)
            (IsClean-bind _ _ (refuse_if-IsClean _ _ _ refl)
              λ _. IsClean-bind _ _ (refuse_if-IsClean _ _ _ refl) λ _. ih)

  validate-IsClean :
      (c : Invocation) (t : ParsedUptoTerms) (sim : SimulateSuccess)
      → IsClean (validate_auth_entries sdk rpc scheme c t sim)
  unfolding validate_auth_entries
  validate-IsClean c t sim =
      search (IsClean-bind, refuse_if-IsClean, attempt-IsClean, check_entries-IsClean) depth 12

  check_terms-IsClean :
      (p : PaymentPayload) (r : PaymentRequirements) (c : Invocation) (payer : String)
      → IsClean (check_terms sdk rpc scheme p r c payer)
  unfolding check_terms
  check_terms-IsClean p r c payer =
      search
        (
          IsClean-bind, parse_terms-IsClean, match_terms-IsClean, check_ledger-IsClean,
          check_replay-IsClean, check_simulation-IsClean, validate-IsClean,
        )
        depth 16

  decode-IsClean :
      (p : PaymentPayload) (r : PaymentRequirements) → IsClean (decode sdk rpc scheme p r)
  unfolding decode
  decode-IsClean p r =
      search
        (
          IsClean-bind, refuse_if-IsClean, attempt-IsClean, malformed_unless-IsClean,
          single_call-IsClean, settle_args-IsClean,
        )
        depth 24

  conclude-IsUnskewed :
      (payer : Option String) (m : Check ParsedUptoTerms)
      → IsClean m
      → IsUnskewed (conclude payer m).response.invalid_reason
  unfolding conclude
  conclude-IsUnskewed payer (pass t) h = refl
  conclude-IsUnskewed payer (reject reason named) h = h
  conclude-IsUnskewed payer throws h = refl

  pub verify-IsUnskewed :
      (p : PaymentPayload) (r : PaymentRequirements)
      → IsUnskewed (verify sdk rpc scheme p r).response.invalid_reason
  unfolding verify check_from
  verify-IsUnskewed p r = go (decode sdk rpc scheme p r) refl (decode-IsClean p r)
    where
      from :
          (c : Invocation) (o : Option String)
          → sdk.native_address c.payer_arg ≡ o
          → IsUnskewed (check_from sdk rpc scheme p r c).response.invalid_reason
      from c none h = rw (h, check_from) (conclude-IsUnskewed none throws tt)
      from c (some payer) h =
          rw (h, check_from) (conclude-IsUnskewed (some payer) _ (check_terms-IsClean p r c payer))

      go :
          (m : Check Invocation)
          → decode sdk rpc scheme p r ≡ m
          → IsClean m
          → IsUnskewed (verify sdk rpc scheme p r).response.invalid_reason
      go (pass c) h clean = rw (h, verify) (from c (sdk.native_address c.payer_arg) refl)
      go (reject reason named) h clean =
          rw (h, verify) (conclude-IsUnskewed none (reject reason named) clean)
      go throws h clean = rw (h, verify) (conclude-IsUnskewed none throws tt)

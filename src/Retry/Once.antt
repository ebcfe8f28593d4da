-- ===== src/Retry/Once.antt =====
-- retry.ts over upto-scheme.ts: an `upto` settlement never gives the reason that is retried.
use stellar_facilitator.Common.{
  ℕ, zero, suc, ◌≡◌, refl, inl, inr, String, Bool, false, Option, none, some, List, [], ◌∷◌, ◌==◌,
  string_eq, arith, Bool-cases, Option-cases, subst,
}
use stellar_facilitator.Common.Check.{Check, pass, reject, throws}
use stellar_facilitator.Upto.{
  AuthEntry, Credentials, address_credentials, other_credentials, ParsedUptoTerms, PaymentPayload,
  PaymentRequirements, UptoStellarScheme, Simulation, sim_success, sim_error, Sdk, Rpc,
}
use stellar_facilitator.Upto.Verify.{Verification, verify}
use stellar_facilitator.Upto.Settle.{
  SettleResponse, SettleCall, Submission, SignOutcome, signed, sign_error, Ledger, Settlement,
  require_digest, read_result_digest, or_sign, sign_entry, sign_entries, simulated, signed_by,
  sign_fee_bump, build_call, client_transaction, built, authorize, prepare, submit, settle_prepared,
  settle_verified, settle, reason_or, SendResult, poll_for_transaction,
}
use stellar_facilitator.Retry.{
  ledger_skew_reason, retry_loop, with_ledger_skew_retry, settle_retry_reason,
}
use stellar_facilitator.Retry.Clean.{
  IsClean, IsClean-bind, refuse_if-IsClean, attempt-IsClean, IsUnskewed, verify-IsUnskewed,
}

module _ (sdk : Sdk) (rpc : Rpc) (ledger : Ledger) (scheme : UptoStellarScheme) where
  require_digest-IsClean :
      (p : PaymentPayload) (payer : String) → IsClean (require_digest sdk rpc ledger scheme p payer)
  unfolding require_digest
  require_digest-IsClean p payer =
      elim (Option-cases (read_result_digest sdk rpc ledger scheme p)) [
        | inl gone ↦ rw (gone, require_digest) refl
        | inr (d, found) ↦ rw (found, require_digest) tt
      ]

  build_call-IsClean :
      (selected : Option String) (p : PaymentPayload) (r : PaymentRequirements)
      (t : ParsedUptoTerms)
      → IsClean (build_call sdk rpc ledger scheme selected p r t)
  unfolding build_call
  build_call-IsClean selected p r t =
      search (IsClean-bind, refuse_if-IsClean, attempt-IsClean, require_digest-IsClean) depth 20

  or_sign-IsClean :
      (c : SettleCall) (address : String) (entry : AuthEntry)
      → IsClean (or_sign sdk rpc ledger scheme c address entry)
  unfolding or_sign
  or_sign-IsClean c address entry =
      ground (arith, attempt-IsClean (sdk.authorize_entry entry c.source c.terms.deadline))

  sign_entry-IsClean :
      (c : SettleCall) (client : List AuthEntry) (entry : AuthEntry)
      → IsClean (sign_entry sdk rpc ledger scheme c client entry)
  unfolding sign_entry
  sign_entry-IsClean c client entry = go entry.credentials refl
    where
      go :
          (k : Credentials)
          → entry.credentials ≡ k
          → IsClean (sign_entry sdk rpc ledger scheme c client entry)
      go other_credentials h = rw (h, sign_entry) tt
      go (address_credentials address expiration) h =
          rw (h, sign_entry) (ground (arith, or_sign-IsClean c address entry))

  sign_entries-IsClean :
      (c : SettleCall) (client entries : List AuthEntry)
      → IsClean (sign_entries sdk rpc ledger scheme c client entries)
  unfolding sign_entries
  sign_entries-IsClean c client [] = tt
  sign_entries-IsClean c client (entry ∷ entries) =
      IsClean-bind _ _ (sign_entry-IsClean c client entry)
        λ first. IsClean-bind _ _ (sign_entries-IsClean c client entries) λ others. tt

  simulated-IsClean :
      (o : Option Simulation) (payer : String) → IsClean (simulated sdk rpc ledger scheme o payer)
  unfolding simulated
  simulated-IsClean none payer = tt
  simulated-IsClean (some sim_error) payer = refl
  simulated-IsClean (some (sim_success sim)) payer = tt

  signed_by-IsClean :
      (o : Option SignOutcome) (reason payer : String)
      → (reason == ledger_skew_reason) ≡ false
      → IsClean (signed_by sdk rpc ledger scheme o reason payer)
  unfolding signed_by
  signed_by-IsClean none reason payer h = tt
  signed_by-IsClean (some sign_error) reason payer h = h
  signed_by-IsClean (some signed) reason payer h = tt

  sign_fee_bump-IsClean :
      (c : SettleCall) (auth : List AuthEntry)
      → IsClean (sign_fee_bump sdk rpc ledger scheme c auth)
  unfolding sign_fee_bump
  sign_fee_bump-IsClean c auth = elim (Option-cases scheme.fee_bump_signer) [
    | inl gone ↦ rw (gone, sign_fee_bump) tt
    | inr (sponsor, found) ↦ rw (found, sign_fee_bump) (signed_by-IsClean _ _ _ refl)
  ]

  built-IsClean : (c : SettleCall) → IsClean (built sdk rpc ledger scheme c)
  unfolding built
  built-IsClean c = ground arith

  client-IsClean :
      (p : PaymentPayload) (r : PaymentRequirements)
      → IsClean (client_transaction sdk rpc ledger scheme p r)
  unfolding client_transaction
  client-IsClean p r = search (IsClean-bind, attempt-IsClean) depth 12

  authorize-IsClean :
      (p : PaymentPayload) (r : PaymentRequirements) (c : SettleCall)
      → IsClean (authorize sdk rpc ledger scheme p r c)
  unfolding authorize
  authorize-IsClean p r c =
      search
        (
          IsClean-bind, built-IsClean, simulated-IsClean, client-IsClean, sign_entries-IsClean,
          signed_by-IsClean, sign_fee_bump-IsClean,
        )
        depth 20

  prepare-IsClean :
      (selected : Option String) (p : PaymentPayload) (r : PaymentRequirements)
      (t : ParsedUptoTerms)
      → IsClean (prepare sdk rpc ledger scheme selected p r t)
  unfolding prepare
  prepare-IsClean selected p r t =
      search (IsClean-bind, build_call-IsClean, authorize-IsClean) depth 8

  submit-IsUnskewed :
      (s : Submission) → IsUnskewed (submit sdk rpc ledger scheme s).response.error_reason
  unfolding submit
  submit-IsUnskewed s = elim (Option-cases (ledger.send_transaction s)) [
    | inl thrown ↦ rw (thrown, submit) refl
    | inr (result, sent) ↦ elim (Bool-cases result.pending) [
      | inr rejected ↦ ground (arith, sent, rejected)
      | inl pending ↦ elim (Bool-cases (polled result)) [
        | inl yes' ↦ ground (arith, sent, pending, yes')
        | inr no' ↦ ground (arith, sent, pending, no')
      ]
    ]
  ]
    where
      polled : SendResult → Bool
      polled result =
          poll_for_transaction (ledger.get_transaction result.hash) 0 s.call.timeout_seconds

  prepared-IsUnskewed :
      (payer : String) (m : Check Submission)
      → IsClean m
      → IsUnskewed (settle_prepared sdk rpc ledger scheme payer m).response.error_reason
  unfolding settle_prepared
  prepared-IsUnskewed payer (pass s) h = submit-IsUnskewed s
  prepared-IsUnskewed payer (reject reason named) h = h
  prepared-IsUnskewed payer throws h = refl

  reason_or-IsUnskewed : (o : Option String) → IsUnskewed o → IsUnskewed (some (reason_or o))
  reason_or-IsUnskewed none h = refl
  reason_or-IsUnskewed (some reason) h = h

  verified-IsUnskewed :
      (selected : Option String) (p : PaymentPayload) (r : PaymentRequirements) (v : Verification)
      → IsUnskewed v.response.invalid_reason
      → IsUnskewed (settle_verified sdk rpc ledger scheme selected p r v).response.error_reason
  unfolding settle_verified
  verified-IsUnskewed selected p r v h = elim (Option-cases v.parsed_terms) [
    | inl gone ↦ rw (gone, settle_verified) (reason_or-IsUnskewed v.response.invalid_reason h)
    | inr (t, found) ↦ elim (Bool-cases v.response.is_valid) [
      | inr invalid ↦
          rw (found, settle_verified, invalid) (reason_or-IsUnskewed v.response.invalid_reason h)
      | inl valid ↦
          rw (found, settle_verified, valid)
            (prepared-IsUnskewed t.payer _ (prepare-IsClean selected p r t))
    ]
  ]

  pub settle-IsUnskewed :
      (selected : Option String) (p : PaymentPayload) (r : PaymentRequirements) (out : Settlement)
      → settle sdk rpc ledger scheme selected p r ≡ some out
      → IsUnskewed out.response.error_reason
  unfolding settle
  settle-IsUnskewed selected p r out e = elim (Option-cases (sdk.network_passphrase r.network)) [
    | inl gone ↦ absurd (ground (arith, gone))
    | inr (passphrase, found) ↦
        let same : settle_verified sdk rpc ledger scheme selected p r (verify sdk rpc scheme p r)
            ≡ out =
          ground (arith, found) in
        subst (λ (x : Settlement). IsUnskewed x.response.error_reason) same
          (verified-IsUnskewed selected p r (verify sdk rpc scheme p r)
            (verify-IsUnskewed sdk rpc scheme p r))
  ]

retry_reason-IsUnskewed :
    (response : SettleResponse)
    → IsUnskewed response.error_reason
    → IsUnskewed (settle_retry_reason response)
unfolding settle_retry_reason
retry_reason-IsUnskewed response h = ground arith

-- Whatever the network answers at each call, the retry calls an `upto` settlement once and returns
-- what that call gave.
pub upto_settled_once :
    (sdk : Sdk) (scheme : UptoStellarScheme) (rpc : ℕ → Rpc) (ledger : ℕ → Ledger)
    (selected : ℕ → Option String) (p : PaymentPayload) (r : PaymentRequirements)
    (out : ℕ → Settlement) (retries : ℕ)
    → ((k : ℕ) → settle sdk (rpc k) (ledger k) scheme (selected k) p r ≡ some (out k))
    → with_ledger_skew_retry (λ k. (out k).response) settle_retry_reason retries
      ≡ ((out 0).response, 1)
unfolding with_ledger_skew_retry retry_loop
upto_settled_once sdk scheme rpc ledger selected p r out zero e = refl
upto_settled_once sdk scheme rpc ledger selected p r out (suc left) e =
    rw
      (retry_reason-IsUnskewed (out 0).response
        (settle-IsUnskewed sdk (rpc 0) (ledger 0) scheme (selected 0) p r (out 0) (e 0)))
      refl

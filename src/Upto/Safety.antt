-- ===== src/Upto/Safety.antt =====
-- upto-scheme.ts: `settle` as a whole.
use stellar_facilitator.Common.{
  String, Bool, true, false, Option, none, some, List, [], ◌∷◌, string_eq,
}
use stellar_facilitator.Common.Check.{pass}
use stellar_facilitator.Upto.{
  AuthEntry, Transaction, ParsedUptoTerms, PaymentPayload, PaymentRequirements, UptoStellarScheme,
  Sdk, Rpc,
}
use stellar_facilitator.Upto.Verify.{verify}
use stellar_facilitator.Common.{
  ◌≡◌, refl, arith, inl, inr, Bool-cases, Option-cases, ◌∙◌, sym, ap, subst,
}
use stellar_facilitator.Common.Check.{>>=-eq-pass, Check-cases}
use stellar_facilitator.Upto.Verify.{conclude}
use stellar_facilitator.Upto.Sound.{IsAccepted, verify_cases}
use stellar_facilitator.Upto.Settle.{
  SettleResponse, SettleCall, Submission, SendResult, Ledger, Settlement, sign_entries, simulated,
  signed_by, sign_fee_bump, build_call, client_transaction, built, authorize, prepare, submit,
  settle_prepared, settle_verified, settle, operation_auth, poll_for_transaction,
}
use stellar_facilitator.Upto.Charge.{
  IsWithinTerms, build_call-IsWithinTerms, IsSentAs, Each, sign_entries-IsSentAs,
}
use stellar_facilitator.Upto.Poll.{IsConfirmed, poll-IsConfirmed}

module _ (sdk : Sdk) (rpc : Rpc) (ledger : Ledger) (scheme : UptoStellarScheme) where
  -- A submission that the payment authorizes.
  pub record IsDue (p : PaymentPayload) (r : PaymentRequirements) (s : Submission) : Type 0 where
    pub accepted : IsAccepted sdk rpc scheme p r s.call.terms
    pub within : IsWithinTerms sdk rpc ledger scheme p r s.call
    pub client : Transaction
    pub entries : List AuthEntry
    pub entries_sent :
        Each
          (IsSentAs sdk rpc ledger scheme s.call (operation_auth client.operations))
          entries
          s.auth
    pub client_of : client_transaction sdk rpc ledger scheme p r ≡ pass client
    pub sponsor : s.fee_bump ≡ scheme.fee_bump_signer

  record IsReady (p : PaymentPayload) (r : PaymentRequirements) (c : SettleCall) (s : Submission)
      : Type 0 where
    same_call : s.call ≡ c
    client : Transaction
    client_of : client_transaction sdk rpc ledger scheme p r ≡ pass client
    entries : List AuthEntry
    entries_sent :
        Each (IsSentAs sdk rpc ledger scheme c (operation_auth client.operations)) entries s.auth
    sponsor : s.fee_bump ≡ scheme.fee_bump_signer

  authorize-IsReady :
      (p : PaymentPayload) (r : PaymentRequirements) (c : SettleCall) (s : Submission)
      → authorize sdk rpc ledger scheme p r c ≡ pass s
      → IsReady p r c s
  unfolding authorize
  authorize-IsReady p r c s e0 =
      let (_, _, e1) = >>=-eq-pass (built sdk rpc ledger scheme c) _ e0 in
      let (entries, _, e2) =
        >>=-eq-pass (simulated sdk rpc ledger scheme (ledger.simulate_call c []) c.payer) _ e1 in
      let (client, client_of, e3) =
        >>=-eq-pass (client_transaction sdk rpc ledger scheme p r) _ e2 in
      let (auth, sent, e4) =
        >>=-eq-pass
          (sign_entries sdk rpc ledger scheme c (operation_auth client.operations) entries) _ e3 in
      let (_, _, e5) =
        >>=-eq-pass (simulated sdk rpc ledger scheme (ledger.simulate_call c auth) c.payer) _ e4 in
      let (_, _, e6) =
        >>=-eq-pass
          (signed_by sdk rpc ledger scheme (ledger.sign_transaction c.source c auth)
            "settle_upto_stellar_transaction_signing_failed" c.payer)
          _ e5 in
      let (_, _, e7) = >>=-eq-pass (sign_fee_bump sdk rpc ledger scheme c auth) _ e6 in
      subst (IsReady p r c) (same e7) (record {
        same_call = refl;
        client = client;
        client_of = client_of;
        entries = entries;
        entries_sent =
            sign_entries-IsSentAs sdk rpc ledger scheme c (operation_auth client.operations) entries
              auth sent;
        sponsor = refl;
      })
    where
      same : {a b : Submission} → pass a ≡ pass b → a ≡ b
      same h = cc

  prepare-IsDue :
      (selected : Option String) (p : PaymentPayload) (r : PaymentRequirements)
      (t : ParsedUptoTerms) (s : Submission)
      → IsAccepted sdk rpc scheme p r t
      → prepare sdk rpc ledger scheme selected p r t ≡ pass s
      → IsDue p r s
  unfolding prepare
  prepare-IsDue selected p r t s accepted e0 =
      let (c, of_call, e1) = >>=-eq-pass (build_call sdk rpc ledger scheme selected p r t) _ e0 in
      let (terms, within) =
        build_call-IsWithinTerms sdk rpc ledger scheme selected p r t c of_call in
      let ready = authorize-IsReady p r c s e1 in
      let same : c ≡ s.call = sym ready.same_call in
      record {
        accepted =
            subst (IsAccepted sdk rpc scheme p r)
              (sym terms ∙ ap (λ (x : SettleCall). x.terms) same) accepted;
        within = subst (IsWithinTerms sdk rpc ledger scheme p r) same within;
        client = ready.client;
        entries = ready.entries;
        entries_sent =
            subst
              (λ x.
                Each (IsSentAs sdk rpc ledger scheme x (operation_auth ready.client.operations))
                  ready.entries s.auth)
              same ready.entries_sent;
        client_of = ready.client_of;
        sponsor = ready.sponsor;
      }

  -- What a settlement that sent `s` reports.
  pub data Reports (s : Submission) (response : SettleResponse) : Type 0 where
    -- Confirmed: the first final status among the attempts is a success.
    confirmed :
        (result : SendResult)
        → ledger.send_transaction s ≡ some result
        → result.pending ≡ true
        → IsConfirmed (ledger.get_transaction result.hash) 0 s.call.timeout_seconds
        → response.success ≡ true
        → response.transaction ≡ result.hash
        → Reports s response
    -- The network took it or not, but it is not confirmed: the hash is reported.
    not_confirmed :
        (result : SendResult)
        → ledger.send_transaction s ≡ some result
        → response.success ≡ false
        → response.transaction ≡ result.hash
        → Reports s response
    -- The submission threw: no hash is reported.
    unknown :
        ledger.send_transaction s ≡ none
        → response.success ≡ false
        → response.transaction ≡ ""
        → response.error_reason ≡ some "unexpected_settle_error"
        → Reports s response

  submit-Reports :
      (s : Submission)
      → ((submit sdk rpc ledger scheme s).sent ≡ s ∷ [])
        × Reports s (submit sdk rpc ledger scheme s).response
  unfolding submit
  submit-Reports s = elim (Option-cases (ledger.send_transaction s)) [
    | inl thrown ↦ rw (thrown, submit) (refl, unknown thrown refl refl refl)
    | inr (result, sent) ↦ elim (Bool-cases result.pending) [
      | inr rejected ↦ (
        ground (arith, sent, rejected),
        not_confirmed result sent (ground (arith, sent, rejected)) (ground (arith, sent, rejected)),
      )
      | inl pending ↦ elim (Bool-cases (polled result)) [
        | inl yes' ↦ (
          ground (arith, sent, pending, yes'),
          confirmed result sent pending ((poll-IsConfirmed _ 0 _).0 yes')
              (ground (arith, sent, pending, yes')) (ground (arith, sent, pending, yes')),
        )
        | inr no' ↦ (
          ground (arith, sent, pending, no'),
          not_confirmed result sent (ground (arith, sent, pending, no'))
              (ground (arith, sent, pending, no')),
        )
      ]
    ]
  ]
    where
      polled : SendResult → Bool
      polled result =
          poll_for_transaction (ledger.get_transaction result.hash) 0 s.call.timeout_seconds

  -- A settlement sends nothing and fails without a hash, or sends one submission, which is due, and
  -- reports what became of it.
  pub data IsSafe (p : PaymentPayload) (r : PaymentRequirements) (out : Settlement) : Type 0 where
    nothing_sent :
        out.sent ≡ []
        → out.response.success ≡ false
        → out.response.transaction ≡ ""
        → IsSafe p r out
    one_sent :
        (s : Submission) → out.sent ≡ s ∷ [] → IsDue p r s → Reports s out.response → IsSafe p r out

  settle_verified-IsSafe :
      (selected : Option String) (p : PaymentPayload) (r : PaymentRequirements)
      → IsSafe p r (settle_verified sdk rpc ledger scheme selected p r (verify sdk rpc scheme p r))
  unfolding settle_verified conclude
  settle_verified-IsSafe selected p r = elim (verify_cases sdk rpc scheme p r) [
    | inr (reason, payer, refused) ↦ rw refused (nothing_sent refl refl refl)
    | inl (t, accepted, passed) ↦
        rw passed (elim (Check-cases (prepare sdk rpc ledger scheme selected p r t)) [
          | inl (s, ready) ↦
              let (sent, reports) = submit-Reports s in
              rw (ready, settle_prepared)
                (one_sent s sent (prepare-IsDue selected p r t s accepted ready) reports)
          | inr (inl (reason, named, refused)) ↦
              rw (refused, settle_prepared) (nothing_sent refl refl refl)
          | inr (inr thrown) ↦ rw (thrown, settle_prepared) (nothing_sent refl refl refl)
        ])
  ]

  -- For every answer of the network, of the signers and of the libraries: a settlement sends at most
  -- one transaction, and only for a payment that verification accepts, with a charge between zero
  -- and the ceiling that the payer signed; it reports success only for a transaction that it sent
  -- and that the network confirmed, and no hash where it sent nothing or where sending threw.
  pub settle-IsSafe :
      (selected : Option String) (p : PaymentPayload) (r : PaymentRequirements) (out : Settlement)
      → settle sdk rpc ledger scheme selected p r ≡ some out
      → IsSafe p r out
  unfolding settle
  settle-IsSafe selected p r out e = elim (Option-cases (sdk.network_passphrase r.network)) [
    | inl gone ↦ absurd (ground (arith, gone))
    | inr (passphrase, found) ↦
        subst (IsSafe p r) (ground (arith, found)) (settle_verified-IsSafe selected p r)
  ]

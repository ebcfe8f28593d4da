-- ===== src/Upto/Settle.antt =====
-- upto-scheme.ts: `settle`, `readResultDigest`, `pollForTransaction`, `getAuthorizedFacilitator` and
-- `getSigners`.
--
-- `settle` is cut where it submits: `prepare` is all that comes before `sendTransaction`, and
-- `submit` the rest. What was sent is kept beside the response.
use stellar_facilitator.Common.{
  ℕ, zero, suc, String, Bool, true, false, not, ◌||◌, Option, none, some, List, [], ◌∷◌, ◌++◌, ◌==◌,
  string_eq, if◌then◌else◌, includes, find, opt_is,
}
use stellar_facilitator.Common.Int.{ℤ, pos, ltb_ℤ}
use stellar_facilitator.Common.Check.{Check, pass, reject, throws, ◌>>=◌, ◌>>◌, refuse_if, attempt}
use stellar_facilitator.Upto.{
  Bytes, address_credentials, other_credentials, AuthEntry, Operation, invoke_host_function,
  invoke_contract, Transaction, ParsedUptoTerms, PaymentPayload, PaymentRequirements,
  UptoStellarScheme, Simulation, sim_success, sim_error, Sdk, Rpc,
}
use stellar_facilitator.Upto.Verify.{Verification, verify}

pub record SettleResponse : Type 0 where
  pub success : Bool
  pub transaction : String
  pub error_reason : Option String
  pub payer : Option String

-- The contract call that `settle` builds, with the account that submits it.
pub record SettleCall : Type 0 where
  pub payer : String
  pub terms : ParsedUptoTerms
  pub actual : ℤ
  pub result_digest : Bytes
  pub source : String
  pub sequence : ℕ
  pub timeout_seconds : ℕ

pub record Submission : Type 0 where
  pub call : SettleCall
  pub auth : List AuthEntry
  pub fee_bump : Option String

pub data SignOutcome : Type 0 where
  signed : SignOutcome
  sign_error : SignOutcome

pub record SendResult : Type 0 where
  pub pending : Bool
  pub hash : String

pub data TxStatus : Type 0 where
  tx_success tx_failed tx_other : TxStatus

-- What settlement asks of the network and of the signers; `none` stands for a call that throws.
pub record Ledger : Type 0 where
  -- Whether the call can be built from its parts.
  pub builds : SettleCall → Bool
  pub simulate_call : SettleCall → List AuthEntry → Option Simulation
  -- By the address of the signer.
  pub sign_transaction : String → SettleCall → List AuthEntry → Option SignOutcome
  pub send_transaction : Submission → Option SendResult
  -- The status that a hash has at each attempt to read it.
  pub get_transaction : String → ℕ → Option TxStatus

abbrev default_timeout_seconds : ℕ
default_timeout_seconds = 60

unfoldable pub timeout_of : PaymentRequirements → ℕ
timeout_of r = elim r.max_timeout_seconds [ none ↦ default_timeout_seconds | some n ↦ n ]

-- The loop of `pollForTransaction`: `left` attempts from attempt `i` on.
unfoldable pub poll_for_transaction : (ℕ → Option TxStatus) → ℕ → ℕ → Bool
poll_for_transaction status i zero = false
poll_for_transaction status i (suc left) =
    let later = poll_for_transaction status (suc i) left in
    elim (status i) [
      | some tx_success ↦ true
      | some tx_failed ↦ false
      | some tx_other ↦ later
      | none ↦ later
    ]

-- Whether the entry is one of the payer's address credentials.
unfoldable pub is_entry_of : String → AuthEntry → Bool
is_entry_of payer entry = elim entry.credentials [
  | address_credentials address expiration ↦ address == payer
  | other_credentials ↦ false
]

unfoldable pub operation_auth : List Operation → List AuthEntry
operation_auth (invoke_host_function f auth ∷ rest) = auth
operation_auth _ = []

pub record Settlement : Type 0 where
  pub response : SettleResponse
  pub sent : List Submission

abbrev pub failure : String → Option String → String → SettleResponse
failure reason payer hash = record {
  success = false;
  transaction = hash;
  error_reason = some reason;
  payer = payer;
}

abbrev pub unsent : String → Option String → Settlement
unsent reason payer = record { response = failure reason payer ""; sent = [] }

abbrev pub reason_or : Option String → String
reason_or none = "verification_failed"
reason_or (some reason) = reason

-- The part of `getAuthorizedFacilitator` behind the parsed transaction.
unfoldable pub facilitator_of : Sdk → UptoStellarScheme → List Operation → Option String
facilitator_of sdk scheme
      (invoke_host_function (some (invoke_contract contract name (first ∷ (terms_arg ∷ rest)))) auth
        ∷ []) =
    if not (contract == scheme.contract_id) || not (name == "settle")
    then none
    else elim (sdk.native_terms terms_arg) [
      | none ↦ none
      | some raw ↦ if raw.facilitator_is_string then some raw.facilitator else none
    ]
facilitator_of sdk scheme _ = none

module _ (sdk : Sdk) (rpc : Rpc) (ledger : Ledger) (scheme : UptoStellarScheme) where
  unfoldable pub read_result_digest : PaymentPayload → Option Bytes
  read_result_digest p = elim p.result_digest [
    | none ↦ none
    | some encoded ↦ sdk.sha256_digest encoded
  ]

  unfoldable pub require_digest : PaymentPayload → String → Check Bytes
  require_digest p payer = elim (read_result_digest p) [
    | none ↦ reject "settle_upto_missing_result_digest" (some payer)
    | some d ↦ pass d
  ]

  unfoldable pub or_sign : SettleCall → String → AuthEntry → Check AuthEntry
  or_sign call address entry =
      if includes scheme.signing_addresses address || address == call.source
      then attempt (sdk.authorize_entry entry call.source call.terms.deadline)
      else pass entry

  -- Step 6 for one entry of the simulation.
  unfoldable pub sign_entry : SettleCall → List AuthEntry → AuthEntry → Check AuthEntry
  sign_entry call client entry = elim entry.credentials [
    | other_credentials ↦ pass entry
    | address_credentials address expiration ↦
        if address == call.payer
        then elim (find (is_entry_of call.payer) client) [
          | some own ↦ pass own
          | none ↦ or_sign call address entry
        ]
        else or_sign call address entry
  ]

  unfoldable pub sign_entries :
      SettleCall → List AuthEntry → List AuthEntry → Check (List AuthEntry)
  sign_entries call client [] = pass []
  sign_entries call client (entry ∷ entries) = do
    first ← sign_entry call client entry
    others ← sign_entries call client entries
    pass (first ∷ others)

  unfoldable pub simulated : Option Simulation → String → Check (List AuthEntry)
  simulated none payer = throws
  simulated (some sim_error) payer = reject "settle_upto_simulation_failed" (some payer)
  simulated (some (sim_success sim)) payer = pass sim.auth

  unfoldable pub signed_by : Option SignOutcome → String → String → Check (Unit {0})
  signed_by none reason payer = throws
  signed_by (some sign_error) reason payer = reject reason (some payer)
  signed_by (some signed) reason payer = pass tt

  unfoldable pub sign_fee_bump : SettleCall → List AuthEntry → Check (Unit {0})
  sign_fee_bump call auth = elim scheme.fee_bump_signer [
    | none ↦ pass tt
    | some sponsor ↦
        signed_by (ledger.sign_transaction sponsor call auth)
          "settle_upto_stellar_fee_bump_signing_failed" call.payer
  ]

  -- Steps 2 to 4: the call that is to be settled. `selected` is what `selectSigner` returns.
  unfoldable pub build_call :
      Option String → PaymentPayload → PaymentRequirements → ParsedUptoTerms → Check SettleCall
  build_call selected p r t = do
    refuse_if (not (opt_is selected t.facilitator))
        "settle_upto_stellar_facilitator_selection_mismatch" (some t.payer)
    refuse_if (not (includes scheme.signing_addresses t.facilitator))
        "settle_upto_stellar_signer_selection_failed" (some t.payer)
    sequence ← attempt (rpc.get_account t.facilitator)
    actual ← attempt (sdk.big_int r.amount)
    refuse_if (ltb_ℤ actual (pos 0)) "invalid_upto_actual_amount" (some t.payer)
    refuse_if (ltb_ℤ t.max_amount actual) "invalid_upto_actual_exceeds_maximum" (some t.payer)
    digest ← require_digest p t.payer
    pass (record {
      payer = t.payer;
      terms = t;
      actual = actual;
      result_digest = digest;
      source = t.facilitator;
      sequence = sequence;
      timeout_seconds = timeout_of r;
    })

  -- The transaction text is read again, for the payer's entries.
  unfoldable pub client_transaction : PaymentPayload → PaymentRequirements → Check Transaction
  client_transaction p r = do
    passphrase ← attempt (sdk.network_passphrase r.network)
    text ← attempt p.transaction
    attempt (sdk.parse_transaction text passphrase)

  unfoldable pub built : SettleCall → Check (Unit {0})
  built call = if ledger.builds call then pass tt else throws

  -- Steps 5 to 8 and the fee bump of step 9.
  unfoldable pub authorize : PaymentPayload → PaymentRequirements → SettleCall → Check Submission
  authorize p r call = do
    built call
    entries ← simulated (ledger.simulate_call call []) call.payer
    client ← client_transaction p r
    auth ← sign_entries call (operation_auth client.operations) entries
    prepared ← simulated (ledger.simulate_call call auth) call.payer
    signed_by (ledger.sign_transaction call.source call auth)
        "settle_upto_stellar_transaction_signing_failed" call.payer
    sign_fee_bump call auth
    pass (record { call = call; auth = auth; fee_bump = scheme.fee_bump_signer })

  unfoldable pub prepare :
      Option String → PaymentPayload → PaymentRequirements → ParsedUptoTerms → Check Submission
  prepare selected p r t = do call ← build_call selected p r t; authorize p r call

  -- The rest of step 9.
  unfoldable pub submit : Submission → Settlement
  submit s = elim (ledger.send_transaction s) [
    | none ↦ record {
      response = failure "unexpected_settle_error" (some s.call.payer) "";
      sent = s ∷ [];
    }
    | some result ↦
        if not result.pending
        then record {
          response =
              failure "settle_upto_stellar_transaction_submission_failed" (some s.call.payer)
                result.hash;
          sent = s ∷ [];
        }
        else if poll_for_transaction (ledger.get_transaction result.hash) 0 s.call.timeout_seconds
        then record {
          response = record {
            success = true;
            transaction = result.hash;
            error_reason = none;
            payer = some s.call.payer;
          };
          sent = s ∷ [];
        }
        else record {
          response =
              failure "settle_upto_stellar_transaction_failed" (some s.call.payer) result.hash;
          sent = s ∷ [];
        }
  ]

  -- The `return`s before the submission, and the `catch`.
  unfoldable pub settle_prepared : String → Check Submission → Settlement
  unfolding submit
  settle_prepared payer (pass s) = submit s
  settle_prepared payer (reject reason named) = unsent reason named
  settle_prepared payer throws = unsent "unexpected_settle_error" (some payer)

  unfoldable pub settle_verified :
      Option String → PaymentPayload → PaymentRequirements → Verification → Settlement
  unfolding settle_prepared
  settle_verified selected p r v = elim v.parsed_terms [
    | none ↦ unsent (reason_or v.response.invalid_reason) v.response.payer
    | some t ↦
        if v.response.is_valid
        then settle_prepared t.payer (prepare selected p r t)
        else unsent (reason_or v.response.invalid_reason) v.response.payer
  ]

  -- `none`: the network has no passphrase, and the promise is rejected.
  unfoldable pub settle : Option String → PaymentPayload → PaymentRequirements → Option Settlement
  unfolding settle_verified
  settle selected p r = elim (sdk.network_passphrase r.network) [
    | none ↦ none
    | some passphrase ↦ some (settle_verified selected p r (verify sdk rpc scheme p r))
  ]

  -- Any exception is caught and read as `undefined`.
  unfoldable pub get_authorized_facilitator : PaymentPayload → PaymentRequirements → Option String
  get_authorized_facilitator p r =
      if not (p.accepted_scheme == "upto") || not (r.scheme == "upto")
      then none
      else elim (client_transaction p r) [
        | pass transaction ↦ facilitator_of sdk scheme transaction.operations
        | _ ↦ none
      ]

  unfoldable pub get_signers : List String
  get_signers = elim scheme.fee_bump_signer [
    | none ↦ scheme.signing_addresses
    | some sponsor ↦
        if includes scheme.signing_addresses sponsor
        then scheme.signing_addresses
        else scheme.signing_addresses ++ (sponsor ∷ [])
  ]

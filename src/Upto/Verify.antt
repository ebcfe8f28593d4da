-- ===== src/Upto/Verify.antt =====
-- upto-scheme.ts: `_verify`, `validateAuthEntries`, `readSettledState`, `withoutAuthEntries`.
use stellar_facilitator.Common.{
  ℕ, String, Bool, true, false, not, ◌||◌, Option, none, some, List, [], ◌∷◌, ◌==◌, nat_eq,
  string_eq, includes, length,
}
use stellar_facilitator.Common.Int.{ℤ, pos, eqb_ℤ, gtb_number, add_number}
use stellar_facilitator.Common.Check.{Check, pass, reject, throws, ◌>>=◌, ◌>>◌, refuse_if, attempt}
use stellar_facilitator.Upto.{
  Bytes, address_credentials, other_credentials, AuthEntry, HostFunction, invoke_contract,
  other_function, Operation, invoke_host_function, Transaction, ParsedUptoTerms, PaymentPayload,
  PaymentRequirements, UptoStellarScheme, SimulateSuccess, Simulation, sim_success, sim_error,
  reading, Sdk, Rpc,
}

abbrev pub supported_x402_version : ℕ
supported_x402_version = 2

abbrev pub signature_expiration_ledger_tolerance : ℕ
signature_expiration_ledger_tolerance = 2

-- `BASE_FEE` of the SDK.
abbrev pub base_fee : ℕ
base_fee = 100

pub record VerifyResponse : Type 0 where
  pub is_valid : Bool
  pub invalid_reason : Option String
  pub payer : Option String

-- The transaction with its single invocation, taken apart.
pub record Invocation : Type 0 where
  pub transaction : Transaction
  pub auth : List AuthEntry
  pub payer_arg : Bytes
  pub terms_arg : Bytes

-- The function call of the single operation.
unfoldable pub single_call : List Operation → Check (HostFunction × List AuthEntry)
single_call (invoke_host_function (some f) auth ∷ []) = pass (f, auth)
single_call _ = reject "invalid_upto_stellar_payload_wrong_operation" none

unfoldable pub settle_args : String → HostFunction → Check (Bytes × Bytes)
settle_args contract_id other_function = reject "invalid_upto_stellar_payload_wrong_operation" none
settle_args contract_id (invoke_contract contract name args) = do
  refuse_if (not (contract == contract_id)) "invalid_upto_stellar_wrong_contract" none
  refuse_if (not (name == "settle")) "invalid_upto_stellar_wrong_function" none
  elim args [
    | payer_arg ∷ (terms_arg ∷ rest) ↦ pass (payer_arg, terms_arg)
    | _ ↦ reject "invalid_upto_stellar_payload_malformed" none
  ]

unfoldable pub malformed_unless {ℓ} : {A : Type ℓ} → Option A → Check A
malformed_unless none = reject "invalid_upto_stellar_payload_malformed" none
malformed_unless (some a) = pass a

pub record Verification : Type 0 where
  pub response : VerifyResponse
  pub parsed_terms : Option ParsedUptoTerms

-- The `return`s and the `catch`; `payer` is what `fromAddress` holds at the time.
unfoldable pub conclude : Option String → Check ParsedUptoTerms → Verification
conclude payer (pass t) = record {
  response = record { is_valid = true; invalid_reason = none; payer = some t.payer };
  parsed_terms = some t;
}
conclude payer (reject reason named) = record {
  response = record { is_valid = false; invalid_reason = some reason; payer = named };
  parsed_terms = none;
}
conclude payer throws = record {
  response = record {
    is_valid = false;
    invalid_reason = some "unexpected_verify_error";
    payer = payer;
  };
  parsed_terms = none;
}

module _ (sdk : Sdk) (rpc : Rpc) (scheme : UptoStellarScheme) where
  -- Steps 1 to 3.
  unfoldable pub decode : PaymentPayload → PaymentRequirements → Check Invocation
  decode p r = do
    refuse_if (not (p.x402_version == supported_x402_version)) "invalid_x402_version" none
    refuse_if (not (p.accepted_scheme == "upto") || not (r.scheme == "upto")) "unsupported_scheme"
        none
    refuse_if (not (r.network == p.accepted_network)) "network_mismatch" none
    refuse_if (not (sdk.is_stellar_network r.network)) "invalid_network" none
    passphrase ← attempt (sdk.network_passphrase r.network)
    text ← malformed_unless p.transaction
    transaction ← malformed_unless (sdk.parse_transaction text passphrase)
    call ← single_call transaction.operations
    args ← settle_args scheme.contract_id call.0
    pass (record {
      transaction = transaction;
      auth = call.1;
      payer_arg = args.0;
      terms_arg = args.1;
    })

  -- Step 4.
  unfoldable pub parse_terms : String → Bytes → Check ParsedUptoTerms
  parse_terms payer arg = do
    raw ← attempt (sdk.native_terms arg)
    max_amount ← attempt raw.max_amount
    pass (record {
      payer = payer;
      pay_to = raw.pay_to;
      token = raw.token;
      max_amount = max_amount;
      valid_after = raw.valid_after;
      deadline = raw.deadline;
      facilitator = raw.facilitator;
      settlement_id = raw.settlement_id;
      request_digest = raw.request_digest;
    })

  -- Step 5, up to the designation of the facilitator.
  unfoldable pub match_terms :
      PaymentPayload → PaymentRequirements → ParsedUptoTerms → Check (Unit {0})
  match_terms p r t = do
    refuse_if (includes scheme.signing_addresses t.payer)
        "invalid_upto_stellar_facilitator_is_payer" none
    refuse_if (not (t.pay_to == r.pay_to)) "invalid_upto_stellar_wrong_recipient" (some t.payer)
    refuse_if (not (t.token == r.asset)) "invalid_upto_stellar_wrong_asset" (some t.payer)
    expected ← attempt (sdk.big_int p.accepted_amount)
    refuse_if (not (eqb_ℤ t.max_amount expected)) "invalid_upto_stellar_wrong_max_amount"
        (some t.payer)
    refuse_if (not (includes scheme.signing_addresses t.facilitator))
        "invalid_upto_stellar_wrong_facilitator" (some t.payer)

  -- The ledger bounds of step 5.
  unfoldable pub check_ledger : ParsedUptoTerms → Check (Unit {0})
  check_ledger t = do
    current ← attempt rpc.latest_ledger
    refuse_if (gtb_number t.valid_after (some (pos current))) "invalid_upto_stellar_not_yet_valid"
        (some t.payer)
    refuse_if (gtb_number (some (pos current)) t.deadline) "invalid_upto_stellar_signature_expired"
        (some t.payer)

  -- `undefined` wherever a call throws or fails.
  unfoldable pub read_settled_state : String → ParsedUptoTerms → Option Bool
  read_settled_state reader t = elim (rpc.get_account reader) [
    | none ↦ none
    | some sequence ↦
        elim (rpc.simulate_is_settled scheme.contract_id reader sequence t.payer t.settlement_id) [
          | some (reading value) ↦ value
          | _ ↦ none
        ]
  ]

  -- The first of the signing addresses reads; the constructor has made sure that there is one.
  unfoldable pub replay_state : ParsedUptoTerms → Option Bool
  replay_state t = elim scheme.signing_addresses [
    | [] ↦ none
    | reader ∷ rest ↦ read_settled_state reader t
  ]

  unfoldable pub check_replay : ParsedUptoTerms → Check (Unit {0})
  check_replay t = elim (replay_state t) [
    | none ↦ reject "invalid_upto_stellar_replay_check_failed" (some t.payer)
    | some settled ↦
        refuse_if settled "invalid_upto_stellar_authorization_already_settled" (some t.payer)
  ]

  unfoldable pub apply_auth_entries : List AuthEntry → Transaction → Transaction
  apply_auth_entries auth transaction = elim transaction.operations [
    | invoke_host_function f old ∷ rest ↦ record transaction {
      operations = invoke_host_function f auth ∷ rest;
    }
    | _ ↦ transaction
  ]

  unfoldable pub accept_simulation : ParsedUptoTerms → Simulation → Check SimulateSuccess
  accept_simulation t sim_error = reject "invalid_upto_stellar_simulation_failed" (some t.payer)
  accept_simulation t (sim_success sim) = do
    refuse_if
        (gtb_number (add_number sim.min_resource_fee base_fee)
          (some (pos scheme.max_transaction_fee_stroops)))
        "invalid_upto_stellar_fee_exceeds_maximum" (some t.payer)
    pass sim

  -- Step 6.
  unfoldable pub check_simulation : Transaction → ParsedUptoTerms → Check SimulateSuccess
  check_simulation transaction t = do
    answer ← attempt (rpc.simulate (apply_auth_entries [] transaction))
    accept_simulation t answer

  -- The loop of `validateAuthEntries`.
  unfoldable pub check_entries : String → Option ℤ → List AuthEntry → Check (Unit {0})
  check_entries payer max_ledger [] = pass tt
  check_entries payer max_ledger (entry ∷ entries) =
      let later = check_entries payer max_ledger entries in
      elim entry.credentials [
        | other_credentials ↦ reject "invalid_upto_stellar_unsupported_credential_type" (some payer)
        | address_credentials address expiration ↦ do
          refuse_if (includes scheme.signing_addresses address)
              "invalid_upto_stellar_facilitator_in_auth" (some payer)
          refuse_if
              (gtb_number (some (pos expiration))
                (add_number max_ledger signature_expiration_ledger_tolerance))
              "invalid_upto_stellar_expiration_too_far" (some payer)
          later
      ]

  -- Step 7.
  unfoldable pub validate_auth_entries :
      Invocation → ParsedUptoTerms → SimulateSuccess → Check (Unit {0})
  validate_auth_entries call t sim = do
    refuse_if (length call.auth == 0) "invalid_upto_stellar_no_auth_entries" (some t.payer)
    check_entries t.payer t.deadline call.auth
    signed ← attempt (sdk.already_signed call.transaction sim)
    refuse_if (not (includes signed t.payer)) "invalid_upto_stellar_missing_payer_signature"
        (some t.payer)

  -- All that follows the assignment of `fromAddress`.
  unfoldable pub check_terms :
      PaymentPayload → PaymentRequirements → Invocation → String → Check ParsedUptoTerms
  check_terms p r call payer = do
    t ← parse_terms payer call.terms_arg
    match_terms p r t
    check_ledger t
    check_replay t
    sim ← check_simulation call.transaction t
    validate_auth_entries call t sim
    pass t

  unfoldable pub check_from : PaymentPayload → PaymentRequirements → Invocation → Verification
  unfolding conclude
  check_from p r call = elim (sdk.native_address call.payer_arg) [
    | none ↦ conclude none throws
    | some payer ↦ conclude (some payer) (check_terms p r call payer)
  ]

  unfoldable pub verify : PaymentPayload → PaymentRequirements → Verification
  unfolding check_from
  verify p r = elim (decode p r) [
    | pass call ↦ check_from p r call
    | reject reason named ↦ conclude none (reject reason named)
    | throws ↦ conclude none throws
  ]

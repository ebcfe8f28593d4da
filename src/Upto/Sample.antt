-- ===== src/Upto/Sample.antt =====
-- upto-scheme.ts: one payment, with a network and libraries that accept it.
use stellar_facilitator.Common.{
  String, true, false, Option, none, some, [], ◌∷◌, ◌==◌, string_eq, if◌then◌else◌,
}
use stellar_facilitator.Common.Int.{ℤ, pos}
use stellar_facilitator.Upto.{
  AuthEntry, address_credentials, invoke_host_function, invoke_contract, Transaction, RawTerms,
  ParsedUptoTerms, PaymentPayload, PaymentRequirements, UptoStellarScheme, sim_success, reading,
  Sdk, Rpc,
}
use stellar_facilitator.Common.{◌≡◌, refl}
use stellar_facilitator.Common.Check.{refuse_if, attempt, pass}
use stellar_facilitator.Upto.Verify.{
  verify, decode, malformed_unless, single_call, settle_args, check_terms, parse_terms, match_terms,
  check_ledger, check_replay, replay_state, read_settled_state, check_simulation, accept_simulation,
  validate_auth_entries, apply_auth_entries, check_entries, check_from, conclude,
}
use stellar_facilitator.Upto.Settle.{
  settle, authorize, build_call, built, client_transaction, is_entry_of, operation_auth, or_sign,
  poll_for_transaction, prepare, read_result_digest, require_digest, settle_prepared,
  settle_verified, sign_entries, sign_entry, sign_fee_bump, signed_by, simulated, submit,
  timeout_of, SettleCall, signed, tx_success, Ledger, Settlement,
}

abbrev payer_entry : AuthEntry
payer_entry = record { credentials = address_credentials "GPAYER" 100; body = 7 ∷ [] }

abbrev sample_transaction : Transaction
sample_transaction = record {
  operations =
      invoke_host_function (some (invoke_contract "CUPTO" "settle" ((1 ∷ []) ∷ ((2 ∷ []) ∷ []))))
        (payer_entry ∷ [])
      ∷ [];
  envelope = [];
}

abbrev raw_terms : RawTerms
raw_terms = record {
  pay_to = "GSELLER";
  token = "CUSDC";
  max_amount = some (pos 100);
  valid_after = some (pos 10);
  deadline = some (pos 100);
  facilitator = "GFAC";
  facilitator_is_string = true;
  settlement_id = 3 ∷ [];
  request_digest = 4 ∷ [];
}

abbrev pub sample_terms : ParsedUptoTerms
sample_terms = record {
  payer = "GPAYER";
  pay_to = "GSELLER";
  token = "CUSDC";
  max_amount = pos 100;
  valid_after = some (pos 10);
  deadline = some (pos 100);
  facilitator = "GFAC";
  settlement_id = 3 ∷ [];
  request_digest = 4 ∷ [];
}

abbrev big_int_of : String → Option ℤ
big_int_of text =
    if text == "100" then some (pos 100) else if text == "70" then some (pos 70) else none

abbrev pub sample_sdk : Sdk
sample_sdk = record {
  is_stellar_network = λ n. n == "stellar:testnet";
  network_passphrase = λ n. some "Test";
  big_int = big_int_of;
  parse_transaction = λ text passphrase. some sample_transaction;
  native_address = λ b. some "GPAYER";
  native_terms = λ b. some raw_terms;
  already_signed = λ t s. some ("GPAYER" ∷ []);
  authorize_entry = λ e address d. some e;
  sha256_digest = λ text. some (9 ∷ []);
}

abbrev pub sample_rpc : Rpc
sample_rpc = record {
  latest_ledger = some 50;
  get_account = λ a. some 7;
  simulate = λ t.
      some (sim_success (record { min_resource_fee = some (pos 10); auth = payer_entry ∷ [] }));
  simulate_is_settled = λ c reader n payer id. some (reading (some false));
}

abbrev pub sample_ledger : Ledger
sample_ledger = record {
  builds = λ c. true;
  simulate_call = λ c auth.
      some (sim_success (record { min_resource_fee = some (pos 10); auth = payer_entry ∷ [] }));
  sign_transaction = λ address c auth. some signed;
  send_transaction = λ s. some (record { pending = true; hash = "H" });
  get_transaction = λ hash i. some tx_success;
}

abbrev pub sample_scheme : UptoStellarScheme
sample_scheme = record {
  contract_id = "CUPTO";
  signing_addresses = "GFAC" ∷ [];
  max_transaction_fee_stroops = 1000;
  fee_bump_signer = none;
}

abbrev pub sample_payload : PaymentPayload
sample_payload = record {
  x402_version = 2;
  accepted_scheme = "upto";
  accepted_network = "stellar:testnet";
  accepted_amount = "100";
  transaction = some "XDR";
  result_digest = some "sha256:09";
}

-- What the settlement is asked to charge: 70 of the 100 signed for.
abbrev pub sample_requirements : PaymentRequirements
sample_requirements = record {
  scheme = "upto";
  network = "stellar:testnet";
  asset = "CUSDC";
  amount = "70";
  pay_to = "GSELLER";
  max_timeout_seconds = some 2;
}

abbrev sample_call : SettleCall
sample_call = record {
  payer = "GPAYER";
  terms = sample_terms;
  actual = pos 70;
  result_digest = 9 ∷ [];
  source = "GFAC";
  sequence = 7;
  timeout_seconds = 2;
}

abbrev pub sample_settlement : Settlement
sample_settlement = record {
  response = record {
    success = true;
    transaction = "H";
    error_reason = none;
    payer = some "GPAYER";
  };
  sent = record { call = sample_call; auth = payer_entry ∷ []; fee_bump = none } ∷ [];
}

pub sample_verifies :
    verify sample_sdk sample_rpc sample_scheme sample_payload sample_requirements
    ≡ conclude (some "GPAYER") (pass sample_terms)
unfolding verify decode malformed_unless single_call settle_args check_terms parse_terms match_terms
    check_ledger check_replay replay_state read_settled_state check_simulation accept_simulation
    validate_auth_entries apply_auth_entries check_entries check_from conclude refuse_if attempt
sample_verifies = refl

pub sample_settles :
    settle sample_sdk sample_rpc sample_ledger sample_scheme
      (some "GFAC")
      sample_payload
      sample_requirements
    ≡ some sample_settlement
unfolding verify decode malformed_unless single_call settle_args check_terms parse_terms match_terms
    check_ledger check_replay replay_state read_settled_state check_simulation accept_simulation
    validate_auth_entries apply_auth_entries check_entries check_from conclude refuse_if attempt
    settle authorize build_call built client_transaction is_entry_of operation_auth or_sign
    poll_for_transaction prepare read_result_digest require_digest settle_prepared settle_verified
    sign_entries sign_entry sign_fee_bump signed_by simulated submit timeout_of
sample_settles = refl

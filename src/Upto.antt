-- ===== src/Upto.antt =====
-- facilitator-service/src/stellar/upto-scheme.ts: what the `upto` scheme reads, and the code that it
-- calls from the Stellar SDK and from @x402/stellar.
--
-- An XDR value is its bytes. What the SDK computes is the record `Sdk`, and what the network answers
-- is the record `Rpc`; `none` stands for a call that throws. A JavaScript number that may be NaN is
-- an `Option ℤ`, for the ledgers and fees are integers; the ledger of the network and a number of
-- seconds are not negative.
pub mod Verify
pub mod Accepted
pub mod Sound
pub mod Complete
pub mod Sample
mod Tests
pub mod Settle
pub mod Charge
pub mod Poll
pub mod Safety
use stellar_facilitator.Common.{ℕ, String, Bool, Option, List}
use stellar_facilitator.Common.Int.{ℤ}

abbrev pub Bytes : Type 0
Bytes = List ℕ

pub data Credentials : Type 0 where
  -- The address, and the ledger at which its signature expires.
  address_credentials : String → ℕ → Credentials
  other_credentials : Credentials

-- `body` is the rest of the entry: nonce, signature and invocation.
pub record AuthEntry : Type 0 where
  pub credentials : Credentials
  pub body : Bytes

pub data HostFunction : Type 0 where
  -- The contract address, the function name and the arguments.
  invoke_contract : String → String → List Bytes → HostFunction
  other_function : HostFunction

pub data Operation : Type 0 where
  invoke_host_function : Option HostFunction → List AuthEntry → Operation
  other_operation : Operation

-- `envelope` is the rest of the transaction.
pub record Transaction : Type 0 where
  pub operations : List Operation
  pub envelope : Bytes

-- What `scValToNative` makes of the second argument of `settle`; `max_amount` is what `BigInt` makes
-- of that field, and the ledgers are what `Number` makes of theirs.
pub record RawTerms : Type 0 where
  pub pay_to : String
  pub token : String
  pub max_amount : Option ℤ
  pub valid_after : Option ℤ
  pub deadline : Option ℤ
  -- `String(terms.facilitator)`, and whether it was a string to begin with.
  pub facilitator : String
  pub facilitator_is_string : Bool
  pub settlement_id : Bytes
  pub request_digest : Bytes

pub record ParsedUptoTerms : Type 0 where
  pub payer : String
  pub pay_to : String
  pub token : String
  pub max_amount : ℤ
  pub valid_after : Option ℤ
  pub deadline : Option ℤ
  pub facilitator : String
  pub settlement_id : Bytes
  pub request_digest : Bytes

-- `transaction` is `none` where the payload has no string there, `result_digest` likewise.
pub record PaymentPayload : Type 0 where
  pub x402_version : ℕ
  pub accepted_scheme : String
  pub accepted_network : String
  pub accepted_amount : String
  pub transaction : Option String
  pub result_digest : Option String

pub record PaymentRequirements : Type 0 where
  pub scheme : String
  pub network : String
  pub asset : String
  pub amount : String
  pub pay_to : String
  pub max_timeout_seconds : Option ℕ

-- The scheme's configuration. `fee_bump_signer` is the address of that signer.
pub record UptoStellarScheme : Type 0 where
  pub contract_id : String
  pub signing_addresses : List String
  pub max_transaction_fee_stroops : ℕ
  pub fee_bump_signer : Option String

pub record SimulateSuccess : Type 0 where
  pub min_resource_fee : Option ℤ
  pub auth : List AuthEntry

pub data Simulation : Type 0 where
  sim_success : SimulateSuccess → Simulation
  sim_error : Simulation

-- The simulated call of `is_settled`: an error, or the truth value of what it returned, if anything.
pub data SettledReading : Type 0 where
  reading_error : SettledReading
  reading : Option Bool → SettledReading

pub record Sdk : Type 0 where
  pub is_stellar_network : String → Bool
  pub network_passphrase : String → Option String
  -- `BigInt(text)`
  pub big_int : String → Option ℤ
  -- `new Transaction(xdr, passphrase)`
  pub parse_transaction : String → String → Option Transaction
  pub native_address : Bytes → Option String
  pub native_terms : Bytes → Option RawTerms
  -- The addresses whose entries are signed, by `gatherAuthEntrySignatureStatus`.
  pub already_signed : Transaction → SimulateSuccess → Option (List String)
  -- `authorizeEntry`: the entry, the signer's address and the ledger at which it expires.
  pub authorize_entry : AuthEntry → String → Option ℤ → Option AuthEntry
  -- `/^sha256:[0-9a-f]{64}$/i` and the 32 bytes behind the colon.
  pub sha256_digest : String → Option Bytes

pub record Rpc : Type 0 where
  pub latest_ledger : Option ℕ
  -- The sequence number of an account.
  pub get_account : String → Option ℕ
  pub simulate : Transaction → Option Simulation
  -- Contract, reader, its sequence number, payer, settlement id.
  pub simulate_is_settled : String → String → ℕ → String → Bytes → Option SettledReading

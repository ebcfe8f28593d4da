-- ===== src/Upto/Tests.antt =====
-- The theorems of the `upto` scheme at one payment.
use stellar_facilitator.Common.{◌↔◌, ◌≡◌, true, Option, none, some}
use stellar_facilitator.Upto.Verify.{verify, conclude}
use stellar_facilitator.Upto.Sound.{IsAccepted}
use stellar_facilitator.Upto.Complete.{IsAccepted-iff}
use stellar_facilitator.Upto.Safety.{IsSafe, settle-IsSafe}
use stellar_facilitator.Upto.Sample.{
  sample_terms, sample_sdk, sample_rpc, sample_ledger, sample_scheme, sample_payload,
  sample_requirements, sample_settlement, sample_settles, sample_verifies,
}
use stellar_facilitator.Common.{ℕ, zero, suc}
use stellar_facilitator.Common.Check.{pass}
use stellar_facilitator.Upto.Settle.{TxStatus, tx_success, poll_for_transaction}
use stellar_facilitator.Upto.Poll.{IsConfirmed, poll-IsConfirmed}

settle-IsSafe_example :
    IsSafe sample_sdk sample_rpc sample_ledger sample_scheme sample_payload sample_requirements
      sample_settlement
settle-IsSafe_example =
    settle-IsSafe sample_sdk sample_rpc sample_ledger sample_scheme (some "GFAC") sample_payload
      sample_requirements sample_settlement sample_settles

IsAccepted-iff_example :
    (verify sample_sdk sample_rpc sample_scheme sample_payload sample_requirements
      ≡ conclude (some "GPAYER") (pass sample_terms))
    ↔ IsAccepted sample_sdk sample_rpc sample_scheme sample_payload sample_requirements sample_terms
IsAccepted-iff_example =
    IsAccepted-iff sample_sdk sample_rpc sample_scheme sample_payload sample_requirements
      sample_terms

-- So these conditions can be met.
sample-IsAccepted :
    IsAccepted sample_sdk sample_rpc sample_scheme sample_payload sample_requirements sample_terms
sample-IsAccepted =
    (IsAccepted-iff sample_sdk sample_rpc sample_scheme sample_payload sample_requirements
        sample_terms).0
      sample_verifies

-- The network knows the transaction at the second attempt.
abbrev late : ℕ → Option TxStatus
late zero = none
late (suc i) = some tx_success

poll-IsConfirmed_example : (poll_for_transaction late 0 3 ≡ true) ↔ IsConfirmed late 0 3
poll-IsConfirmed_example = poll-IsConfirmed late 0 3

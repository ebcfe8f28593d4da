-- ===== src/Retry/Tests.antt =====
-- The theorems of the retry at concrete inputs.
use stellar_facilitator.Common.{ℕ, zero, suc, ◌<◌, ◌≡◌, true, false, none, some, arith}
use stellar_facilitator.Upto.Settle.{SettleResponse}
use stellar_facilitator.Upto.Sample.{
  sample_sdk, sample_rpc, sample_ledger, sample_scheme, sample_payload, sample_requirements,
  sample_settlement, sample_settles,
}
use stellar_facilitator.Retry.{
  ledger_skew_reason, retry_loop, with_ledger_skew_retry, settle_retry_reason,
}
use stellar_facilitator.Retry.Bounds.{
  IsRetried, with_ledger_skew_retry-IsRetried, settle_retried_unsent,
}
use stellar_facilitator.Retry.Once.{upto_settled_once}

-- The first call is refused for ledger skew, the second succeeds.
abbrev skewed_once : ℕ → SettleResponse
skewed_once zero = record {
  success = false;
  transaction = "";
  error_reason = some ledger_skew_reason;
  payer = none;
}
skewed_once (suc k) = record {
  success = true;
  transaction = "H";
  error_reason = none;
  payer = none;
}

with_ledger_skew_retry-IsRetried_example :
    IsRetried skewed_once settle_retry_reason 2
      (with_ledger_skew_retry skewed_once settle_retry_reason 2).0
      (with_ledger_skew_retry skewed_once settle_retry_reason 2).1
with_ledger_skew_retry-IsRetried_example =
    with_ledger_skew_retry-IsRetried skewed_once settle_retry_reason 2

twice : 1 < (with_ledger_skew_retry skewed_once settle_retry_reason 2).1
unfolding with_ledger_skew_retry retry_loop settle_retry_reason
twice = omega arith

settle_retried_unsent_example :
    ((skewed_once 0).success ≡ false)
    × ((skewed_once 0).transaction ≡ "")
    × ((skewed_once 0).error_reason ≡ some ledger_skew_reason)
settle_retried_unsent_example = settle_retried_unsent skewed_once 2 0 twice

upto_settled_once_example :
    with_ledger_skew_retry (λ k. sample_settlement.response) settle_retry_reason 3
    ≡ (sample_settlement.response, 1)
upto_settled_once_example =
    upto_settled_once sample_sdk sample_scheme (λ k. sample_rpc) (λ k. sample_ledger)
      (λ k. some "GFAC") sample_payload sample_requirements (λ k. sample_settlement) 3
      (λ k. sample_settles)

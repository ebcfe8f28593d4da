-- ===== src/Retry.antt =====
-- facilitator-service/src/retry.ts: `withLedgerSkewRetry` and `settleRetryReason`, with
-- `LEDGER_SKEW_REASON` of facilitator-service/src/reasons.ts.
--
-- `operation k` is the result of the call number `k`, counted from 0. The delay between two calls
-- and the log line change no value, and are left out.
pub mod Bounds
pub mod Clean
pub mod Once
mod Tests
use stellar_facilitator.Common.{
  ℕ, zero, suc, String, Bool, true, false, not, Option, none, some, ◌==◌, string_eq, truthy, opt_is,
  if◌then◌else◌,
}
use stellar_facilitator.Upto.Settle.{SettleResponse}

abbrev pub ledger_skew_reason : String
ledger_skew_reason = "invalid_exact_stellar_signature_expiration_too_far"

module _ {ℓ} {A : Type ℓ} (operation : ℕ → A) (rejection_reason : A → Option String) where
  -- The loop: `calls` have been made, and `left` attempts remain. It gives the last result and the
  -- number of calls.
  unfoldable pub retry_loop : ℕ → ℕ → A → A × ℕ
  retry_loop calls zero result = (result, calls)
  retry_loop calls (suc left) result =
      let later = retry_loop (suc calls) left (operation calls) in
      if not (opt_is (rejection_reason result) ledger_skew_reason) then (result, calls) else later

  unfoldable pub with_ledger_skew_retry : ℕ → A × ℕ
  with_ledger_skew_retry retries = retry_loop 1 retries (operation 0)

unfoldable pub settle_retry_reason : SettleResponse → Option String
settle_retry_reason result =
    if result.success then none else if truthy result.transaction then none else result.error_reason

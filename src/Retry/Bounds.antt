-- ===== src/Retry/Bounds.antt =====
-- retry.ts: how often the operation is called, and on what grounds.
use stellar_facilitator.Common.{
  ℕ, zero, suc, ◌+◌, ◌<◌, ◌≤◌, ◌≡◌, refl, ◌⊎◌, inl, inr, String, true, false, Option, none, some,
  ==_iff, string_eq, opt_is, arith, Bool-cases, subst, ap,
}
use stellar_facilitator.Upto.Settle.{SettleResponse}
use stellar_facilitator.Retry.{
  ledger_skew_reason, retry_loop, with_ledger_skew_retry, settle_retry_reason,
}

module _ {ℓ} {A : Type ℓ} (operation : ℕ → A) (rejection_reason : A → Option String) where
  abbrev pub IsSkew : A → Type 0
  IsSkew a = opt_is (rejection_reason a) ledger_skew_reason ≡ true

  -- The result of the last call is returned; each call before it was rejected for ledger skew, and
  -- it was not, unless the attempts are used up.
  pub record IsRetried (retries : ℕ) (result : A) (calls : ℕ) : Type ℓ where
    pub last : ℕ
    pub counted : calls ≡ suc last
    pub bounded : last ≤ retries
    pub result_of : result ≡ operation last
    pub skewed : (j : ℕ) → j < last → IsSkew (operation j)
    pub ended : (opt_is (rejection_reason result) ledger_skew_reason ≡ false) ⊎ (last ≡ retries)

  retry_loop-IsRetried :
      (left last retries : ℕ)
      → last + left ≡ retries
      → ((j : ℕ) → j < last → IsSkew (operation j))
      → IsRetried retries
          (retry_loop operation rejection_reason (suc last) left (operation last)).0
          (retry_loop operation rejection_reason (suc last) left (operation last)).1
  unfolding retry_loop
  retry_loop-IsRetried zero last retries n skewed = record {
    last = last;
    counted = refl;
    bounded = omega arith;
    result_of = refl;
    skewed = skewed;
    ended = inr (omega arith);
  }
  retry_loop-IsRetried (suc left) last retries n skewed =
      elim (Bool-cases (opt_is (rejection_reason (operation last)) ledger_skew_reason)) [
        | inr other ↦ rw other (record {
          last = last;
          counted = refl;
          bounded = omega arith;
          result_of = refl;
          skewed = skewed;
          ended = inl other;
        })
        | inl skew ↦ rw skew (
            retry_loop-IsRetried left (suc last) retries (omega arith) (λ j h.
              elim (split j last h) [
                | inl same ↦ subst (λ m. IsSkew (operation m)) same skew
                | inr less ↦ skewed j less
              ]))
      ]
    where
      split : (j last : ℕ) → j < suc last → (last ≡ j) ⊎ (j < last)
      split j last h = grind arith

  -- The operation is called at least once and at most `retries` times more; every result but the
  -- last was rejected for ledger skew; the last is returned, and unless the attempts are used up it
  -- was not.
  pub with_ledger_skew_retry-IsRetried :
      (retries : ℕ)
      → IsRetried retries
          (with_ledger_skew_retry operation rejection_reason retries).0
          (with_ledger_skew_retry operation rejection_reason retries).1
  unfolding with_ledger_skew_retry
  with_ledger_skew_retry-IsRetried retries =
      retry_loop-IsRetried retries 0 retries (omega arith) (λ j h. absurd (omega arith))

opt_is-eq : (o : Option String) (a : String) → opt_is o a ≡ true → o ≡ some a
opt_is-eq none a h = cc
opt_is-eq (some b) a h = ap some ((==_iff b a).0 h)

settle_retry_reason_lem :
    (result : SettleResponse) (reason : String)
    → settle_retry_reason result ≡ some reason
    → (result.success ≡ false) × (result.transaction ≡ "") × (result.error_reason ≡ some reason)
unfolding settle_retry_reason
settle_retry_reason_lem result reason h =
    (ground arith, ground (arith, ==_iff result.transaction ""), ground arith)

-- A settlement is called again only after a result that failed, that carries no transaction hash,
-- and whose reason is the ledger skew; so a result with a hash is the last.
pub settle_retried_unsent :
    (operation : ℕ → SettleResponse) (retries j : ℕ)
    → suc j < (with_ledger_skew_retry operation settle_retry_reason retries).1
    → ((operation j).success ≡ false)
      × ((operation j).transaction ≡ "")
      × ((operation j).error_reason ≡ some ledger_skew_reason)
settle_retried_unsent operation retries j h =
    let r = with_ledger_skew_retry-IsRetried operation settle_retry_reason retries in
    settle_retry_reason_lem (operation j) ledger_skew_reason
      (opt_is-eq _ ledger_skew_reason (r.skewed j (omega (arith, r.counted))))

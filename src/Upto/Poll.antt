-- ===== src/Upto/Poll.antt =====
-- upto-scheme.ts: `pollForTransaction`.
use stellar_facilitator.Common.{
  ℕ, zero, suc, ◌+◌, ◌<◌, ◌≤◌, ◌≡◌, ◌≢◌, refl, ◌⊎◌, inl, inr, sym, ◌↔◌, true, Option, none, some,
  arith, subst,
}
use stellar_facilitator.Upto.Settle.{
  TxStatus, tx_success, tx_failed, tx_other, poll_for_transaction,
}

-- The attempt says nothing final.
abbrev pub IsPending : Option TxStatus → Type 0
IsPending o = (o ≢ some tx_success) × (o ≢ some tx_failed)

-- The first final answer among the attempts `i`, …, `i + n - 1` is a success.
pub record IsConfirmed (status : ℕ → Option TxStatus) (i n : ℕ) : Type 0 where
  pub at : ℕ
  pub from : i ≤ at
  pub within : at < i + n
  pub succeeded : status at ≡ some tx_success
  pub before : (j : ℕ) → i ≤ j → j < at → IsPending (status j)

eq_or_lt : (i j : ℕ) → i ≤ j → (i ≡ j) ⊎ (suc i ≤ j)
eq_or_lt i j h = grind arith

IsConfirmed-next :
    (status : ℕ → Option TxStatus) (i n : ℕ)
    → IsPending (status i)
    → IsConfirmed status (suc i) n
    → IsConfirmed status i (suc n)
IsConfirmed-next status i n pending c = record {
  at = c.at;
  from = omega (arith, c.from);
  within = omega (arith, c.within);
  succeeded = c.succeeded;
  before = λ j h k. elim (eq_or_lt i j h) [
    | inl same ↦ subst (λ m. IsPending (status m)) same pending
    | inr less ↦ c.before j less k
  ];
}

poll-IsConfirmed' :
    (status : ℕ → Option TxStatus) (i n : ℕ)
    → poll_for_transaction status i n ≡ true
    → IsConfirmed status i n
unfolding poll_for_transaction
poll-IsConfirmed' status i zero e = absurd (ground arith)
poll-IsConfirmed' status i (suc n) e = go (status i) refl (poll-IsConfirmed' status (suc i) n)
  where
    go :
        (o : Option TxStatus)
        → status i ≡ o
        → (poll_for_transaction status (suc i) n ≡ true → IsConfirmed status (suc i) n)
        → IsConfirmed status i (suc n)
    go (some tx_success) h ih = record {
      at = i;
      from = omega arith;
      within = omega arith;
      succeeded = h;
      before = λ j a b. absurd (omega arith);
    }
    go (some tx_failed) h ih = absurd (ground arith)
    go (some tx_other) h ih =
        IsConfirmed-next status i n (rw h (λ x. absurd (ground arith), λ x. absurd (ground arith)))
          (ih (ground arith))
    go none h ih =
        IsConfirmed-next status i n (rw h (λ x. absurd (ground arith), λ x. absurd (ground arith)))
          (ih (ground arith))

later :
    (status : ℕ → Option TxStatus) (i n : ℕ)
    → (status i ≢ some tx_success)
    → IsConfirmed status i (suc n)
    → IsConfirmed status (suc i) n
later status i n other c = elim (eq_or_lt i c.at c.from) [
  | inl same ↦ absurd (other (subst (λ m. status m ≡ some tx_success) (sym same) c.succeeded))
  | inr less ↦ record {
    at = c.at;
    from = less;
    within = omega (arith, c.within);
    succeeded = c.succeeded;
    before = λ j h k. c.before j (omega (arith, h)) k;
  }
]

clash : {o : Option TxStatus} → o ≡ some tx_success → o ≡ some tx_failed → ⊥
clash h k = absurd (ground arith)

IsConfirmed-polled :
    (status : ℕ → Option TxStatus) (i n : ℕ)
    → IsConfirmed status i n
    → poll_for_transaction status i n ≡ true
unfolding poll_for_transaction
IsConfirmed-polled status i zero c = absurd (omega (arith, c.from, c.within))
IsConfirmed-polled status i (suc n) c = go (status i) refl (IsConfirmed-polled status (suc i) n)
  where
    go :
        (o : Option TxStatus)
        → status i ≡ o
        → (IsConfirmed status (suc i) n → poll_for_transaction status (suc i) n ≡ true)
        → poll_for_transaction status i (suc n) ≡ true
    go (some tx_success) h ih = ground (arith, h)
    go (some tx_failed) h ih = elim (eq_or_lt i c.at c.from) [
      | inl same ↦ absurd (clash (subst (λ m. status m ≡ some tx_success) (sym same) c.succeeded) h)
      | inr less ↦ absurd ((c.before i (omega arith) (omega (arith, less))).1 h)
    ]
    go (some tx_other) h ih =
        ground (arith, h, ih (later status i n (rw h (λ x. absurd (ground arith))) c))
    go none h ih = ground (arith, h, ih (later status i n (rw h (λ x. absurd (ground arith))) c))

-- Polling reports success exactly if one of its attempts finds the transaction successful and no
-- attempt before that one finds a final status.
pub poll-IsConfirmed :
    (status : ℕ → Option TxStatus) (i n : ℕ)
    → (poll_for_transaction status i n ≡ true) ↔ IsConfirmed status i n
poll-IsConfirmed status i n = (poll-IsConfirmed' status i n, IsConfirmed-polled status i n)

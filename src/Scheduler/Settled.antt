-- ===== src/Scheduler/Settled.antt =====
-- settle-scheduler.ts: `processQueue` ends with nobody left waiting who could be served, and every
-- operation keeps it so.
use stellar_facilitator.Common.{
  ℕ, zero, suc, ◌<◌, ◌≡◌, refl, sym, ap, subst, ◌⊎◌, String, List, [], ◌∷◌, ◌++◌, ◌==◌, ==_iff,
  string_eq, nat_eq, arith, inl, inr, Option-cases, Bool-cases, length, count,
}
use stellar_facilitator.Scheduler.{
  Waiter, Scheduler, Turn, stop, again, take_idle, lease_for, grant, take_waiter, serve, turn,
  process_turns, process_queue,
}
use stellar_facilitator.Scheduler.Queue.{
  NoneServable, IsFirst, IsChosen, take_waiter-none, take_waiter-IsFirst, take_idle-IsChosen,
  take_idle-none, length-IsFirst,
}

-- No signer is idle, or nobody in the queue could use one that is.
abbrev pub IsSettled : Scheduler → Type 0
IsSettled s = (s.idle ≡ []) ⊎ NoneServable s.idle s.waiters

-- What the turn of the loop did: it gave the first waiter that can be served a signer that was idle
-- and that the waiter asked for, if it asked for one, and left the others in their order.
pub record IsService (s t : Scheduler) : Type 0 where
  pub waiter : Waiter
  pub address : String
  pub first : IsFirst s.idle s.waiters waiter t.waiters
  pub chosen : IsChosen waiter.preferred s.idle address t.idle
  pub leased_to : t.leases ≡ s.leases ++ (lease_for address ∷ [])

length-zero {ℓ} : {A : Type ℓ} (xs : List A) → length xs ≡ 0 → xs ≡ []
length-zero [] e = refl
length-zero (x ∷ xs) e = absurd (omega arith)

abbrev TurnGoal : Scheduler → Turn → Type 0
TurnGoal s (stop t) = IsSettled t
TurnGoal s (again t) = IsService s t

module _ (s : Scheduler) (now : ℕ) (named : count "" s.idle ≡ 0) where
  serve-TurnGoal :
      (w : Waiter) (left : List Waiter)
      → (s.idle ≡ [] → ⊥)
      → IsFirst s.idle s.waiters w left
      → TurnGoal s (serve now w left s)
  unfolding serve grant
  serve-TurnGoal w left some_idle f = elim (Option-cases (take_idle w.preferred s.idle)) [
    | inl gone ↦ elim (take_idle-none w s.idle gone) [
      | inl empty ↦ absurd (some_idle empty)
      | inr unable ↦ absurd (ground (arith, f.served, unable))
    ]
    | inr ((b, rest), found) ↦
        let c = take_idle-IsChosen w.preferred b s.idle rest found in
        elim (Bool-cases (b == "")) [
          | inl blank ↦ absurd (
              omega (
                arith,
                c.was_idle,
                named,
                ap (λ (t : String). count t s.idle) ((==_iff b "").0 blank),
              ))
          | inr name ↦
              rw (found, name, serve)
                (record { waiter = w; address = b; first = f; chosen = c; leased_to = refl })
        ]
  ]

  turn-TurnGoal : TurnGoal s (turn now s)
  unfolding turn
  turn-TurnGoal = elim (Bool-cases (length s.idle == 0)) [
    | inl done ↦ rw done (inl (length-zero s.idle ((==_iff (length s.idle) 0).0 done)))
    | inr more ↦ elim (Bool-cases (length s.waiters == 0)) [
      | inl done ↦
          rw (more, done)
            (inr (
              subst (NoneServable s.idle)
                (sym (length-zero s.waiters ((==_iff (length s.waiters) 0).0 done))) tt))
      | inr some_wait ↦
          rw (more, some_wait)
            (elim (Option-cases (take_waiter s.idle s.waiters)) [
              | inl gone ↦ rw (gone, turn) (inr (take_waiter-none s.idle s.waiters gone))
              | inr ((w, left), found) ↦
                  rw (found, turn)
                    (serve-TurnGoal w left (λ e. absurd (ground (arith, more, ap length e)))
                      (take_waiter-IsFirst s.idle s.waiters w left found))
            ])
    ]
  ]

-- Each turn that goes on shortens the queue, so the loop ends by itself, and settled.
process_turns-IsSettled :
    (now fuel : ℕ) (s : Scheduler)
    → count "" s.idle ≡ 0
    → length s.waiters < fuel
    → IsSettled (process_turns fuel now s)
unfolding process_turns
process_turns-IsSettled now zero s named h = absurd (omega arith)
process_turns-IsSettled now (suc fuel) s named h =
    go (process_turns-IsSettled now fuel) (turn now s) (turn-TurnGoal s now named)
  where
    go :
        ((u : Scheduler)
          → count "" u.idle ≡ 0
          → length u.waiters < fuel
          → IsSettled (process_turns fuel now u))
        → (t : Turn) → TurnGoal s t
        → IsSettled (elim t [ stop u ↦ u | again u ↦ process_turns fuel now u ])
    go ih (stop u) g = g
    go ih (again u) g =
        ih u (omega (arith, g.chosen.taken ""))
          (omega (arith, length-IsFirst s.idle s.waiters g.waiter u.waiters g.first))

pub process_queue-IsSettled :
    (now : ℕ) (s : Scheduler) → count "" s.idle ≡ 0 → IsSettled (process_queue now s)
unfolding process_queue
process_queue-IsSettled now s named = process_turns-IsSettled now _ s named (omega arith)

-- A turn that goes on serves the longest-waiting request that an idle signer can serve, with a
-- signer that was idle, and the one that the request asked for if it asked for one.
pub turn-IsService :
    (s t : Scheduler) (now : ℕ) → count "" s.idle ≡ 0 → turn now s ≡ again t → IsService s t
turn-IsService s t now named e = subst (TurnGoal s) e (turn-TurnGoal s now named)

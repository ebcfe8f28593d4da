-- ===== src/Scheduler/Tests.antt =====
-- The scheduler's theorems at concrete inputs.
use stellar_facilitator.Common.{
  ◌≤◌, ◌≡◌, refl, sym, String, true, false, List, [], ◌∷◌, ◌==◌, ==_iff, string_eq, arith, count,
  ◌∙◌,
}
use stellar_facilitator.Scheduler.{
  Scheduler, Event, acquires, releases, new_scheduler, acquire, recover_signer, release, quarantine,
  run, turn, step, lease_for, enqueue, lease_or_wait, serve, take_waiter, take_idle, take_first,
  take_named, grant, note_wait, pool_size,
}
use stellar_facilitator.Scheduler.Exclusive.{IsExclusive, run-IsExclusive}
use stellar_facilitator.Scheduler.Settled.{IsSettled, IsService, turn-IsService}
use stellar_facilitator.Scheduler.Fairness.{run-IsSettled, acquire_overtakes_nobody, IsGrant}
use stellar_facilitator.Scheduler.Quarantine.{opened, acquired, IsConserved}
use stellar_facilitator.Scheduler.Conservation.{Session-IsConserved}
use stellar_facilitator.Scheduler.Lost.{recover_before_release_loses}

abbrev pair : List String
pair = "GA" ∷ "GB" ∷ []

unlike : (a : String) → ("GA" == a) ≡ true → ("GB" == a) ≡ true → ⊥
unlike a h k =
    let same : false ≡ true =
      (==_iff "GA" "GB").1 ((==_iff "GA" a).0 h ∙ sym ((==_iff "GB" a).0 k)) in
    cc

pair_distinct : (a : String) → count a pair ≤ 1
pair_distinct a = ground (arith, unlike a)

abbrev history : List Event
history =
    acquires "" 0
    ∷ acquires "" 1
    ∷ acquires "" 2
    ∷ acquires "GB" 3
    ∷ releases 1 5
    ∷ releases 1 6
    ∷ []

run-IsExclusive_example : IsExclusive (run history (new_scheduler pair))
run-IsExclusive_example = run-IsExclusive pair history pair_distinct

run-IsSettled_example : IsSettled (run history (new_scheduler pair))
run-IsSettled_example = run-IsSettled pair history refl

acquire_overtakes_nobody_example :
    IsGrant "GB"
      (run (acquires "" 0 ∷ acquires "GA" 1 ∷ []) (new_scheduler pair))
      (acquire "GB" 2 (run (acquires "" 0 ∷ acquires "GA" 1 ∷ []) (new_scheduler pair))).0
      1
unfolding run step acquire lease_or_wait enqueue grant take_idle take_named take_first pool_size
    new_scheduler
acquire_overtakes_nobody_example =
    acquire_overtakes_nobody pair (acquires "" 0 ∷ acquires "GA" 1 ∷ []) "GB" 2 1 refl refl

Session-IsConserved_example : IsConserved pair (acquire "GA" 0 (new_scheduler pair)).0
Session-IsConserved_example = Session-IsConserved pair pair_distinct refl (acquired "GA" 0 opened)

abbrev one_waits : Scheduler
one_waits = record {
  idle = "GB" ∷ [];
  busy = "GA" ∷ [];
  quarantined = [];
  waiters =
      record { id = 0; preferred = "GA"; queued_at = 1 }
      ∷ record { id = 1; preferred = ""; queued_at = 2 }
      ∷ [];
  leases = lease_for "GA" ∷ [];
  next_waiter = 2;
  total_queued = 2;
  total_rejected = 0;
  max_observed_wait_ms = 0;
}

abbrev then_served : Scheduler
then_served = record {
  idle = [];
  busy = "GA" ∷ "GB" ∷ [];
  quarantined = [];
  waiters = record { id = 0; preferred = "GA"; queued_at = 1 } ∷ [];
  leases = lease_for "GA" ∷ lease_for "GB" ∷ [];
  next_waiter = 2;
  total_queued = 2;
  total_rejected = 0;
  max_observed_wait_ms = 5;
}

turn-IsService_example : IsService one_waits then_served
unfolding turn serve take_waiter take_idle take_first take_named grant note_wait
turn-IsService_example = turn-IsService one_waits then_served 7 refl refl

abbrev leased_alone : Scheduler
leased_alone = record one_waits { waiters = [] }

leased_alone-IsConserved : IsConserved pair leased_alone
leased_alone-IsConserved = record {
  whole = λ a. ground arith;
  tracked = λ a. ground arith;
  unmarked = (λ _. refl, tt);
}

-- The signer "GA" is lost.
recover_before_release_loses_example :
    count "GA" (release 0 9 (recover_signer "GA" 8 (quarantine 0 leased_alone)).0).idle ≡ 0
recover_before_release_loses_example =
    (recover_before_release_loses pair pair_distinct leased_alone leased_alone-IsConserved 0
      (lease_for "GA") refl refl refl 8 9).0

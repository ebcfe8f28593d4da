-- ===== src/Scheduler/Lost.antt =====
-- settle-scheduler.ts: a signer that is recovered between `quarantine()` and `release()`.
use stellar_facilitator.Common.{
  ℕ, ◌≤◌, ◌≡◌, refl, ◌∙◌, String, true, false, some, List, [], ◌∷◌, ◌==◌, ==_iff, string_eq, nat_eq,
  arith, inl, inr, Bool-cases, get_elem?, set, includes, count, count-append, set_delete, set_add,
}
use stellar_facilitator.Scheduler.{
  Lease, Scheduler, quarantine, give_back, release, readmit, recover_signer,
}
use stellar_facilitator.Scheduler.Exclusive.{held, one_if, held-set_closed}
use stellar_facilitator.Scheduler.Quarantine.{IsConserved, get_elem?-set_self, set-set}
use stellar_facilitator.Scheduler.Conservation.{release_lem, process_queue-nil}

includes_of_count : (a : String) (xs : List String) → 1 ≤ count a xs → includes xs a ≡ true
includes_of_count a [] h = absurd (omega arith)
includes_of_count a (x ∷ xs) h = ground (arith, includes_of_count a xs)

includes-set_add : (a : String) (xs : List String) → includes (set_add a xs) a ≡ true
includes-set_add a xs = elim (Bool-cases (includes xs a)) [
  | inl old ↦ rw old old
  | inr new ↦
      rw new (includes_of_count a _ (ground (arith, count-append a xs (a ∷ []), ==_iff a a)))
]

includes-set_delete : (a : String) (xs : List String) → includes (set_delete a xs) a ≡ false
includes-set_delete a [] = refl
includes-set_delete a (x ∷ xs) = ground (arith, includes-set_delete a xs)

module _ (addresses : List String) (distinct : (a : String) → count a addresses ≤ 1) (s : Scheduler)
    (v : IsConserved addresses s) (i : ℕ) (l : Lease) (found : get_elem? s.leases i ≡ some l)
    (open' : l.released ≡ false) (nobody_waits : s.waiters ≡ []) where
  held_one : 1 ≤ held l.address s.leases
  held_one = omega (
    arith,
    held-set_closed l.address l (record l { released = true }) s.leases i found open' refl,
    one,
  )
    where
      one : one_if (l.address == l.address) ≡ 1
      one = ground (arith, ==_iff l.address l.address)

  busy_signer : includes s.busy l.address ≡ true
  busy_signer = includes_of_count l.address s.busy (omega (arith, held_one, v.tracked l.address))

  marked : Scheduler
  marked = record s {
    quarantined = set_add l.address s.quarantined;
    leases = set s.leases i (record l { quarantined = true });
  }

  cleared : Scheduler
  unfolding marked
  cleared = record marked { quarantined = set_delete l.address marked.quarantined }

  quarantine_step : quarantine i s ≡ marked
  unfolding quarantine marked
  quarantine_step = rw (found, quarantine)

  recover_step : (t : ℕ) → (recover_signer l.address t marked).0 ≡ cleared
  unfolding recover_signer marked cleared readmit
  recover_step t =
      rw (includes-set_add l.address s.quarantined, busy_signer)
        (ground (arith, process_queue-nil t cleared nobody_waits))

  release_step :
      (u : ℕ) → release i u cleared ≡ give_back i (record l { quarantined = true }) cleared
  unfolding cleared marked give_back
  release_step u =
      release_lem cleared i u (record l { quarantined = true })
        (get_elem?-set_self s.leases i l _ found) open'
      ∙ process_queue-nil u _ nobody_waits

  lost :
      let end = give_back i (record l { quarantined = true }) cleared in
      (count l.address end.idle ≡ 0)
      × (held l.address end.leases ≡ 0)
      × (includes end.busy l.address ≡ false)
      × (includes end.quarantined l.address ≡ false)
  unfolding give_back cleared marked
  lost = (
    omega (arith, held_one, v.whole l.address, distinct l.address),
    rw (set-set s.leases i (record l { quarantined = true }) gone) (
        ground (
          arith,
          held-set_closed l.address l gone s.leases i found open' refl,
          ==_iff l.address l.address,
          v.whole l.address,
          distinct l.address,
        )),
    includes-set_delete l.address s.busy,
    includes-set_delete l.address (set_add l.address s.quarantined),
  )
    where
      gone : Lease
      gone = record l { quarantined = true; released = true }

  -- With each signer in one place, nobody waiting, and an open lease: if the lease is quarantined,
  -- the signer recovered, and the lease released, in this order, then the signer is no longer idle,
  -- leased, busy or quarantined: the scheduler has lost it.
  pub recover_before_release_loses :
      (t u : ℕ)
      → let end = release i u (recover_signer l.address t (quarantine i s)).0 in
        (count l.address end.idle ≡ 0)
        × (held l.address end.leases ≡ 0)
        × (includes end.busy l.address ≡ false)
        × (includes end.quarantined l.address ≡ false)
  recover_before_release_loses t u = rw (quarantine_step, recover_step t, release_step u) lost

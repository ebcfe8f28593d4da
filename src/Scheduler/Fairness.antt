-- ===== src/Scheduler/Fairness.antt =====
-- settle-scheduler.ts: over any history, nobody who could be served is kept waiting, and no request
-- that arrives overtakes one.
use stellar_facilitator.Common.{
  ℕ, ◌≡◌, refl, ap, String, none, some, List, [], ◌∷◌, ◌++◌, ◌==◌, ◌&&◌, not, subst, length, truthy,
  if-elim, string_eq, nat_eq, arith, inl, inr, Option-cases, Bool-cases, get_elem?, includes, count,
}
use stellar_facilitator.Scheduler.{
  Waiter, Scheduler, Event, acquires, expires, quarantines, releases, recovers, new_scheduler,
  pool_size, lease_for, take_idle, grant, enqueue, lease_or_wait, Acquired, leased, waiting, failed,
  acquire, expire, quarantine, give_back, release, recover_signer, step, run,
}
use stellar_facilitator.Scheduler.Queue.{
  NoneServable, IsChosen, take_idle-IsChosen, take_idle-none, NoneServable-mono,
  NoneServable-append, NoneServable-drop_waiter,
}
use stellar_facilitator.Scheduler.Settled.{IsSettled, process_queue-IsSettled}
use stellar_facilitator.Scheduler.Named.{
  IsNamed, grant-IsNamed, named_of_take_idle, quarantine-IsNamed, give_back-IsNamed,
  readmit-IsNamed, process_queue-IsNamed,
}

pub record IsServed (s : Scheduler) : Type 0 where
  pub settled : IsSettled s
  pub named : IsNamed s

grant-IsSettled :
    (s : Scheduler) (preferred b : String) (rest : List String)
    → take_idle preferred s.idle ≡ some (b, rest)
    → IsSettled s
    → IsSettled (grant b rest s)
unfolding grant
grant-IsSettled s preferred b rest e (inl none_idle) =
    let c = take_idle-IsChosen preferred b s.idle rest e in
    absurd (omega (arith, c.was_idle, ap (count b) none_idle))
grant-IsSettled s preferred b rest e (inr n) =
    let c = take_idle-IsChosen preferred b s.idle rest e in
    inr (NoneServable-mono s.idle rest s.waiters (λ a. omega (arith, c.taken a)) n)

enqueue-IsSettled :
    (s : Scheduler) (preferred : String) (now : ℕ)
    → take_idle preferred s.idle ≡ none
    → IsSettled s
    → IsSettled (enqueue preferred now s)
unfolding enqueue
enqueue-IsSettled s preferred now e (inl none_idle) = inl none_idle
enqueue-IsSettled s preferred now e (inr n) = elim (take_idle-none w s.idle e) [
  | inl none_idle ↦ inl none_idle
  | inr unable ↦ inr (NoneServable-append s.idle s.waiters w n unable)
]
  where
    w : Waiter
    w = record { id = s.next_waiter; preferred = preferred; queued_at = now }

quarantine-IsSettled : (s : Scheduler) (i : ℕ) → IsSettled s → IsSettled (quarantine i s)
unfolding quarantine
quarantine-IsSettled s i settled = elim (Option-cases (get_elem? s.leases i)) [
  | inl gone ↦ rw (gone, quarantine) settled
  | inr (l, found) ↦ rw (found, quarantine) settled
]

module _ (s : Scheduler) (v : IsServed s) where
  lease_or_wait-IsServed :
      (preferred : String) (now : ℕ) → IsServed (lease_or_wait preferred now s).0
  unfolding lease_or_wait enqueue
  lease_or_wait-IsServed preferred now = elim (Option-cases (take_idle preferred s.idle)) [
    | inl gone ↦
        rw (gone, lease_or_wait)
          (record {
            settled = enqueue-IsSettled s preferred now gone v.settled;
            named = record {
              idle_named = v.named.idle_named;
              quarantined_named = v.named.quarantined_named;
              leases_named = v.named.leases_named;
            };
          })
    | inr ((b, rest), found) ↦
        rw (found, lease_or_wait)
          (record {
            settled = grant-IsSettled s preferred b rest found v.settled;
            named =
                grant-IsNamed s v.named preferred b rest found
                  (named_of_take_idle s v.named preferred b rest found);
          })
  ]

  acquire-IsServed : (preferred : String) (now : ℕ) → IsServed (acquire preferred now s).0
  unfolding acquire
  acquire-IsServed preferred now = ground (arith, lease_or_wait-IsServed preferred now)

  expire-IsServed : (id : ℕ) → IsServed (expire id s)
  unfolding expire
  expire-IsServed id = record {
    settled = elim v.settled [
      | inl none_idle ↦ inl none_idle
      | inr n ↦ inr (NoneServable-drop_waiter s.idle id s.waiters n)
    ];
    named = record {
      idle_named = v.named.idle_named;
      quarantined_named = v.named.quarantined_named;
      leases_named = v.named.leases_named;
    };
  }

  quarantine-IsServed : (i : ℕ) → IsServed (quarantine i s)
  quarantine-IsServed i = record {
    settled = quarantine-IsSettled s i v.settled;
    named = quarantine-IsNamed s v.named i;
  }

  release-IsServed : (i now : ℕ) → IsServed (release i now s)
  unfolding release give_back
  release-IsServed i now = elim (Option-cases (get_elem? s.leases i)) [
    | inl gone ↦ rw (gone, release) v
    | inr (l, found) ↦ elim (Bool-cases l.released) [
      | inl closed ↦ rw (found, closed, release) v
      | inr open' ↦
          let named = give_back-IsNamed s v.named i l found in
          rw (found, open', release)
            (record {
              settled = process_queue-IsSettled now (give_back i l s) named.idle_named;
              named = process_queue-IsNamed now (give_back i l s) named;
            })
    ]
  ]

  recover-IsServed : (b : String) (now : ℕ) → IsServed (recover_signer b now s).0
  unfolding recover_signer
  recover-IsServed b now = elim (Bool-cases (includes s.quarantined b)) [
    | inr absent ↦ rw absent v
    | inl present ↦
        let named = readmit-IsNamed s v.named b present in
        rw present (record {
          settled = process_queue-IsSettled now _ named.idle_named;
          named = process_queue-IsNamed now _ named;
        })
  ]

step-IsServed : (e : Event) (s : Scheduler) → IsServed s → IsServed (step e s)
unfolding step
step-IsServed (acquires preferred now) s v = acquire-IsServed s v preferred now
step-IsServed (expires id) s v = expire-IsServed s v id
step-IsServed (quarantines i) s v = quarantine-IsServed s v i
step-IsServed (releases i now) s v = release-IsServed s v i now
step-IsServed (recovers address now) s v = recover-IsServed s v address now

run-IsServed : (es : List Event) (s : Scheduler) → IsServed s → IsServed (run es s)
unfolding run
run-IsServed [] s v = v
run-IsServed (e ∷ es) s v = run-IsServed es (step e s) (step-IsServed e s v)

new_scheduler-IsServed :
    (addresses : List String) → count "" addresses ≡ 0 → IsServed (new_scheduler addresses)
unfolding new_scheduler
new_scheduler-IsServed addresses named = record {
  settled = inr tt;
  named = record { idle_named = named; quarantined_named = refl; leases_named = refl };
}

-- From a scheduler over addresses that are not empty, after any history, a signer is idle only if
-- no waiting request could use it.
pub run-IsSettled :
    (addresses : List String) (es : List Event)
    → count "" addresses ≡ 0
    → IsSettled (run es (new_scheduler addresses))
run-IsSettled addresses es named =
    (run-IsServed es (new_scheduler addresses) (new_scheduler-IsServed addresses named)).settled

-- What a lease that is given at once does: it is the newest, of a signer that was idle and is the one
-- that was asked for if one was, the queue is as before, and nobody in it could have used that or
-- any other idle signer.
pub record IsGrant (preferred : String) (s t : Scheduler) (i : ℕ) : Type 0 where
  pub address : String
  pub chosen : IsChosen preferred s.idle address t.idle
  pub newest : i ≡ length s.leases
  pub leased_to : t.leases ≡ s.leases ++ (lease_for address ∷ [])
  pub queue_kept : t.waiters ≡ s.waiters
  pub overtaken : NoneServable s.idle s.waiters

abbrev GrantGoal : String → Scheduler → Scheduler × Acquired → Type 0
GrantGoal preferred s (t, leased i) = IsGrant preferred s t i
GrantGoal preferred s (t, waiting id) = Unit
GrantGoal preferred s (t, failed e) = Unit

lease_or_wait-IsGrant :
    (s : Scheduler) (preferred : String) (now : ℕ)
    → IsSettled s
    → GrantGoal preferred s (lease_or_wait preferred now s)
unfolding grant lease_or_wait
lease_or_wait-IsGrant s preferred now settled = elim (Option-cases (take_idle preferred s.idle)) [
  | inl gone ↦ rw (gone, lease_or_wait) tt
  | inr ((b, rest), found) ↦
      let c = take_idle-IsChosen preferred b s.idle rest found in
      let overtaken : NoneServable s.idle s.waiters = elim settled [
        | inr n ↦ n
        | inl none_idle ↦ absurd (omega (arith, c.was_idle, ap (count b) none_idle))
      ] in
      rw (found, lease_or_wait)
        (record {
          address = b;
          chosen = c;
          newest = refl;
          leased_to = refl;
          queue_kept = refl;
          overtaken = overtaken;
        })
]

acquire-GrantGoal :
    (s : Scheduler) (preferred : String) (now : ℕ)
    → IsSettled s
    → GrantGoal preferred s (acquire preferred now s)
unfolding acquire
acquire-GrantGoal s preferred now settled =
    if-elim (GrantGoal preferred s) (pool_size s == 0) (λ _. tt)
      λ _.
        if-elim (GrantGoal preferred s) (truthy preferred && includes s.quarantined preferred)
          (λ _. tt)
          λ _.
            if-elim (GrantGoal preferred s)
              (truthy preferred
                && not (includes s.idle preferred)
                && not (includes s.busy preferred))
              (λ _. tt) λ _. lease_or_wait-IsGrant s preferred now settled

-- From a scheduler over addresses that are not empty, after any history, a request that is given a
-- lease at once gets the newest one, of an idle signer and the one it named if it named one, leaves
-- the queue as it is, and overtakes nobody: no waiter could have used an idle signer.
pub acquire_overtakes_nobody :
    (addresses : List String) (es : List Event) (preferred : String) (now i : ℕ)
    → count "" addresses ≡ 0
    → (acquire preferred now (run es (new_scheduler addresses))).1 ≡ leased i
    → IsGrant preferred
        (run es (new_scheduler addresses))
        (acquire preferred now (run es (new_scheduler addresses))).0
        i
acquire_overtakes_nobody addresses es preferred now i named e =
    let s = run es (new_scheduler addresses) in
    subst (λ outcome. GrantGoal preferred s ((acquire preferred now s).0, outcome)) e
      (acquire-GrantGoal s preferred now (run-IsSettled addresses es named))

-- ===== src/Scheduler/Exclusive.antt =====
-- settle-scheduler.ts: "no signer is ever leased twice at once".
use stellar_facilitator.Common.{
  ℕ, zero, suc, ◌+◌, ◌≤◌, ◌≡◌, refl, String, Bool, true, false, not, ◌&&◌, some, List, [], ◌∷◌,
  ◌++◌, ◌-◌, ◌||◌, ◌==◌, string_eq, nat_eq, ==_refl, ==_iff, if◌then◌else◌, arith, inl, inr,
  Option-cases, Bool-cases, truthy, length, get_elem?, set, count, count-append, count-set_add,
  count-set_delete, not-includes-count, set_delete,
}
use stellar_facilitator.Scheduler.{
  Lease, Waiter, Scheduler, Turn, stop, again, Event, acquires, expires, quarantines, releases,
  recovers, new_scheduler, take_named, take_first, take_idle, lease_for, grant, enqueue,
  lease_or_wait, acquire, expire, take_waiter, note_wait, serve, turn, process_turns, process_queue,
  quarantine, give_back, release, readmit, recover_signer, step, run,
}

-- How many leases that have not been released hold the signer `a`.
abbrev pub held : String → List Lease → ℕ
held a [] = 0
held a (l ∷ ls) = if not l.released && l.address == a then suc (held a ls) else held a ls

-- Each signer is idle or held by one open lease, never both and never twice, and `busy` holds
-- exactly the signers of the open leases.
pub record IsExclusive (s : Scheduler) : Type 0 where
  pub distinct : (a : String) → count a s.idle + held a s.leases ≤ 1
  pub tracked : (a : String) → count a s.busy ≡ held a s.leases

abbrev pub one_if : Bool → ℕ
one_if b = if b then 1 else 0

pub held-append :
    (a b : String) (ls : List Lease)
    → held a (ls ++ (lease_for b ∷ [])) ≡ held a ls + one_if (b == a)
held-append a b [] = ground arith
held-append a b (l ∷ ls) = ground (arith, held-append a b ls)

pub held-set_closed :
    (a : String) (l l' : Lease) (ls : List Lease) (i : ℕ)
    → get_elem? ls i ≡ some l
    → l.released ≡ false
    → l'.released ≡ true
    → held a (set ls i l') + one_if (l.address == a) ≡ held a ls
held-set_closed a l l' [] i e h k = cc
held-set_closed a l l' (x ∷ ls) zero e h k = ground arith
held-set_closed a l l' (x ∷ ls) (suc i) e h k = ground (arith, held-set_closed a l l' ls i e h k)

pub held-set_released :
    (a : String) (l : Lease) (ls : List Lease) (i : ℕ)
    → get_elem? ls i ≡ some l
    → l.released ≡ false
    → held a (set ls i (record l { released = true })) + one_if (l.address == a) ≡ held a ls
held-set_released a l ls i e h = held-set_closed a l _ ls i e h refl

pub held-set_quarantined :
    (a : String) (l : Lease) (ls : List Lease) (i : ℕ)
    → get_elem? ls i ≡ some l
    → held a (set ls i (record l { quarantined = true })) ≡ held a ls
held-set_quarantined a l [] i e = refl
held-set_quarantined a l (x ∷ ls) zero e = ground arith
held-set_quarantined a l (x ∷ ls) (suc i) e = ground (arith, held-set_quarantined a l ls i e)

count-take_named :
    (a b wanted : String) (xs rest : List String)
    → take_named wanted xs ≡ some (b, rest)
    → count a xs ≡ count a rest + one_if (b == a)
unfolding take_named
count-take_named a b wanted [] rest e = cc
count-take_named a b wanted (x ∷ xs) rest e = elim (Bool-cases (x == wanted)) [
  | inl hit ↦ ground arith
  | inr miss ↦ elim (Option-cases (take_named wanted xs)) [
    | inl gone ↦ ground arith
    | inr ((c, left), found) ↦ ground (arith, count-take_named a c wanted xs left found)
  ]
]

pub count-take_idle :
    (a b preferred : String) (xs rest : List String)
    → take_idle preferred xs ≡ some (b, rest)
    → count a xs ≡ count a rest + one_if (b == a)
unfolding take_idle take_first
count-take_idle a b preferred [] rest e = ground (arith, count-take_named a b preferred [] rest)
count-take_idle a b preferred (x ∷ xs) rest e =
    ground (arith, count-take_named a b preferred (x ∷ xs) rest)

module _ (s : Scheduler) (v : IsExclusive s) where
  -- A signer that leaves `idle` was not busy.
  grant-IsExclusive :
      (preferred b : String) (rest : List String)
      → take_idle preferred s.idle ≡ some (b, rest)
      → IsExclusive (grant b rest s)
  unfolding grant
  grant-IsExclusive preferred b rest e = record {
    distinct = λ a. ground (
      arith,
      count-take_idle a b preferred s.idle rest e,
      held-append a b s.leases,
      v.distinct a,
    );
    tracked =
        λ a. ground (arith, count-set_add a b s.busy free, held-append a b s.leases, v.tracked a);
  }
    where
      free : count b s.busy ≡ 0
      free =
          ground (
            arith,
            count-take_idle b b preferred s.idle rest e,
            ==_refl b,
            v.distinct b,
            v.tracked b,
          )

  enqueue-IsExclusive : (preferred : String) (now : ℕ) → IsExclusive (enqueue preferred now s)
  unfolding enqueue
  enqueue-IsExclusive preferred now = record { distinct = v.distinct; tracked = v.tracked }

  expire-IsExclusive : (id : ℕ) → IsExclusive (expire id s)
  unfolding expire
  expire-IsExclusive id = record { distinct = v.distinct; tracked = v.tracked }

  quarantine-IsExclusive : (i : ℕ) → IsExclusive (quarantine i s)
  unfolding quarantine
  quarantine-IsExclusive i = elim (Option-cases (get_elem? s.leases i)) [
    | inl gone ↦ rw (gone, quarantine) v
    | inr (l, found) ↦
        rw (found, quarantine)
          (record {
            distinct = λ a. rw (held-set_quarantined a l s.leases i found) (v.distinct a);
            tracked = λ a. rw (held-set_quarantined a l s.leases i found) (v.tracked a);
          })
  ]

  give_back-IsExclusive :
      (i : ℕ) (l : Lease)
      → get_elem? s.leases i ≡ some l
      → l.released ≡ false
      → IsExclusive (give_back i l s)
  unfolding give_back
  give_back-IsExclusive i l found open' = record {
    distinct = λ a. ground (
      arith,
      held-set_released a l s.leases i found open',
      count-append a s.idle (l.address ∷ []),
      v.distinct a,
    );
    tracked = λ a. ground (
      arith,
      held-set_released a l s.leases i found open',
      count-set_delete a l.address s.busy,
      v.tracked a,
      v.distinct a,
    );
  }

  readmit-IsExclusive : (b : String) → IsExclusive (readmit b s)
  unfolding readmit
  readmit-IsExclusive b = record {
    distinct = λ a. ground (
      arith,
      v.distinct a,
      v.tracked a,
      count-append a s.idle (b ∷ []),
      ==_iff b a,
      not-includes-count b s.idle,
      not-includes-count b s.busy,
      v.tracked b,
    );
    tracked = λ a. ground (arith, v.tracked a);
  }

lease_or_wait-IsExclusive :
    (s : Scheduler) (preferred : String) (now : ℕ)
    → IsExclusive s
    → IsExclusive (lease_or_wait preferred now s).0
unfolding lease_or_wait
lease_or_wait-IsExclusive s preferred now v = elim (Option-cases (take_idle preferred s.idle)) [
  | inl gone ↦ rw (gone, lease_or_wait) (enqueue-IsExclusive s v preferred now)
  | inr ((b, rest), found) ↦
      rw (found, lease_or_wait) (grant-IsExclusive s v preferred b rest found)
]

acquire-IsExclusive :
    (s : Scheduler) (preferred : String) (now : ℕ)
    → IsExclusive s
    → IsExclusive (acquire preferred now s).0
unfolding acquire
acquire-IsExclusive s preferred now v = ground (arith, lease_or_wait-IsExclusive s preferred now v)

-- The invariant of what a turn of the loop leaves.
abbrev pub After {ℓ} : (Scheduler → Type ℓ) → Turn → Type ℓ
After P (stop t) = P t
After P (again t) = P t

waiters_irrelevant :
    (s : Scheduler) (ws : List Waiter) → IsExclusive s → IsExclusive (record s { waiters = ws })
waiters_irrelevant s ws v = record { distinct = v.distinct; tracked = v.tracked }

serve-IsExclusive :
    (s : Scheduler) (now : ℕ) (w : Waiter) (left : List Waiter)
    → IsExclusive s
    → After IsExclusive (serve now w left s)
unfolding serve
serve-IsExclusive s now w left v = elim (Option-cases (take_idle w.preferred s.idle)) [
  | inl gone ↦ rw (gone, serve) (waiters_irrelevant s left v)
  | inr ((b, rest), found) ↦ elim (Bool-cases (truthy b)) [
    | inl named ↦
        rw (found, named, serve)
          (grant-IsExclusive (note_wait (now - w.queued_at) (record s { waiters = left }))
            (record { distinct = v.distinct; tracked = v.tracked }) w.preferred b rest found)
    | inr empty ↦
        rw (found, empty, serve)
          (record {
            distinct = λ a.
                ground (arith, count-take_idle a b w.preferred s.idle rest found, v.distinct a);
            tracked = v.tracked;
          })
  ]
]

turn-IsExclusive : (s : Scheduler) (now : ℕ) → IsExclusive s → After IsExclusive (turn now s)
unfolding turn
turn-IsExclusive s now v = elim (Bool-cases (length s.idle == 0 || length s.waiters == 0)) [
  | inl done ↦ rw done v
  | inr more ↦ rw more (elim (Option-cases (take_waiter s.idle s.waiters)) [
    | inl gone ↦ rw (gone, turn) v
    | inr ((w, left), found) ↦ rw (found, turn) (serve-IsExclusive s now w left v)
  ])
]

-- An invariant of every turn is one of the loop.
pub process_turns_inv {ℓ} :
    (P : Scheduler → Type ℓ) (now : ℕ)
    → ((s : Scheduler) → P s → After P (turn now s))
    → (fuel : ℕ) (s : Scheduler) → P s
    → P (process_turns fuel now s)
unfolding process_turns
process_turns_inv P now keep zero s p = p
process_turns_inv P now keep (suc fuel) s p =
    go (process_turns_inv P now keep fuel) (turn now s) (keep s p)
  where
    go :
        ((u : Scheduler) → P u → P (process_turns fuel now u))
        → (t : Turn) → After P t
        → P (elim t [ stop u ↦ u | again u ↦ process_turns fuel now u ])
    go ih (stop u) q = q
    go ih (again u) q = ih u q

process_queue-IsExclusive :
    (s : Scheduler) (now : ℕ) → IsExclusive s → IsExclusive (process_queue now s)
unfolding process_queue
process_queue-IsExclusive s now v =
    process_turns_inv IsExclusive now (λ t. turn-IsExclusive t now) _ s v

release-IsExclusive : (s : Scheduler) (i now : ℕ) → IsExclusive s → IsExclusive (release i now s)
unfolding release give_back
release-IsExclusive s i now v = elim (Option-cases (get_elem? s.leases i)) [
  | inl gone ↦ rw (gone, release) v
  | inr (l, found) ↦ elim (Bool-cases l.released) [
    | inl closed ↦ rw (found, closed, release) v
    | inr open' ↦
        rw (found, open', release)
          (process_queue-IsExclusive _ now (give_back-IsExclusive s v i l found open'))
  ]
]

recover-IsExclusive :
    (s : Scheduler) (b : String) (now : ℕ) → IsExclusive s → IsExclusive (recover_signer b now s).0
unfolding recover_signer
recover-IsExclusive s b now v =
    ground (arith, process_queue-IsExclusive _ now (readmit-IsExclusive cleared cleared_v b))
  where
    cleared : Scheduler
    cleared = record s { quarantined = set_delete b s.quarantined }

    cleared_v : IsExclusive cleared
    cleared_v = record { distinct = v.distinct; tracked = v.tracked }

step-IsExclusive : (e : Event) (s : Scheduler) → IsExclusive s → IsExclusive (step e s)
unfolding step
step-IsExclusive (acquires preferred now) s v = acquire-IsExclusive s preferred now v
step-IsExclusive (expires id) s v = expire-IsExclusive s v id
step-IsExclusive (quarantines i) s v = quarantine-IsExclusive s v i
step-IsExclusive (releases i now) s v = release-IsExclusive s i now v
step-IsExclusive (recovers address now) s v = recover-IsExclusive s address now v

run_inv : (es : List Event) (s : Scheduler) → IsExclusive s → IsExclusive (run es s)
unfolding run
run_inv [] s v = v
run_inv (e ∷ es) s v = run_inv es (step e s) (step-IsExclusive e s v)

-- From a scheduler built over distinct addresses, no sequence of acquisitions, time-outs,
-- quarantines, releases and recoveries, in any order and with any misuse of a lease, puts a signer
-- in two open leases or both in a lease and in the idle list; `busy` holds each leased signer once.
pub run-IsExclusive :
    (addresses : List String) (es : List Event)
    → ((a : String) → count a addresses ≤ 1)
    → IsExclusive (run es (new_scheduler addresses))
unfolding new_scheduler
run-IsExclusive addresses es d =
    run_inv es (new_scheduler addresses)
      (record { distinct = λ a. omega (arith, d a); tracked = λ a. refl })

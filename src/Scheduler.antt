-- ===== src/Scheduler.antt =====
-- facilitator-service/src/settle-scheduler.ts: the settlement scheduler.
--
-- A signer address is a string. An absent `preferredAddress` is the empty string: both are falsy,
-- and the source reads the argument by its truthiness alone. The clock is an argument, and does not
-- move during one synchronous call. A lease is the closure that `leaseFor` builds: its two flags
-- are kept in `leases`, and a holder names it by its place there. A waiter stands for its promise
-- and its timer: the timer is cleared when the waiter leaves the queue.
pub mod Exclusive
pub mod Quarantine
pub mod Queue
pub mod Settled
pub mod Named
pub mod Fairness
pub mod Conservation
pub mod Lost
mod Tests
use stellar_facilitator.Common.{
  ℕ, zero, suc, ◌+◌, ◌-◌, String, Bool, true, false, not, ◌&&◌, ◌||◌, Option, none, some, List, [],
  ◌∷◌, ◌++◌, ◌==◌, string_eq, nat_eq, if◌then◌else◌, ltb, truthy, length, get_elem?, set, filter,
  includes, set_add, set_delete,
}

pub record Lease : Type 0 where
  pub address : String
  pub quarantined : Bool
  pub released : Bool

pub record Waiter : Type 0 where
  pub id : ℕ
  pub preferred : String
  pub queued_at : ℕ

pub record Scheduler : Type 0 where
  pub idle : List String
  pub busy : List String
  pub quarantined : List String
  pub waiters : List Waiter
  -- Every lease ever handed out, oldest first.
  pub leases : List Lease
  pub next_waiter : ℕ
  pub total_queued : ℕ
  pub total_rejected : ℕ
  pub max_observed_wait_ms : ℕ

unfoldable pub new_scheduler : List String → Scheduler
new_scheduler addresses = record {
  idle = addresses;
  busy = [];
  quarantined = [];
  waiters = [];
  leases = [];
  next_waiter = 0;
  total_queued = 0;
  total_rejected = 0;
  max_observed_wait_ms = 0;
}

unfoldable pub pool_size : Scheduler → ℕ
pool_size s = length s.idle + length s.busy + length s.quarantined

pub data Error : Type 0 where
  signers_in_flight : Error
  no_signers : Error
  signer_quarantined : String → Error
  signer_not_configured : String → Error

pub data Changed : Type 0 where
  changed : Scheduler → Changed
  refused : Error → Changed

pub set_signers : List String → Scheduler → Changed
set_signers addresses s = elim s.busy [
  | b ∷ bs ↦ refused signers_in_flight
  | [] ↦
      let kept = filter (λ q. includes addresses q) s.quarantined in
      changed
        (record s { quarantined = kept; idle = filter (λ a. not (includes kept a)) addresses })
]

-- `splice(indexOf(wanted), 1)`, and `none` where there is no such index.
unfoldable pub take_named : String → List String → Option (String × List String)
take_named wanted [] = none
take_named wanted (a ∷ rest) =
    if a == wanted
    then some (a, rest)
    else elim (take_named wanted rest) [ none ↦ none | some (b, left) ↦ some (b, a ∷ left) ]

unfoldable pub take_first : List String → Option (String × List String)
take_first [] = none
take_first (a ∷ rest) = some (a, rest)

unfoldable pub take_idle : String → List String → Option (String × List String)
take_idle preferred idle = if truthy preferred then take_named preferred idle else take_first idle

abbrev pub lease_for : String → Lease
lease_for address = record { address = address; quarantined = false; released = false }

-- The signer has left `idle`: `busy.add` and `leaseFor`.
unfoldable pub grant : String → List String → Scheduler → Scheduler
grant address idle s = record s {
  idle = idle;
  busy = set_add address s.busy;
  leases = s.leases ++ (lease_for address ∷ []);
}

pub data Acquired : Type 0 where
  leased : ℕ → Acquired
  waiting : ℕ → Acquired
  failed : Error → Acquired

unfoldable pub enqueue : String → ℕ → Scheduler → Scheduler
enqueue preferred now s = record s {
  total_queued = s.total_queued + 1;
  next_waiter = suc s.next_waiter;
  waiters =
      s.waiters ++ (record { id = s.next_waiter; preferred = preferred; queued_at = now } ∷ []);
}

unfoldable pub lease_or_wait : String → ℕ → Scheduler → Scheduler × Acquired
lease_or_wait preferred now s = elim (take_idle preferred s.idle) [
  | some (address, rest) ↦ (grant address rest s, leased (length s.leases))
  | none ↦ (enqueue preferred now s, waiting s.next_waiter)
]

unfoldable pub acquire : String → ℕ → Scheduler → Scheduler × Acquired
acquire preferred now s =
    if pool_size s == 0
    then (s, failed no_signers)
    else if truthy preferred && includes s.quarantined preferred
    then (s, failed (signer_quarantined preferred))
    else if truthy preferred && not (includes s.idle preferred) && not (includes s.busy preferred)
    then (s, failed (signer_not_configured preferred))
    else lease_or_wait preferred now s

-- `waiters.filter((w) => w.id !== id)`, as `indexOf` and `splice` do it.
unfoldable pub drop_waiter : ℕ → List Waiter → List Waiter
drop_waiter id [] = []
drop_waiter id (w ∷ ws) = if w.id == id then ws else w ∷ drop_waiter id ws

-- The timer of a queued waiter fires.
unfoldable pub expire : ℕ → Scheduler → Scheduler
expire id s = record s { waiters = drop_waiter id s.waiters; total_rejected = s.total_rejected + 1 }

-- The test of `findIndex` in `processQueue`.
abbrev pub can_serve : List String → Waiter → Bool
can_serve idle w = not (truthy w.preferred) || includes idle w.preferred

unfoldable pub take_waiter : List String → List Waiter → Option (Waiter × List Waiter)
take_waiter idle [] = none
take_waiter idle (w ∷ ws) =
    if can_serve idle w
    then some (w, ws)
    else elim (take_waiter idle ws) [ none ↦ none | some (v, left) ↦ some (v, w ∷ left) ]

-- One turn of the loop of `processQueue`: it ends, or goes on.
pub data Turn : Type 0 where
  stop : Scheduler → Turn
  again : Scheduler → Turn

unfoldable pub note_wait : ℕ → Scheduler → Scheduler
note_wait waited s = record s {
  max_observed_wait_ms =
      if ltb s.max_observed_wait_ms waited then waited else s.max_observed_wait_ms;
}

unfoldable pub serve : ℕ → Waiter → List Waiter → Scheduler → Turn
unfolding note_wait
serve now w left s = elim (take_idle w.preferred s.idle) [
  | none ↦ stop (record s { waiters = left })
  | some (address, rest) ↦
      if truthy address
      then again (grant address rest (note_wait (now - w.queued_at) (record s { waiters = left })))
      else stop (record s { waiters = left; idle = rest })
]

unfoldable pub turn : ℕ → Scheduler → Turn
turn now s =
    if length s.idle == 0 || length s.waiters == 0
    then stop s
    else elim (take_waiter s.idle s.waiters) [ none ↦ stop s | some (w, left) ↦ serve now w left s ]

-- Each turn that goes on takes a waiter from the queue, so as many turns as there are waiters do.
unfoldable pub process_turns : ℕ → ℕ → Scheduler → Scheduler
process_turns zero now s = s
process_turns (suc fuel) now s = elim (turn now s) [
  | stop t ↦ t
  | again t ↦ process_turns fuel now t
]

unfoldable pub process_queue : ℕ → Scheduler → Scheduler
process_queue now s = process_turns (suc (length s.waiters)) now s

-- `lease.quarantine()`
unfoldable pub quarantine : ℕ → Scheduler → Scheduler
quarantine i s = elim (get_elem? s.leases i) [
  | none ↦ s
  | some l ↦ record s {
    quarantined = set_add l.address s.quarantined;
    leases = set s.leases i (record l { quarantined = true });
  }
]

-- What `lease.release()` does before `processQueue`.
unfoldable pub give_back : ℕ → Lease → Scheduler → Scheduler
give_back i l s = record s {
  leases = set s.leases i (record l { released = true });
  busy = set_delete l.address s.busy;
  idle = if l.quarantined then s.idle else s.idle ++ (l.address ∷ []);
}

unfoldable pub release : ℕ → ℕ → Scheduler → Scheduler
release i now s = elim (get_elem? s.leases i) [
  | none ↦ s
  | some l ↦ if l.released then s else process_queue now (give_back i l s)
]

-- `withSigner` from the end of the operation on: `none` stands for an operation that threw.
unfoldable pub finish {ℓ} : {A : Type ℓ} → Option A → (A → Bool) → ℕ → ℕ → Scheduler → Scheduler
finish none quarantine_when i now s = release i now s
finish (some result) quarantine_when i now s =
    release i now (if quarantine_when result then quarantine i s else s)

-- The push of `recoverSigner`.
unfoldable pub readmit : String → Scheduler → Scheduler
readmit address s =
    if not (includes s.idle address) && not (includes s.busy address)
    then record s { idle = s.idle ++ (address ∷ []) }
    else s

unfoldable pub recover_signer : String → ℕ → Scheduler → Scheduler × Bool
recover_signer address now s =
    if includes s.quarantined address
    then (
      process_queue now
          (readmit address (record s { quarantined = set_delete address s.quarantined })),
      true,
    )
    else (s, false)

-- The `selectSigner` hook; `pinned` is the address in the async context, or `undefined`.
unfoldable pub select_signer : Option String → List String → Option String
select_signer none [] = none
select_signer none (a ∷ rest) = some a
select_signer (some pinned) addresses =
    if truthy pinned && includes addresses pinned
    then some pinned
    else elim addresses [ [] ↦ none | a ∷ rest ↦ some a ]

-- What callers and timers do, in the order in which it happens.
pub data Event : Type 0 where
  acquires : String → ℕ → Event
  expires : ℕ → Event
  quarantines : ℕ → Event
  releases : ℕ → ℕ → Event
  recovers : String → ℕ → Event

unfoldable pub step : Event → Scheduler → Scheduler
step (acquires preferred now) s = (acquire preferred now s).0
step (expires id) s = expire id s
step (quarantines i) s = quarantine i s
step (releases i now) s = release i now s
step (recovers address now) s = (recover_signer address now s).0

unfoldable pub run : List Event → Scheduler → Scheduler
run [] s = s
run (e ∷ es) s = run es (step e s)

-- ===== src/Scheduler/Conservation.antt =====
-- settle-scheduler.ts: no signer is lost and none is made up, as long as leases are used the way
-- `withSigner` uses them; and how one is lost otherwise.
use stellar_facilitator.Common.{
  ℕ, ◌-◌, ◌≤◌, ◌≡◌, refl, String, Bool, true, false, ◌||◌, Option, none, some, List, [], ◌==◌,
  ==_iff, string_eq, nat_eq, arith, inl, inr, Option-cases, Bool-cases, length, get_elem?, includes,
  count, count-set_add, count-set_delete,
}
use stellar_facilitator.Scheduler.{
  Lease, Waiter, Scheduler, new_scheduler, take_idle, enqueue, lease_or_wait, acquire, expire,
  take_waiter, note_wait, serve, turn, process_turns, process_queue, quarantine, give_back, release,
  recover_signer,
}
use stellar_facilitator.Scheduler.{finish}
use stellar_facilitator.Scheduler.Exclusive.{held-set_closed, After, process_turns_inv}
use stellar_facilitator.Scheduler.Quarantine.{
  Session, opened, acquired, expired, finished, recovered, Unmarked, IsConserved, grant-IsConserved,
  named_of_take_idle, release_kept, readmit-IsConserved, get_elem?-set_self, set-set, All-set,
}

pub release_lem :
    (s : Scheduler) (i now : ℕ) (l : Lease)
    → get_elem? s.leases i ≡ some l
    → l.released ≡ false
    → release i now s ≡ process_queue now (give_back i l s)
unfolding release
release_lem s i now l found open' = ground arith

pub leases-quarantine :
    (s : Scheduler) (i : ℕ) (l : Lease)
    → get_elem? s.leases i ≡ some l
    → get_elem? (quarantine i s).leases i ≡ some (record l { quarantined = true })
unfolding quarantine
leases-quarantine s i l found = rw (found, quarantine) (get_elem?-set_self s.leases i l _ found)

module _ (addresses : List String) (distinct : (a : String) → count a addresses ≤ 1)
    (named : count "" addresses ≡ 0) where
  -- `quarantine` and then `give_back`, by one lease.
  retire :
      (s : Scheduler) (i : ℕ) (l : Lease)
      → IsConserved addresses s
      → get_elem? s.leases i ≡ some l
      → l.released ≡ false
      → IsConserved addresses (give_back i (record l { quarantined = true }) (quarantine i s))
  unfolding quarantine give_back
  retire s i l v found open' =
      rw (found, quarantine, set-set s.leases i (record l { quarantined = true }) gone)
        (record {
          whole = λ a. ground (
            arith,
            held-set_closed a l gone s.leases i found open' refl,
            v.whole a,
            count-set_add a l.address s.quarantined fresh,
          );
          tracked = λ a. ground (
            arith,
            held-set_closed a l gone s.leases i found open' refl,
            v.tracked a,
            count-set_delete a l.address s.busy,
            v.whole a,
            distinct a,
          );
          unmarked = All-set Unmarked s.leases i gone v.unmarked (λ e. cc);
        })
    where
      gone : Lease
      gone = record l { quarantined = true; released = true }

      fresh : count l.address s.quarantined ≡ 0
      fresh = ground (
        arith,
        held-set_closed l.address l gone s.leases i found open' refl,
        ==_iff l.address l.address,
        v.whole l.address,
        distinct l.address,
      )

  serve-IsConserved :
      (s : Scheduler) (now : ℕ) (w : Waiter) (left : List Waiter)
      → IsConserved addresses s
      → After (IsConserved addresses) (serve now w left s)
  unfolding serve
  serve-IsConserved s now w left v = elim (Option-cases (take_idle w.preferred s.idle)) [
    | inl gone ↦
        rw (gone, serve) (record { whole = v.whole; tracked = v.tracked; unmarked = v.unmarked })
    | inr ((b, rest), found) ↦
        rw (found, named_of_take_idle addresses distinct named s v w.preferred b rest found, serve)
          (grant-IsConserved addresses distinct named
            (note_wait (now - w.queued_at) (record s { waiters = left }))
            (record { whole = v.whole; tracked = v.tracked; unmarked = v.unmarked }) w.preferred b
            rest found)
  ]

  turn-IsConserved :
      (s : Scheduler) (now : ℕ)
      → IsConserved addresses s
      → After (IsConserved addresses) (turn now s)
  unfolding turn
  turn-IsConserved s now v = elim (Bool-cases (length s.idle == 0 || length s.waiters == 0)) [
    | inl done ↦ rw done v
    | inr more ↦ rw more (elim (Option-cases (take_waiter s.idle s.waiters)) [
      | inl gone ↦ rw (gone, turn) v
      | inr ((w, left), found) ↦ rw (found, turn) (serve-IsConserved s now w left v)
    ])
  ]

  process_queue-IsConserved :
      (now : ℕ) (s : Scheduler)
      → IsConserved addresses s
      → IsConserved addresses (process_queue now s)
  unfolding process_queue
  process_queue-IsConserved now s v =
      process_turns_inv (IsConserved addresses) now (λ t. turn-IsConserved t now) _ s v

  finish-IsConserved :
      (s : Scheduler) (i now : ℕ) (l : Lease) (outcome : Option Bool)
      → IsConserved addresses s
      → get_elem? s.leases i ≡ some l
      → l.released ≡ false
      → IsConserved addresses (finish outcome (λ b. b) i now s)
  unfolding finish
  finish-IsConserved s i now l none v found open' =
      rw (release_lem s i now l found open') (
        process_queue-IsConserved now _ (release_kept addresses distinct named s v i l found open'))
  finish-IsConserved s i now l (some false) v found open' =
      rw (release_lem s i now l found open') (
        process_queue-IsConserved now _ (release_kept addresses distinct named s v i l found open'))
  finish-IsConserved s i now l (some true) v found open' =
      rw (release_lem (quarantine i s) i now _ (leases-quarantine s i l found) open')
        (process_queue-IsConserved now _ (retire s i l v found open'))

  recover-IsConserved :
      (s : Scheduler) (b : String) (now : ℕ)
      → IsConserved addresses s
      → IsConserved addresses (recover_signer b now s).0
  unfolding recover_signer
  recover-IsConserved s b now v = elim (Bool-cases (includes s.quarantined b)) [
    | inr absent ↦ rw absent v
    | inl present ↦ rw present (
        process_queue-IsConserved now _
          (readmit-IsConserved addresses distinct named s v b present))
  ]

  acquire-IsConserved :
      (s : Scheduler) (preferred : String) (now : ℕ)
      → IsConserved addresses s
      → IsConserved addresses (acquire preferred now s).0
  unfolding acquire lease_or_wait enqueue
  acquire-IsConserved s preferred now v = ground (arith, lease_or_wait-IsConserved)
    where
      lease_or_wait-IsConserved : IsConserved addresses (lease_or_wait preferred now s).0
      lease_or_wait-IsConserved = elim (Option-cases (take_idle preferred s.idle)) [
        | inl gone ↦
            rw (gone, lease_or_wait)
              (record { whole = v.whole; tracked = v.tracked; unmarked = v.unmarked })
        | inr ((b, rest), found) ↦
            rw (found, lease_or_wait)
              (grant-IsConserved addresses distinct named s v preferred b rest found)
      ]

  -- Over distinct addresses that are not empty, in every state that requests, time-outs, finished
  -- settlements and recoveries lead to, each configured signer is in exactly one place: idle, in
  -- one open lease, or quarantined; and no other address is in any.
  pub Session-IsConserved : {s : Scheduler} → Session addresses s → IsConserved addresses s
  unfolding new_scheduler expire
  Session-IsConserved opened = record {
    whole = λ a. omega arith;
    tracked = λ a. refl;
    unmarked = tt;
  }
  Session-IsConserved (acquired {s} preferred now h) =
      acquire-IsConserved s preferred now (Session-IsConserved h)
  Session-IsConserved (expired {s} id h) =
      let v = Session-IsConserved h in
      record { whole = v.whole; tracked = v.tracked; unmarked = v.unmarked }
  Session-IsConserved (finished {s} i now l outcome found open' h) =
      finish-IsConserved s i now l outcome (Session-IsConserved h) found open'
  Session-IsConserved (recovered {s} b now h) = recover-IsConserved s b now (Session-IsConserved h)

pub process_queue-nil : (now : ℕ) (s : Scheduler) → s.waiters ≡ [] → process_queue now s ≡ s
unfolding process_queue process_turns turn
process_queue-nil now s none_wait = ground arith

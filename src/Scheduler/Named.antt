-- ===== src/Scheduler/Named.antt =====
-- settle-scheduler.ts: over addresses that are not empty, no signer in the scheduler's hands ever
-- has the empty address, which `processQueue` would take for no address at all.
use stellar_facilitator.Common.{
  ℕ, zero, suc, ◌+◌, ◌-◌, ◌≤◌, ◌≡◌, refl, ap, ◌∙◌, String, true, false, ◌||◌, some, List, [], ◌∷◌,
  ◌++◌, ◌==◌, ==_iff, string_eq, nat_eq, arith, inl, inr, Option-cases, Bool-cases, length,
  get_elem?, set, includes, count, count-append, count-set_delete, includes-count, set_delete,
  set_add, map,
}
use stellar_facilitator.Scheduler.{
  Lease, Waiter, Scheduler, take_idle, lease_for, grant, take_waiter, note_wait, serve, turn,
  process_queue, quarantine, give_back, readmit,
}
use stellar_facilitator.Scheduler.Exclusive.{one_if, count-take_idle, After, process_turns_inv}

abbrev pub signers : List Lease → List String
signers = map (λ l. l.address)

pub record IsNamed (s : Scheduler) : Type 0 where
  pub idle_named : count "" s.idle ≡ 0
  pub quarantined_named : count "" s.quarantined ≡ 0
  pub leases_named : count "" (signers s.leases) ≡ 0

count_signers-append :
    (a b : String) (ls : List Lease)
    → count a (signers (ls ++ (lease_for b ∷ []))) ≡ count a (signers ls) + one_if (b == a)
count_signers-append a b [] = ground arith
count_signers-append a b (l ∷ ls) = ground (arith, count_signers-append a b ls)

count_signers-set :
    (a : String) (l l' : Lease) (ls : List Lease) (i : ℕ)
    → get_elem? ls i ≡ some l
    → l'.address ≡ l.address
    → count a (signers (set ls i l')) ≡ count a (signers ls)
count_signers-set a l l' [] i e h = refl
count_signers-set a l l' (x ∷ ls) zero e h = ground arith
count_signers-set a l l' (x ∷ ls) (suc i) e h = ground (arith, count_signers-set a l l' ls i e h)

count_signers-get_elem? :
    (l : Lease) (ls : List Lease) (i : ℕ)
    → get_elem? ls i ≡ some l
    → 1 ≤ count l.address (signers ls)
count_signers-get_elem? l [] i e = absurd (ground arith)
count_signers-get_elem? l (x ∷ ls) zero e = ground (arith, ==_iff x.address l.address)
count_signers-get_elem? l (x ∷ ls) (suc i) e = ground (arith, count_signers-get_elem? l ls i e)

nonempty_of_count :
    (b : String) (xs : List String) → 1 ≤ count b xs → count "" xs ≡ 0 → (b == "") ≡ false
nonempty_of_count b xs h k = elim (Bool-cases (b == "")) [
  | inl blank ↦
      absurd (omega (arith, h, k, ap (λ (t : String). count t xs) ((==_iff b "").0 blank)))
  | inr named ↦ named
]

count-set_add_ne :
    (a b : String) (xs : List String) → (b == a) ≡ false → count a (set_add b xs) ≡ count a xs
count-set_add_ne a b xs h = ground (arith, count-append a xs (b ∷ []))

module _ (s : Scheduler) (v : IsNamed s) where
  pub grant-IsNamed :
      (preferred b : String) (rest : List String)
      → take_idle preferred s.idle ≡ some (b, rest)
      → (b == "") ≡ false
      → IsNamed (grant b rest s)
  unfolding grant
  grant-IsNamed preferred b rest e name = record {
    idle_named = ground (arith, count-take_idle "" b preferred s.idle rest e, v.idle_named);
    quarantined_named = v.quarantined_named;
    leases_named = ground (arith, count_signers-append "" b s.leases, v.leases_named);
  }

  pub named_of_take_idle :
      (preferred b : String) (rest : List String)
      → take_idle preferred s.idle ≡ some (b, rest)
      → (b == "") ≡ false
  named_of_take_idle preferred b rest e =
      nonempty_of_count b s.idle
        (ground (arith, count-take_idle b b preferred s.idle rest e, ==_iff b b)) v.idle_named

  pub quarantine-IsNamed : (i : ℕ) → IsNamed (quarantine i s)
  unfolding quarantine
  quarantine-IsNamed i = elim (Option-cases (get_elem? s.leases i)) [
    | inl gone ↦ rw (gone, quarantine) v
    | inr (l, found) ↦
        let name =
          nonempty_of_count l.address (signers s.leases)
            (count_signers-get_elem? l s.leases i found) v.leases_named in
        rw (found, quarantine)
          (record {
            idle_named = v.idle_named;
            quarantined_named =
                count-set_add_ne "" l.address s.quarantined name ∙ v.quarantined_named;
            leases_named = count_signers-set "" l _ s.leases i found refl ∙ v.leases_named;
          })
  ]

  pub give_back-IsNamed :
      (i : ℕ) (l : Lease) → get_elem? s.leases i ≡ some l → IsNamed (give_back i l s)
  unfolding give_back
  give_back-IsNamed i l found =
      let name =
        nonempty_of_count l.address (signers s.leases) (count_signers-get_elem? l s.leases i found)
          v.leases_named in
      record {
        idle_named = ground (arith, v.idle_named, name, count-append "" s.idle (l.address ∷ []));
        quarantined_named = v.quarantined_named;
        leases_named = count_signers-set "" l _ s.leases i found refl ∙ v.leases_named;
      }

  pub readmit-IsNamed :
      (b : String)
      → includes s.quarantined b ≡ true
      → IsNamed (readmit b (record s { quarantined = set_delete b s.quarantined }))
  unfolding readmit
  readmit-IsNamed b h =
      let name =
        nonempty_of_count b s.quarantined (includes-count b s.quarantined h) v.quarantined_named in
      record {
        idle_named = ground (arith, v.idle_named, name, count-append "" s.idle (b ∷ []));
        quarantined_named =
            ground (arith, v.quarantined_named, count-set_delete "" b s.quarantined);
        leases_named = ground (arith, v.leases_named);
      }

serve-IsNamed :
    (s : Scheduler) (now : ℕ) (w : Waiter) (left : List Waiter)
    → IsNamed s
    → After IsNamed (serve now w left s)
unfolding serve
serve-IsNamed s now w left v = elim (Option-cases (take_idle w.preferred s.idle)) [
  | inl gone ↦
      rw (gone, serve)
        (record {
          idle_named = v.idle_named;
          quarantined_named = v.quarantined_named;
          leases_named = v.leases_named;
        })
  | inr ((b, rest), found) ↦
      let name = named_of_take_idle s v w.preferred b rest found in
      rw (found, name, serve)
        (grant-IsNamed (note_wait (now - w.queued_at) (record s { waiters = left }))
          (record {
            idle_named = v.idle_named;
            quarantined_named = v.quarantined_named;
            leases_named = v.leases_named;
          })
          w.preferred b rest found name)
]

turn-IsNamed : (s : Scheduler) (now : ℕ) → IsNamed s → After IsNamed (turn now s)
unfolding turn
turn-IsNamed s now v = elim (Bool-cases (length s.idle == 0 || length s.waiters == 0)) [
  | inl done ↦ rw done v
  | inr more ↦ rw more (elim (Option-cases (take_waiter s.idle s.waiters)) [
    | inl gone ↦ rw (gone, turn) v
    | inr ((w, left), found) ↦ rw (found, turn) (serve-IsNamed s now w left v)
  ])
]

pub process_queue-IsNamed : (now : ℕ) (s : Scheduler) → IsNamed s → IsNamed (process_queue now s)
unfolding process_queue
process_queue-IsNamed now s v = process_turns_inv IsNamed now (λ t. turn-IsNamed t now) _ s v

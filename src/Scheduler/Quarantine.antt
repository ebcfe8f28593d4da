-- ===== src/Scheduler/Quarantine.antt =====
-- settle-scheduler.ts: quarantined signers, and the signers as a whole.
use stellar_facilitator.Common.{
  ℕ, zero, suc, ◌+◌, ◌≤◌, ◌≡◌, refl, ap, subst, String, Bool, true, false, Option, some, List, [],
  ◌∷◌, ◌++◌, ◌==◌, ==_iff, string_eq, nat_eq, arith, inl, inr, Bool-cases, get_elem?, set, includes,
  count, All, count-append, count-set_add, count-set_delete, includes-count, set_delete,
}
use stellar_facilitator.Scheduler.{
  Lease, Scheduler, new_scheduler, take_idle, lease_for, grant, acquire, expire, give_back, readmit,
  recover_signer,
}
use stellar_facilitator.Scheduler.{finish}
use stellar_facilitator.Scheduler.Exclusive.{held, held-append, held-set_released, count-take_idle}

-- The source quarantines through `withSigner` only: each open lease is finished once, by
-- quarantining it if the result says so and then releasing it.
pub data Session (addresses : List String) : Scheduler → Type 0 where
  opened : Session addresses (new_scheduler addresses)
  acquired :
      {s : Scheduler} (preferred : String) (now : ℕ)
      → Session addresses s
      → Session addresses (acquire preferred now s).0
  expired : {s : Scheduler} (id : ℕ) → Session addresses s → Session addresses (expire id s)
  finished :
      {s : Scheduler} (i now : ℕ) (l : Lease) (outcome : Option Bool)
      → get_elem? s.leases i ≡ some l
      → l.released ≡ false
      → Session addresses s
      → Session addresses (finish outcome (λ b. b) i now s)
  recovered :
      {s : Scheduler} (address : String) (now : ℕ)
      → Session addresses s
      → Session addresses (recover_signer address now s).0

-- An open lease is not marked.
abbrev pub Unmarked : Lease → Type 0
Unmarked l = l.released ≡ false → l.quarantined ≡ false

-- Each signer is idle, leased or quarantined, exactly one of the three.
pub record IsConserved (addresses : List String) (s : Scheduler) : Type 0 where
  pub whole :
      (a : String) → count a s.idle + held a s.leases + count a s.quarantined ≡ count a addresses
  pub tracked : (a : String) → count a s.busy ≡ held a s.leases
  pub unmarked : All Unmarked s.leases

All-append {ℓ κ} :
    {A : Type ℓ} (P : A → Type κ) (xs : List A) (x : A) → All P xs → P x → All P (xs ++ (x ∷ []))
All-append P [] x h p = (p, tt)
All-append P (y ∷ xs) x h p = (h.0, All-append P xs x h.1 p)

pub All-set {ℓ κ} :
    {A : Type ℓ} (P : A → Type κ) (xs : List A) (i : ℕ) (x : A)
    → All P xs
    → P x
    → All P (set xs i x)
All-set P [] i x h p = tt
All-set P (y ∷ xs) zero x h p = (p, h.1)
All-set P (y ∷ xs) (suc i) x h p = (h.0, All-set P xs i x h.1 p)

pub All-get_elem? {ℓ κ} :
    {A : Type ℓ} (P : A → Type κ) (xs : List A) (i : ℕ) (x : A)
    → All P xs
    → get_elem? xs i ≡ some x
    → P x
All-get_elem? P [] i x h e = absurd (ground arith)
All-get_elem? P (y ∷ xs) zero x h e = subst P (ground arith) h.0
All-get_elem? P (y ∷ xs) (suc i) x h e = All-get_elem? P xs i x h.1 e

pub get_elem?-set_self {ℓ} :
    {A : Type ℓ} (xs : List A) (i : ℕ) (x v : A)
    → get_elem? xs i ≡ some x
    → get_elem? (set xs i v) i ≡ some v
get_elem?-set_self [] i x v e = absurd (ground arith)
get_elem?-set_self (y ∷ xs) zero x v e = refl
get_elem?-set_self (y ∷ xs) (suc i) x v e = get_elem?-set_self xs i x v e

pub set-set {ℓ} : {A : Type ℓ} (xs : List A) (i : ℕ) (v w : A) → set (set xs i v) i w ≡ set xs i w
set-set [] i v w = refl
set-set (x ∷ xs) zero v w = refl
set-set (x ∷ xs) (suc i) v w = ap (◌∷◌ x) (set-set xs i v w)

module _ (addresses : List String) (distinct : (a : String) → count a addresses ≤ 1)
    (named : count "" addresses ≡ 0) where
  module _ (s : Scheduler) (v : IsConserved addresses s) where
    pub grant-IsConserved :
        (preferred b : String) (rest : List String)
        → take_idle preferred s.idle ≡ some (b, rest)
        → IsConserved addresses (grant b rest s)
    unfolding grant
    grant-IsConserved preferred b rest e = record {
      whole = λ a.
          ground (
            arith,
            count-take_idle a b preferred s.idle rest e,
            held-append a b s.leases,
            v.whole a,
          );
      tracked =
          λ a. ground (arith, count-set_add a b s.busy free, held-append a b s.leases, v.tracked a);
      unmarked = All-append Unmarked s.leases (lease_for b) v.unmarked (λ _. refl);
    }
      where
        free : count b s.busy ≡ 0
        free = ground (
          arith,
          count-take_idle b b preferred s.idle rest e,
          ==_iff b b,
          v.whole b,
          v.tracked b,
          distinct b,
        )

    -- The empty address is never idle.
    pub named_of_take_idle :
        (preferred b : String) (rest : List String)
        → take_idle preferred s.idle ≡ some (b, rest)
        → (b == "") ≡ false
    named_of_take_idle preferred b rest e = elim (Bool-cases (b == "")) [
      | inr name ↦ name
      | inl blank ↦ absurd (
          omega (
            arith,
            count_one,
            v.whole "",
            named,
            ap (λ (t : String). count t s.idle) ((==_iff b "").0 blank),
          ))
    ]
      where
        count_one : 1 ≤ count b s.idle
        count_one = ground (arith, count-take_idle b b preferred s.idle rest e, ==_iff b b)

    pub release_kept :
        (i : ℕ) (l : Lease)
        → get_elem? s.leases i ≡ some l
        → l.released ≡ false
        → IsConserved addresses (give_back i l s)
    unfolding give_back
    release_kept i l found open' = record {
      whole = λ a. ground (
        arith,
        held-set_released a l s.leases i found open',
        count-append a s.idle (l.address ∷ []),
        v.whole a,
        All-get_elem? Unmarked s.leases i l v.unmarked found open',
      );
      tracked = λ a. ground (
        arith,
        held-set_released a l s.leases i found open',
        count-set_delete a l.address s.busy,
        v.tracked a,
        v.whole a,
        distinct a,
      );
      unmarked = All-set Unmarked s.leases i _ v.unmarked (λ e. cc);
    }

    pub readmit-IsConserved :
        (b : String)
        → includes s.quarantined b ≡ true
        → IsConserved addresses (readmit b (record s { quarantined = set_delete b s.quarantined }))
    unfolding readmit
    readmit-IsConserved b h = record {
      whole = λ a. ground (
        arith,
        v.whole a,
        count-append a s.idle (b ∷ []),
        count-set_delete a b s.quarantined,
        ==_iff b a,
        not_idle,
        not_busy,
        in_quarantine a,
      );
      tracked = λ a. ground (arith, v.tracked a);
      unmarked = ground (arith, v.unmarked);
    }
      where
        one : 1 ≤ count b s.quarantined
        one = includes-count b s.quarantined h

        not_idle : includes s.idle b ≡ false
        not_idle = ground (
          arith,
          Bool-cases (includes s.idle b),
          includes-count b s.idle,
          v.whole b,
          distinct b,
          one,
        )

        not_busy : includes s.busy b ≡ false
        not_busy = ground (
          arith,
          Bool-cases (includes s.busy b),
          includes-count b s.busy,
          v.whole b,
          v.tracked b,
          distinct b,
          one,
        )

        in_quarantine : (a : String) → (b == a) ≡ true → count a s.quarantined ≡ 1
        in_quarantine a e =
            subst (λ t. count t s.quarantined ≡ 1) ((==_iff b a).0 e)
              (omega (arith, one, v.whole b, distinct b))

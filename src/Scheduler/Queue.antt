-- ===== src/Scheduler/Queue.antt =====
-- settle-scheduler.ts: the waiting requests. Who is served, in which order, and that nobody who
-- could be served is left waiting.
use stellar_facilitator.Common.{
  ℕ, suc, ◌+◌, ◌≤◌, ◌≡◌, refl, ◌⊎◌, String, true, false, none, some, List, [], ◌∷◌, ◌++◌, ◌==◌,
  ==_iff, string_eq, nat_eq, arith, inl, inr, Option-cases, Bool-cases, truthy, length,
  length-append, includes, count, All, includes-count, not-includes-count,
}
use stellar_facilitator.Scheduler.{
  Waiter, take_named, take_first, take_idle, drop_waiter, can_serve, take_waiter,
}
use stellar_facilitator.Scheduler.Exclusive.{one_if, count-take_idle}

-- No waiter could be given an idle signer.
abbrev pub NoneServable : List String → List Waiter → Type 0
NoneServable idle = All (λ w. can_serve idle w ≡ false)

-- `take_waiter` splits off the first waiter that can be served.
pub record IsFirst (idle : List String) (ws : List Waiter) (w : Waiter) (left : List Waiter)
    : Type 0 where
  pub before : List Waiter
  pub behind : List Waiter
  pub queue : ws ≡ before ++ (w ∷ behind)
  pub rest : left ≡ before ++ behind
  pub passed_over : NoneServable idle before
  pub served : can_serve idle w ≡ true

pub take_waiter-none :
    (idle : List String) (ws : List Waiter) → take_waiter idle ws ≡ none → NoneServable idle ws
unfolding take_waiter
take_waiter-none idle [] e = tt
take_waiter-none idle (w ∷ ws) e = elim (Bool-cases (can_serve idle w)) [
  | inl hit ↦ absurd (ground arith)
  | inr miss ↦ (miss, take_waiter-none idle ws (ground (arith, Option-cases (take_waiter idle ws))))
]

pub take_waiter-IsFirst :
    (idle : List String) (ws : List Waiter) (w : Waiter) (left : List Waiter)
    → take_waiter idle ws ≡ some (w, left)
    → IsFirst idle ws w left
unfolding take_waiter
take_waiter-IsFirst idle [] w left e = absurd (ground arith)
take_waiter-IsFirst idle (x ∷ ws) w left e = elim (Bool-cases (can_serve idle x)) [
  | inl hit ↦ record {
    before = [];
    behind = ws;
    queue = ground arith;
    rest = ground arith;
    passed_over = tt;
    served = ground arith;
  }
  | inr miss ↦ elim (Option-cases (take_waiter idle ws)) [
    | inl gone ↦ absurd (ground arith)
    | inr ((y, left'), found) ↦
        let f = take_waiter-IsFirst idle ws y left' found in
        record {
          before = x ∷ f.before;
          behind = f.behind;
          queue = ground (arith, f.queue);
          rest = ground (arith, f.rest);
          passed_over = (miss, f.passed_over);
          served = ground (arith, f.served);
        }
  ]
]

-- The signer that a request is given is idle, and is the one that it asks for.
pub record IsChosen (preferred : String) (idle : List String) (address : String)
    (rest : List String) : Type 0 where
  pub was_idle : 1 ≤ count address idle
  pub preference : truthy preferred ≡ true → address ≡ preferred
  pub taken : (a : String) → count a idle ≡ count a rest + one_if (address == a)

take_named_lem :
    (wanted b : String) (xs rest : List String) → take_named wanted xs ≡ some (b, rest) → b ≡ wanted
unfolding take_named
take_named_lem wanted b [] rest e = absurd (ground arith)
take_named_lem wanted b (x ∷ xs) rest e = elim (Bool-cases (x == wanted)) [
  | inl hit ↦ ground (arith, ==_iff x wanted)
  | inr miss ↦ elim (Option-cases (take_named wanted xs)) [
    | inl gone ↦ absurd (ground arith)
    | inr ((c, left), found) ↦ ground (arith, take_named_lem wanted c xs left found)
  ]
]

pub take_idle-IsChosen :
    (preferred b : String) (xs rest : List String)
    → take_idle preferred xs ≡ some (b, rest)
    → IsChosen preferred xs b rest
unfolding take_idle
take_idle-IsChosen preferred b xs rest e = record {
  was_idle = ground (arith, count-take_idle b b preferred xs rest e, ==_iff b b);
  preference = λ h. ground (arith, take_named_lem preferred b xs rest);
  taken = λ a. count-take_idle a b preferred xs rest e;
}

take_named-none :
    (wanted : String) (xs : List String) → take_named wanted xs ≡ none → includes xs wanted ≡ false
unfolding take_named
take_named-none wanted [] e = refl
take_named-none wanted (x ∷ xs) e = elim (Bool-cases (x == wanted)) [
  | inl hit ↦ absurd (ground arith)
  | inr miss ↦ ground (arith, Option-cases (take_named wanted xs), take_named-none wanted xs)
]

-- A waiter that can be served finds a signer, unless none is idle.
pub take_idle-none :
    (w : Waiter) (xs : List String)
    → take_idle w.preferred xs ≡ none
    → (xs ≡ []) ⊎ (can_serve xs w ≡ false)
unfolding take_idle take_first
take_idle-none w [] e = inl refl
take_idle-none w (x ∷ xs) e = inr (ground (arith, take_named-none w.preferred (x ∷ xs)))

-- Idle signers only go away: a waiter that could not be served still cannot.
pub NoneServable-mono :
    (xs ys : List String) (ws : List Waiter)
    → ((a : String) → count a ys ≤ count a xs)
    → NoneServable xs ws
    → NoneServable ys ws
NoneServable-mono xs ys [] h n = tt
NoneServable-mono xs ys (w ∷ ws) h n = (
  ground (
    arith,
    h w.preferred,
    not-includes-count w.preferred xs,
    includes-count w.preferred ys,
    n.0,
    Bool-cases (includes ys w.preferred),
  ),
  NoneServable-mono xs ys ws h n.1,
)

pub NoneServable-append :
    (xs : List String) (ws : List Waiter) (w : Waiter)
    → NoneServable xs ws
    → can_serve xs w ≡ false
    → NoneServable xs (ws ++ (w ∷ []))
NoneServable-append xs [] w n h = (h, tt)
NoneServable-append xs (v ∷ ws) w n h = (n.0, NoneServable-append xs ws w n.1 h)

pub NoneServable-drop_waiter :
    (xs : List String) (id : ℕ) (ws : List Waiter)
    → NoneServable xs ws
    → NoneServable xs (drop_waiter id ws)
unfolding drop_waiter
NoneServable-drop_waiter xs id [] n = tt
NoneServable-drop_waiter xs id (w ∷ ws) n = ground (arith, NoneServable-drop_waiter xs id ws n.1)

pub length-IsFirst :
    (idle : List String) (ws : List Waiter) (w : Waiter) (left : List Waiter)
    → IsFirst idle ws w left
    → length ws ≡ suc (length left)
length-IsFirst idle ws w left f =
    rw (f.queue, f.rest)
      (omega (arith, length-append f.before (w ∷ f.behind), length-append f.before f.behind))

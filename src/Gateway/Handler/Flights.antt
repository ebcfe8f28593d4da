-- ===== src/Gateway/Handler/Flights.antt =====
-- gateway-service/src/app.ts: `settleOnce` keeps its map in step with the calls.
use mathlib.Core.Option.{some-injective}
use stellar_facilitator.Common.{
  if-eq-cases, ℕ, ◌≡◌, refl, sym, ap, subst, ◌∙◌, inl, inr, String, Bool, true, false, Option, none,
  some, [], ◌∷◌, ◌++◌, ◌==◌, ==_iff, string_eq, nat_eq, eqb, eqb_iff, arith, Bool-cases,
  Option-cases, if◌then◌else◌, length, get_elem?, get_elem?-append, get_elem?_last,
  get_elem?_snoc_cases, get_elem?-set, All-mono, map_get, map_get-map_set, map_get-map_delete,
}
use stellar_facilitator.Gateway.{PaymentEvent, is_settled, SettleResponse}
use stellar_facilitator.Gateway.State.{
  SettleCall, GatewayState, start_settlement, close_call, finish_call, finish_settlement,
}
use stellar_facilitator.Gateway.Handler.Consistency.{
  IsReported, IsStored, Extends, IsPaid, Extends-refl, IsReported-mono,
}

pub started-Extends :
    (p : String) (answer : Option SettleResponse) (s : GatewayState)
    → Extends s (start_settlement p answer s).1
unfolding start_settlement
started-Extends p answer s = record {
  calls_kept =
      λ n call at. (call, get_elem?-append s.calls _ n at, refl, refl, λ finished. finished);
  settlements_kept = λ q stored. stored;
}

-- Settlements that were reported stay reported.
IsReported-kept :
    (s t : GatewayState)
    → Extends s t
    → (e : PaymentEvent) → (is_settled e.status ≡ true → IsReported s.calls e.payment_id)
    → is_settled e.status ≡ true
    → IsReported t.calls e.payment_id
IsReported-kept s t x e h settled = IsReported-mono s t e.payment_id x (h settled)

abbrev new_call : String → Option SettleResponse → SettleCall
new_call p answer = record { payment_id = p; answer = answer; finished = false }

started_tracked :
    (p : String) (answer : Option SettleResponse) (s : GatewayState)
    → IsPaid s
    → (q : String) (n : ℕ)
    → (if p == q then some (length s.calls) else map_get q s.in_flight_settlements) ≡ some n
    → (call : SettleCall) × (get_elem? (s.calls ++ (new_call p answer ∷ [])) n ≡ some call)
      × (call.payment_id ≡ q)
      × (call.finished ≡ false)
started_tracked p answer s h q n at = elim (if-eq-cases (p == q) _ _ at) [
  | inl (same, here) ↦
      let last = get_elem?_last s.calls (new_call p answer) in
      (
        new_call p answer,
        subst (λ k. get_elem? (s.calls ++ (new_call p answer ∷ [])) k ≡ some (new_call p answer))
            (some-injective (length s.calls) n here) last,
        (==_iff p q).0 same,
        refl,
      )
  | inr (other, before) ↦
      let (call, old, of, running) = h.tracked q n before in
      (call, get_elem?-append s.calls (new_call p answer ∷ []) n old, of, running)
]

started_recorded :
    (p : String) (answer : Option SettleResponse) (s : GatewayState)
    → IsPaid s
    → map_get p s.in_flight_settlements ≡ none
    → (n : ℕ) (call : SettleCall) → get_elem? (s.calls ++ (new_call p answer ∷ [])) n ≡ some call
    → call.finished ≡ false
    → (if p == call.payment_id
        then some (length s.calls)
        else map_get call.payment_id s.in_flight_settlements)
      ≡ some n
started_recorded p answer s h free n call at running =
    elim (get_elem?_snoc_cases s.calls (new_call p answer) n at) [
      | inr (last, same) ↦
          let of : p ≡ call.payment_id = ap (λ (c : SettleCall). c.payment_id) same in
          ground (arith, last, of, ==_iff p call.payment_id)
      | inl old ↦
          let tracked = h.recorded n call old running in
          ground (arith, tracked, free, ==_iff p call.payment_id)
    ]

pub started-IsPaid :
    (p : String) (answer : Option SettleResponse) (s : GatewayState)
    → IsPaid s
    → map_get p s.in_flight_settlements ≡ none
    → IsPaid (start_settlement p answer s).1
unfolding start_settlement
started-IsPaid p answer s h free = record {
  events_reported =
      All-mono _ _ s.store.payment_events
        (IsReported-kept s (start_settlement p answer s).1 (started-Extends p answer s))
        h.events_reported;
  sent_stored = h.sent_stored;
  tracked = λ q n at.
      started_tracked p answer s h q n
        (sym (map_get-map_set q p (length s.calls) s.in_flight_settlements) ∙ at);
  recorded = λ n call at running.
      map_get-map_set call.payment_id p (length s.calls) s.in_flight_settlements
      ∙ started_recorded p answer s h free n call at running;
}

abbrev closed : SettleCall → SettleCall
closed call = record call { finished = true }

-- What the list of calls holds after call `n` is closed.
closed_at :
    (n m : ℕ) (call : SettleCall) (s : GatewayState)
    → get_elem? s.calls n ≡ some call
    → get_elem? (close_call n call s).calls m
      ≡ (if eqb n m then some (closed call) else get_elem? s.calls m)
unfolding close_call
closed_at n m call s at = get_elem?-set s.calls n m (closed call) call at

same_call :
    (n m : ℕ) (call c : SettleCall) (s : GatewayState)
    → get_elem? s.calls n ≡ some call
    → eqb n m ≡ true
    → get_elem? s.calls m ≡ some c
    → call ≡ c
same_call n m call c s at same at' =
    some-injective call c (sym at ∙ ap (get_elem? s.calls) ((eqb_iff n m).0 same) ∙ at')

close_keeps :
    (n : ℕ) (call : SettleCall) (s : GatewayState) (q : String)
    → IsStored s.store.payment_events q
    → IsStored (close_call n call s).store.payment_events q
unfolding close_call
close_keeps n call s q stored = stored

closed-Extends :
    (n : ℕ) (call : SettleCall) (s : GatewayState)
    → get_elem? s.calls n ≡ some call
    → Extends s (close_call n call s)
closed-Extends n call s at = record {
  calls_kept = λ m c at'. elim (Bool-cases (eqb n m)) [
    | inl same ↦
        let of = same_call n m call c s at same at' in
        (
          closed call,
          closed_at n m call s at ∙ rw same refl,
          ap (λ (x : SettleCall). x.payment_id) of,
          ap (λ (x : SettleCall). x.answer) of,
          λ _. refl,
        )
    | inr other ↦ (c, closed_at n m call s at ∙ rw other at', refl, refl, λ finished. finished)
  ];
  settlements_kept = λ q stored. close_keeps n call s q stored;
}

closed_tracked :
    (n : ℕ) (call : SettleCall) (s : GatewayState)
    → IsPaid s
    → get_elem? s.calls n ≡ some call
    → (q : String) (m : ℕ)
    → (if call.payment_id == q then none else map_get q s.in_flight_settlements) ≡ some m
    → (c : SettleCall) × (get_elem? (close_call n call s).calls m ≡ some c)
      × (c.payment_id ≡ q)
      × (c.finished ≡ false)
closed_tracked n call s h at q m found = elim (if-eq-cases (call.payment_id == q) _ _ found) [
  | inl (same, gone) ↦ absurd (ground (arith, gone))
  | inr (other, before) ↦
      let (c, at', of, running) = h.tracked q m before in
      elim (Bool-cases (eqb n m)) [
        | inr apart ↦ (c, closed_at n m call s at ∙ rw apart at', of, running)
        | inl same ↦
            let mine = ap (λ (x : SettleCall). x.payment_id) (same_call n m call c s at same at') in
            absurd (ground (arith, other, mine ∙ of, ==_iff call.payment_id q))
      ]
]

closed_recorded :
    (n : ℕ) (call : SettleCall) (s : GatewayState)
    → IsPaid s
    → get_elem? s.calls n ≡ some call
    → call.finished ≡ false
    → (m : ℕ) (c : SettleCall)
    → (if eqb n m then some (closed call) else get_elem? s.calls m) ≡ some c
    → c.finished ≡ false
    → (if call.payment_id == c.payment_id
        then none
        else map_get c.payment_id s.in_flight_settlements)
      ≡ some m
closed_recorded n call s h at unfinished m c at' running = elim (if-eq-cases (eqb n m) _ _ at') [
  | inl (same, here) ↦
      let done = ap (λ (x : SettleCall). x.finished) (some-injective (closed call) c here) in
      absurd (ground (arith, done, running))
  | inr (apart, before) ↦
      let theirs = h.recorded m c before running in
      let mine = h.recorded n call at unfinished in
      elim (Bool-cases (call.payment_id == c.payment_id)) [
        | inr other ↦ rw other theirs
        | inl same ↦
            let one =
              ap (λ p. map_get p s.in_flight_settlements)
                ((==_iff call.payment_id c.payment_id).0 same) in
            absurd (ground (arith, sym mine ∙ one ∙ theirs, apart))
      ]
]

closed-IsPaid :
    (n : ℕ) (call : SettleCall) (s : GatewayState)
    → IsPaid s
    → get_elem? s.calls n ≡ some call
    → call.finished ≡ false
    → IsPaid (close_call n call s)
unfolding close_call
closed-IsPaid n call s h at unfinished = record {
  events_reported =
      All-mono _ _ s.store.payment_events
        (IsReported-kept s (close_call n call s) (closed-Extends n call s at)) h.events_reported;
  sent_stored = h.sent_stored;
  tracked = λ q m found.
      closed_tracked n call s h at q m
        (sym (map_get-map_delete q call.payment_id s.in_flight_settlements) ∙ found);
  recorded = λ m c at' running.
      map_get-map_delete c.payment_id call.payment_id s.in_flight_settlements
      ∙ closed_recorded n call s h at unfinished m c (sym (closed_at n m call s at) ∙ at') running;
}

finish_call-IsPaid :
    (n : ℕ) (call : SettleCall) (s : GatewayState)
    → IsPaid s
    → get_elem? s.calls n ≡ some call
    → Extends s (finish_call n call s) × IsPaid (finish_call n call s)
unfolding finish_call
finish_call-IsPaid n call s h at = unless_finished call.finished refl
  where
    unless_finished :
        (b : Bool)
        → call.finished ≡ b
        → Extends s (if b then s else close_call n call s)
          × IsPaid (if b then s else close_call n call s)
    unless_finished true e = (Extends-refl s, h)
    unless_finished false e = (closed-Extends n call s at, closed-IsPaid n call s h at e)

-- A call comes back.
pub finish_settlement-IsPaid :
    (n : ℕ) (s : GatewayState)
    → IsPaid s
    → Extends s (finish_settlement n s) × IsPaid (finish_settlement n s)
unfolding finish_settlement finish_call
finish_settlement-IsPaid n s h = elim (Option-cases (get_elem? s.calls n)) [
  | inl gone ↦ rw (gone, finish_settlement) (Extends-refl s, h)
  | inr (call, at) ↦ rw (at, finish_settlement) (finish_call-IsPaid n call s h at)
]

finish_call-IsFinished :
    (n : ℕ) (call : SettleCall) (s : GatewayState)
    → get_elem? s.calls n ≡ some call
    → (c : SettleCall) × (get_elem? (finish_call n call s).calls n ≡ some c) × (c.finished ≡ true)
unfolding finish_call
finish_call-IsFinished n call s at = unless_finished call.finished refl
  where
    unless_finished :
        (b : Bool)
        → call.finished ≡ b
        → (c : SettleCall) × (get_elem? (if b then s else close_call n call s).calls n ≡ some c)
          × (c.finished ≡ true)
    unless_finished true e = (call, at, e)
    unless_finished false e =
        (closed call, closed_at n n call s at ∙ rw ((eqb_iff n n).1 refl) refl, refl)

-- What has come back is finished.
pub finish_settlement-IsFinished :
    (n : ℕ) (call : SettleCall) (s : GatewayState)
    → get_elem? s.calls n ≡ some call
    → (c : SettleCall) × (get_elem? (finish_settlement n s).calls n ≡ some c) × (c.finished ≡ true)
unfolding finish_settlement
finish_settlement-IsFinished n call s at =
    rw (at, finish_settlement) (finish_call-IsFinished n call s at)

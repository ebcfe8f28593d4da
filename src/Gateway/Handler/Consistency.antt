-- ===== src/Gateway/Handler/Consistency.antt =====
-- gateway-service/src/app.ts: what the requests' shared state keeps to.
use stellar_facilitator.Common.{
  ◌≡◌, refl, ◌∙◌, inl, inr, String, Bool, true, false, some, List, [], ◌∷◌, ◌++◌, string_eq, arith,
  Option-cases, if◌then◌else◌, ℕ, get_elem?, map_get, All, All-snoc, All-mono,
}
use stellar_facilitator.Gateway.{PaymentEvent, is_settled, SettleResponse}
use stellar_facilitator.Gateway.Store.{find_last, settles}
use stellar_facilitator.Gateway.State.{
  SettleCall, GatewayState, Phase, arrived, looking_up, verifying, settling, waiting, catching,
  forwarding, answered, append_payment_event, append_or,
}

-- The facilitator has reported the settlement of this payment.
abbrev pub IsReported : List SettleCall → String → Type 0
IsReported calls p =
    (n : ℕ) × (call : SettleCall) × (result : SettleResponse) × (get_elem? calls n ≡ some call)
    × (call.payment_id ≡ p)
    × (call.finished ≡ true)
    × (call.answer ≡ some result)
    × (result.success ≡ true)

-- The store finds a settlement of this payment.
abbrev pub IsStored : List PaymentEvent → String → Type 0
IsStored events p = (e : PaymentEvent) × (find_last (settles p) events ≡ some e)

pub find_last-append :
    (p : String) (events more : List PaymentEvent) → IsStored events p → IsStored (events ++ more) p
unfolding find_last
find_last-append p [] more h = absurd (ground (arith, h.1))
find_last-append p (e ∷ events) more h = elim (Option-cases (find_last (settles p) events)) [
  | inr (f, found) ↦
      let later = find_last-append p events more (f, found) in
      (later.0, rw (later.1, find_last) refl)
  | inl none' ↦ elim (Option-cases (find_last (settles p) (events ++ more))) [
    | inr (f, found) ↦ (f, rw (found, find_last) refl)
    | inl none'' ↦ (h.0, rw (none'', find_last) (ground (arith, none', h.1)))
  ]
]

pub find_last_snoc :
    (p : String) (events : List PaymentEvent) (e : PaymentEvent)
    → settles p e ≡ true
    → IsStored (events ++ (e ∷ [])) p
unfolding find_last
find_last_snoc p [] e h = (e, rw h refl)
find_last_snoc p (f ∷ events) e h =
    let later = find_last_snoc p events e h in (later.0, rw (later.1, find_last) refl)

-- What a step may not lose: calls keep their payment and their answer, and stay finished; what the
-- store finds it goes on finding.
pub record Extends (s t : GatewayState) : Type 0 where
  pub calls_kept :
      (n : ℕ) (call : SettleCall)
      → get_elem? s.calls n ≡ some call
      → (call' : SettleCall) × (get_elem? t.calls n ≡ some call')
        × (call'.payment_id ≡ call.payment_id)
        × (call'.answer ≡ call.answer)
        × (call.finished ≡ true → call'.finished ≡ true)
  pub settlements_kept :
      (p : String) → IsStored s.store.payment_events p → IsStored t.store.payment_events p

-- Every settlement in the store was reported, every payment forwarded is settled in the store, and
-- the map of settlements in flight has exactly the calls that are not finished.
pub record IsPaid (s : GatewayState) : Type 0 where
  pub events_reported :
      All
        (λ (e : PaymentEvent). is_settled e.status ≡ true → IsReported s.calls e.payment_id)
        s.store.payment_events
  pub sent_stored : All (IsStored s.store.payment_events) s.sent
  pub tracked :
      (p : String) (n : ℕ)
      → map_get p s.in_flight_settlements ≡ some n
      → (call : SettleCall) × (get_elem? s.calls n ≡ some call)
        × (call.payment_id ≡ p)
        × (call.finished ≡ false)
  pub recorded :
      (n : ℕ) (call : SettleCall)
      → get_elem? s.calls n ≡ some call
      → call.finished ≡ false
      → map_get call.payment_id s.in_flight_settlements ≡ some n

-- What a request in this phase relies on.
abbrev pub IsPrepared : GatewayState → Phase → Type 0
IsPrepared s (waiting p v n) =
    (call : SettleCall) × (get_elem? s.calls n ≡ some call) × (call.payment_id ≡ p)
IsPrepared s (forwarding p result) = IsStored s.store.payment_events p
IsPrepared s _ = Unit

pub Extends-refl : (s : GatewayState) → Extends s s
Extends-refl s = record {
  calls_kept = λ n call h. (call, h, refl, refl, λ f. f);
  settlements_kept = λ p h. h;
}

pub IsReported-mono :
    (s t : GatewayState) (p : String) → Extends s t → IsReported s.calls p → IsReported t.calls p
IsReported-mono s t p x (n, call, result, at, of, done, answer, success) =
    let (call', at', of', answer', done') = x.calls_kept n call at in
    (n, call', result, at', of' ∙ of, done' done, answer' ∙ answer, success)

pub IsPrepared-mono :
    (s t : GatewayState) (phase : Phase) → Extends s t → IsPrepared s phase → IsPrepared t phase
IsPrepared-mono s t (waiting p v n) x (call, at, of) =
    let (call', at', of', answer', done') = x.calls_kept n call at in (call', at', of' ∙ of)
IsPrepared-mono s t (forwarding p result) x h = x.settlements_kept p h
IsPrepared-mono s t arrived x h = tt
IsPrepared-mono s t (looking_up p) x h = tt
IsPrepared-mono s t (verifying p) x h = tt
IsPrepared-mono s t (settling p v) x h = tt
IsPrepared-mono s t (catching p) x h = tt
IsPrepared-mono s t (answered response) x h = tt

-- A step that keeps all this.
pub record IsSound (s : GatewayState) (next : Phase × GatewayState) : Type 0 where
  pub extends : Extends s next.1
  pub paid : IsPaid next.1
  pub prepared : IsPrepared next.1 next.0

pub stays : (s : GatewayState) (next : Phase) → IsPaid s → IsPrepared s next → IsSound s (next, s)
stays s next paid prepared = record { extends = Extends-refl s; paid = paid; prepared = prepared }

append-Extends : (e : PaymentEvent) (s : GatewayState) → Extends s (append_payment_event e s)
unfolding append_payment_event
append-Extends e s = record {
  calls_kept = λ n call h. (call, h, refl, refl, λ f. f);
  settlements_kept = λ p h. find_last-append p s.store.payment_events (e ∷ []) h;
}

append-IsPaid :
    (e : PaymentEvent) (s : GatewayState)
    → IsPaid s
    → (is_settled e.status ≡ true → IsReported s.calls e.payment_id)
    → IsPaid (append_payment_event e s)
unfolding append_payment_event
append-IsPaid e s h reported = record {
  events_reported =
      All-snoc (λ (e : PaymentEvent). is_settled e.status ≡ true → IsReported s.calls e.payment_id)
        s.store.payment_events e h.events_reported reported;
  sent_stored =
      All-mono (IsStored s.store.payment_events) (IsStored (s.store.payment_events ++ (e ∷ [])))
        s.sent (λ p. find_last-append p s.store.payment_events (e ∷ [])) h.sent_stored;
  tracked = h.tracked;
  recorded = h.recorded;
}

pub append_or-IsSound :
    (stored : Bool) (e : PaymentEvent) (next thrown : Phase) (s : GatewayState)
    → IsPaid s
    → (is_settled e.status ≡ true → IsReported s.calls e.payment_id)
    → IsPrepared (append_payment_event e s) next
    → IsPrepared s thrown
    → IsSound s (append_or stored e next thrown s)
unfolding append_or
append_or-IsSound true e next thrown s h reported k l = record {
  extends = append-Extends e s;
  paid = append-IsPaid e s h reported;
  prepared = k;
}
append_or-IsSound false e next thrown s h reported k l = stays s thrown h l

-- An event that settles nothing.
pub append_or_unsettled :
    (stored : Bool) (e : PaymentEvent) (next thrown : Phase) (s : GatewayState)
    → IsPaid s
    → is_settled e.status ≡ false
    → ((t : GatewayState) → IsPrepared t next)
    → ((t : GatewayState) → IsPrepared t thrown)
    → IsSound s (append_or stored e next thrown s)
append_or_unsettled stored e next thrown s h unsettled k l =
    append_or-IsSound stored e next thrown s h (λ f. absurd (ground (arith, f, unsettled)))
      (k (append_payment_event e s)) (l s)

pub either-IsSound :
    (b : Bool) (s : GatewayState) {yes' no' : Phase × GatewayState}
    → (b ≡ true → IsSound s yes')
    → (b ≡ false → IsSound s no')
    → IsSound s (if b then yes' else no')
either-IsSound true s h k = h refl
either-IsSound false s h k = k refl

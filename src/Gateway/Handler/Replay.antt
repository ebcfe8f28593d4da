-- ===== src/Gateway/Handler/Replay.antt =====
-- gateway-service/src/app.ts: a payment that the store knows as settled is not charged again.
use stellar_facilitator.Common.{
  ℕ, zero, suc, ◌≡◌, refl, sym, subst, ◌∙◌, inl, inr, String, Bool, true, false, not, ◌&&◌, List,
  [], ◌∷◌, ◌++◌, Option-cases, if-elim, filter, arith,
}
use stellar_facilitator.Gateway.{PaymentEvent, is_settled, GatewayConfig}
use stellar_facilitator.Gateway.Event.{payment_event}
use stellar_facilitator.Gateway.Forward.{server_error}
use stellar_facilitator.Gateway.Handler.{
  refusal, admit, with_header, arrive, look_up, forward, resume,
}
use stellar_facilitator.Gateway.State.{
  at_mismatch, payload, Request, GatewayState, Phase, arrived, looking_up, verifying, settling,
  waiting, catching, forwarding, answered, holds, request_body, append_payment_event, append_or,
}
use stellar_facilitator.Gateway.Handler.Consistency.{IsStored, find_last-append}
use stellar_facilitator.Gateway.Handler.Alone.{facilitator_answers, handle_protected_request}

-- The settlements that the store knows, which are what the earnings are counted from.
abbrev pub settlements : GatewayState → List PaymentEvent
settlements s = filter (λ (e : PaymentEvent). is_settled e.status) s.store.payment_events

-- The phases of a request with payment `p` that asks the facilitator nothing.
abbrev IsFree : String → Phase → Type 0
IsFree p arrived = Unit
IsFree p (looking_up q) = q ≡ p
IsFree p (forwarding q result) = Unit
IsFree p (answered response) = Unit
IsFree p _ = ⊥

-- After a step no call and no settlement is new, and the payment is still known as settled.
record IsUncharged (p : String) (s : GatewayState) (next : Phase × GatewayState) : Type 0 where
  free : IsFree p next.0
  no_calls : next.1.calls ≡ s.calls
  no_settlements : settlements next.1 ≡ settlements s
  still_stored : IsStored next.1.store.payment_events p

unsettled_dropped :
    (e : PaymentEvent) (es : List PaymentEvent)
    → is_settled e.status ≡ false
    → filter (λ (x : PaymentEvent). is_settled x.status) (es ++ (e ∷ []))
      ≡ filter (λ (x : PaymentEvent). is_settled x.status) es
unsettled_dropped e [] h = rw h refl
unsettled_dropped e (x ∷ es) h = ground (arith, unsettled_dropped e es h)

module _ (config : GatewayConfig) (r : Request) (p : String) where
  unchanged :
      (s : GatewayState) (next : Phase)
      → IsStored s.store.payment_events p
      → IsFree p next
      → IsUncharged p s (next, s)
  unchanged s next h free = record {
    free = free;
    no_calls = refl;
    no_settlements = refl;
    still_stored = h;
  }

  append_or-IsUncharged :
      (b : Bool) (e : PaymentEvent) (next thrown : Phase) (s : GatewayState)
      → IsStored s.store.payment_events p
      → is_settled e.status ≡ false
      → IsFree p next
      → IsFree p thrown
      → IsUncharged p s (append_or b e next thrown s)
  unfolding append_or append_payment_event
  append_or-IsUncharged true e next thrown s h unsettled k l = record {
    free = k;
    no_calls = refl;
    no_settlements = unsettled_dropped e s.store.payment_events unsettled;
    still_stored = find_last-append p s.store.payment_events (e ∷ []) h;
  }
  append_or-IsUncharged false e next thrown s h unsettled k l = unchanged s thrown h l

  refusal-IsFree : IsFree p (refusal config r (answered server_error))
  unfolding refusal
  refusal-IsFree = if-elim (IsFree p) r.refusal_built (λ _. tt) (λ _. tt)

  admit-IsUncharged :
      (s : GatewayState) → IsStored s.store.payment_events p → IsUncharged p s (admit config r p s)
  unfolding admit payment_event
  admit-IsUncharged s h = elim (Option-cases (request_body config r)) [
    | inr (code, unsafe) ↦ rw (unsafe, admit) (unchanged s _ h tt)
    | inl safe ↦
        rw (safe, admit)
          (if-elim (IsUncharged p s) (r.requirements_match && r.extension_valid)
            (λ _. unchanged s (looking_up p) h refl)
            (λ _. append_or-IsUncharged (r.stores at_mismatch) _ _ _ s h refl refusal-IsFree tt))
  ]

  arrive-IsUncharged :
      (s : GatewayState)
      → IsStored s.store.payment_events p
      → r.payment_header ≡ payload p
      → IsUncharged p s (arrive config r s)
  unfolding arrive with_header
  arrive-IsUncharged s h paying =
      if-elim (IsUncharged p s) (holds r.provider_policy) (λ _. unchanged s _ h tt)
        (λ _.
          if-elim (IsUncharged p s) (not (r.requirements_built && r.challenge_built))
            (λ _. unchanged s _ h tt)
            (λ _.
              subst (λ header. IsUncharged p s (with_header config r header s)) (sym paying)
                (admit-IsUncharged s h)))

  look_up-IsUncharged :
      (s : GatewayState)
      → IsStored s.store.payment_events p
      → IsUncharged p s (look_up config r p s)
  unfolding look_up
  look_up-IsUncharged s (e, found) =
      if-elim (IsUncharged p s) r.settlement_lookup
        (λ _. rw (found, look_up) (unchanged s _ (e, found) tt)) (λ _. unchanged s _ (e, found) tt)

  resume-IsUncharged :
      (phase : Phase) (s : GatewayState)
      → IsStored s.store.payment_events p
      → r.payment_header ≡ payload p
      → IsFree p phase
      → IsUncharged p s (resume config r phase (facilitator_answers phase s))
  unfolding resume facilitator_answers forward
  resume-IsUncharged arrived s h paying k = arrive-IsUncharged s h paying
  resume-IsUncharged (looking_up q) s h paying k =
      subst (λ x. IsUncharged p s (look_up config r x s)) (sym k) (look_up-IsUncharged s h)
  resume-IsUncharged (forwarding q result) s h paying k = record {
    free = tt;
    no_calls = refl;
    no_settlements = refl;
    still_stored = h;
  }
  resume-IsUncharged (answered response) s h paying k = unchanged s (answered response) h tt
  resume-IsUncharged (verifying q) s h paying k = absurd k
  resume-IsUncharged (settling q v) s h paying k = absurd k
  resume-IsUncharged (waiting q v n) s h paying k = absurd k
  resume-IsUncharged (catching q) s h paying k = absurd k

  handled_uncharged :
      (fuel : ℕ) (phase : Phase) (s : GatewayState)
      → IsStored s.store.payment_events p
      → r.payment_header ≡ payload p
      → IsFree p phase
      → ((handle_protected_request config r fuel phase s).1.calls ≡ s.calls)
        × (settlements (handle_protected_request config r fuel phase s).1 ≡ settlements s)
  unfolding handle_protected_request
  handled_uncharged zero phase s h paying k = (refl, refl)
  handled_uncharged (suc fuel) phase s h paying k =
      let next = resume config r phase (facilitator_answers phase s) in
      let one = resume-IsUncharged phase s h paying k in
      let (calls, settled) =
        handled_uncharged fuel next.0 next.1 one.still_stored paying one.free in
      (calls ∙ one.no_calls, settled ∙ one.no_settlements)

  -- A request whose payment the store knows as settled causes no call of `settlePayment` and no new
  -- settlement, for any number of stretches and whatever else fails on its way.
  pub replay_uncharged :
      (fuel : ℕ) (s : GatewayState)
      → IsStored s.store.payment_events p
      → r.payment_header ≡ payload p
      → ((handle_protected_request config r fuel arrived s).1.calls ≡ s.calls)
        × (settlements (handle_protected_request config r fuel arrived s).1 ≡ settlements s)
  replay_uncharged fuel s h paying = handled_uncharged fuel arrived s h paying tt

-- ===== src/Gateway/Store/Refinement.antt =====
-- gateway-service/src/store.ts: the store in files answers as a store in memory that takes no more
-- after a write was rejected.
use stellar_facilitator.Common.{
  ◌≡◌, refl, ap, Bool, true, false, List, [], ◌∷◌, All, All-snoc, filter,
}
use stellar_facilitator.Gateway.{PaymentEvent, ProviderOutcomeRecord}
use stellar_facilitator.Gateway.Store.{
  Codec, Operation, append_payment_event, append_provider_outcome, find_settlement,
  list_payment_events, list_provider_outcomes, Answer, done, threw, found, payments, outcomes,
  settles, event_of, outcome_of, find_last, run_store, InMemoryGatewayEventStore, empty_store,
  in_memory, JsonlGatewayEventStore, no_files, jsonl, Disk, works, rejects, append, append_file,
  read_lines, answer_with,
}
use stellar_facilitator.Gateway.Store.Lines.{
  IsReadable, store_of, append_file-store_of, read_lines-store_of,
}

-- The store in memory, and whether a write to the files was rejected before.
abbrev pub Guarded : Type 0
Guarded = InMemoryGatewayEventStore × Bool

-- What an append does: it is taken until one was rejected, and from then on refused for ever.
abbrev pub guarded_append : Operation → Disk → Guarded → Answer × Guarded
guarded_append o disk (s, true) = (threw, (s, true))
guarded_append o works (s, false) = ((in_memory o s).0, ((in_memory o s).1, false))
guarded_append o (rejects left) (s, false) = (threw, (s, true))

-- What a call that reads does: it throws where the file cannot be read.
abbrev pub guarded_read : Operation → Disk → Guarded → Answer × Guarded
guarded_read o works (s, broken) = ((in_memory o s).0, (s, broken))
guarded_read o (rejects left) g = (threw, g)

abbrev pub guarded : Operation × Disk → Guarded → Answer × Guarded
guarded (append_payment_event e, disk) g = guarded_append (append_payment_event e) disk g
guarded (append_provider_outcome o, disk) g = guarded_append (append_provider_outcome o) disk g
guarded (find_settlement p, disk) g = guarded_read (find_settlement p) disk g
guarded (list_payment_events w, disk) g = guarded_read (list_payment_events w) disk g
guarded (list_provider_outcomes w, disk) g = guarded_read (list_provider_outcomes w) disk g

-- A write that is rejected has left nothing in the file.
abbrev pub IsClean : Disk → Type 0
IsClean works = Unit
IsClean (rejects left) = left ≡ []

module _ (events_json : Codec PaymentEvent) (outcomes_json : Codec ProviderOutcomeRecord) where
  -- A call that appends a value appends one whose text is a line that parses as the value, and
  -- leaves nothing if it is rejected.
  abbrev pub IsReadableCall : Operation × Disk → Type 0
  IsReadableCall (append_payment_event e, disk) = IsReadable events_json e × IsClean disk
  IsReadableCall (append_provider_outcome o, disk) = IsReadable outcomes_json o × IsClean disk
  IsReadableCall (find_settlement p, disk) = Unit
  IsReadableCall (list_payment_events g, disk) = Unit
  IsReadableCall (list_provider_outcomes g, disk) = Unit

  -- The files that hold what a store in memory holds.
  abbrev pub files_of : Guarded → JsonlGatewayEventStore
  files_of (s, broken) = record {
    payments_path = store_of events_json s.payment_events;
    outcomes_path = store_of outcomes_json s.provider_outcomes;
    write_queue_rejected = broken;
  }

  abbrev IsReadableStore : InMemoryGatewayEventStore → Type 0
  IsReadableStore s =
      All (IsReadable events_json) s.payment_events
      × All (IsReadable outcomes_json) s.provider_outcomes

  abbrev IsSimulated : Operation × Disk → Guarded → Type 0
  IsSimulated call g =
      (jsonl events_json outcomes_json call (files_of g)
        ≡ ((guarded call g).0, files_of (guarded call g).1))
      × IsReadableStore (guarded call g).1.0

  append_event_simulated :
      (e : PaymentEvent) (disk : Disk) (s : InMemoryGatewayEventStore) (broken : Bool)
      → IsReadable events_json e × IsClean disk
      → IsReadableStore s
      → IsSimulated (append_payment_event e, disk) (s, broken)
  unfolding jsonl append in_memory append_file
  append_event_simulated e disk s true h k = (refl, k)
  append_event_simulated e works s false h k = (
    ap (λ f. (done, record (files_of (s, false)) { payments_path = f }))
        (append_file-store_of events_json s.payment_events e),
    (All-snoc (IsReadable events_json) s.payment_events e k.0 h.0, k.1),
  )
  append_event_simulated e (rejects left) s false h k = rw (h.1, append_file) (refl, k)

  append_outcome_simulated :
      (o : ProviderOutcomeRecord) (disk : Disk) (s : InMemoryGatewayEventStore) (broken : Bool)
      → IsReadable outcomes_json o × IsClean disk
      → IsReadableStore s
      → IsSimulated (append_provider_outcome o, disk) (s, broken)
  unfolding jsonl append in_memory append_file
  append_outcome_simulated o disk s true h k = (refl, k)
  append_outcome_simulated o works s false h k = (
    ap (λ f. (done, record (files_of (s, false)) { outcomes_path = f }))
        (append_file-store_of outcomes_json s.provider_outcomes o),
    (k.0, All-snoc (IsReadable outcomes_json) s.provider_outcomes o k.1 h.0),
  )
  append_outcome_simulated o (rejects left) s false h k = rw (h.1, append_file) (refl, k)

  read_back :
      {A : Type 0} (codec : Codec A) (f : List A → Answer) (vs : List A)
      → All (IsReadable codec) vs
      → answer_with f (read_lines codec works (store_of codec vs)) ≡ f vs
  unfolding answer_with
  read_back codec f vs h = ap (answer_with f) (read_lines-store_of codec vs h)

  -- One call: the same answer, and files that again hold what the memory holds.
  call_simulated :
      (call : Operation × Disk) (g : Guarded)
      → IsReadableCall call
      → IsReadableStore g.0
      → IsSimulated call g
  unfolding in_memory jsonl read_lines answer_with
  call_simulated (append_payment_event e, disk) (s, broken) h k =
      append_event_simulated e disk s broken h k
  call_simulated (append_provider_outcome o, disk) (s, broken) h k =
      append_outcome_simulated o disk s broken h k
  call_simulated (find_settlement p, works) (s, broken) h k = (
    ap (λ a. (a, files_of (s, broken)))
        (read_back events_json (λ es. found (find_last (settles p) es)) s.payment_events k.0),
    k,
  )
  call_simulated (list_payment_events w, works) (s, broken) h k = (
    ap (λ a. (a, files_of (s, broken)))
        (read_back events_json (λ es. payments (filter (event_of w) es)) s.payment_events k.0),
    k,
  )
  call_simulated (list_provider_outcomes w, works) (s, broken) h k = (
    ap (λ a. (a, files_of (s, broken)))
        (read_back outcomes_json (λ os. outcomes (filter (outcome_of w) os)) s.provider_outcomes
          k.1),
    k,
  )
  call_simulated (find_settlement p, rejects left) g h k = (refl, k)
  call_simulated (list_payment_events w, rejects left) g h k = (refl, k)
  call_simulated (list_provider_outcomes w, rejects left) g h k = (refl, k)

  run_simulated :
      (calls : List (Operation × Disk)) (g : Guarded)
      → All IsReadableCall calls
      → IsReadableStore g.0
      → run_store (jsonl events_json outcomes_json) calls (files_of g)
        ≡ ((run_store guarded calls g).0, files_of (run_store guarded calls g).1)
  unfolding run_store
  run_simulated [] g h k = refl
  run_simulated (call ∷ calls) g h k =
      let (one, good) = call_simulated call g h.0 k in
      let rest = run_simulated calls (guarded call g).1 h.1 good in rw (one, rest) refl

  -- Let the text of each appended value be a nonempty line that parses as the value, and let a
  -- rejected write leave nothing in the file. Then the file store answers every sequence of calls,
  -- rejected ones included, as a store in memory does that throws at each read the file system
  -- rejects, at the first write it rejects and at every append after that; and the files hold what
  -- that memory holds.
  pub run_store_refines :
      (calls : List (Operation × Disk))
      → All IsReadableCall calls
      → run_store (jsonl events_json outcomes_json) calls no_files ≡ (
        (run_store guarded calls (empty_store, false)).0,
        files_of (run_store guarded calls (empty_store, false)).1,
      )
  unfolding store_of
  run_store_refines calls h = run_simulated calls (empty_store, false) h (tt, tt)

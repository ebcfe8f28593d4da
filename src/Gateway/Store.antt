-- ===== src/Gateway/Store.antt =====
-- gateway-service/src/store.ts: `InMemoryGatewayEventStore` and `JsonlGatewayEventStore`.
--
-- A file is the list of the character codes of its text. `structuredClone` is the identity on
-- values that nobody mutates. `JSON` is a parameter, and so is what the file system does in a call.
pub mod Lines
pub mod Refinement
use stellar_facilitator.Common.{
  ℕ, zero, suc, String, Bool, true, false, not, ◌&&◌, Option, none, some, List, [], ◌∷◌, ◌++◌, ◌==◌,
  string_eq, nat_eq, if◌then◌else◌, filter,
}
use stellar_facilitator.Common.Check.{Check, pass, reject, throws, ◌>>=◌, attempt}
use stellar_facilitator.Gateway.{PaymentEvent, ProviderOutcomeRecord, is_settled}

abbrev pub Text : Type 0
Text = List ℕ

-- `JSON.stringify` and `JSON.parse`, the second throwing where it gives `none`.
pub record Codec {ℓ} (A : Type ℓ) : Type ℓ where
  pub stringify : A → Text
  pub parse : Text → Option A

-- `events.findLast(test)`
unfoldable pub find_last {ℓ} : {A : Type ℓ} → (A → Bool) → List A → Option A
find_last test [] = none
find_last test (x ∷ xs) =
    let later = find_last test xs in
    elim later [ some y ↦ some y | none ↦ if test x then some x else none ]

abbrev pub settles : String → PaymentEvent → Bool
settles payment_id event = (event.payment_id == payment_id) && is_settled event.status

abbrev pub event_of : String → PaymentEvent → Bool
event_of gateway_id event = event.gateway_id == gateway_id

abbrev pub outcome_of : String → ProviderOutcomeRecord → Bool
outcome_of gateway_id outcome = outcome.gateway_id == gateway_id

-- The calls of `GatewayEventStore`, and what they answer.
pub data Operation : Type 0 where
  append_payment_event : PaymentEvent → Operation
  append_provider_outcome : ProviderOutcomeRecord → Operation
  find_settlement : String → Operation
  list_payment_events : String → Operation
  list_provider_outcomes : String → Operation

-- `threw` is a rejected promise.
pub data Answer : Type 0 where
  done : Answer
  found : Option PaymentEvent → Answer
  payments : List PaymentEvent → Answer
  outcomes : List ProviderOutcomeRecord → Answer
  threw : Answer

-- What the file system does in a call: all that is asked, or it rejects `mkdir`, `appendFile` or
-- `readFile` with an error other than ENOENT. A rejected write leaves a text in the file all the same.
pub data Disk : Type 0 where
  works : Disk
  rejects : Text → Disk

-- A run of calls, each awaited before the next. An exception ends its own call only.
unfoldable pub run_store {ℓ} :
    {S : Type ℓ}
    → (Operation × Disk → S → Answer × S)
    → List (Operation × Disk)
    → S
    → List Answer × S
run_store step [] s = ([], s)
run_store step (call ∷ calls) s =
    let answered = step call s in
    let rest = run_store step calls answered.1 in (answered.0 ∷ rest.0, rest.1)

pub record InMemoryGatewayEventStore : Type 0 where
  pub payment_events : List PaymentEvent
  pub provider_outcomes : List ProviderOutcomeRecord

abbrev pub empty_store : InMemoryGatewayEventStore
empty_store = record { payment_events = []; provider_outcomes = [] }

unfoldable pub in_memory :
    Operation → InMemoryGatewayEventStore → Answer × InMemoryGatewayEventStore
in_memory (append_payment_event e) s =
    (done, record s { payment_events = s.payment_events ++ (e ∷ []) })
in_memory (append_provider_outcome o) s =
    (done, record s { provider_outcomes = s.provider_outcomes ++ (o ∷ []) })
in_memory (find_settlement p) s = (found (find_last (settles p) s.payment_events), s)
in_memory (list_payment_events g) s = (payments (filter (event_of g) s.payment_events), s)
in_memory (list_provider_outcomes g) s = (outcomes (filter (outcome_of g) s.provider_outcomes), s)

abbrev pub newline : ℕ
newline = 10

-- `line` is what stands before the first newline of what is not read yet.
unfoldable pub split_from : Text → Text → List Text
split_from line [] = line ∷ []
split_from line (c ∷ text) =
    let ended = split_from [] text in
    let continued = split_from (line ++ (c ∷ [])) text in
    if c == newline then line ∷ ended else continued

-- `contents.split("\n")`
abbrev pub split : Text → List Text
split = split_from []

-- `Boolean(line)`
abbrev pub nonempty : Text → Bool
nonempty [] = false
nonempty (_ ∷ _) = true

unfoldable pub parse_all {ℓ} : {A : Type ℓ} → Codec A → List Text → Check (List A)
parse_all codec [] = pass []
parse_all codec (line ∷ lines) = do
  a ← attempt (codec.parse line)
  rest ← parse_all codec lines
  pass (a ∷ rest)

-- The files, `none` where there is none yet (ENOENT), and whether `writeQueue` is a rejected promise.
pub record JsonlGatewayEventStore : Type 0 where
  pub payments_path : Option Text
  pub outcomes_path : Option Text
  pub write_queue_rejected : Bool

abbrev pub no_files : JsonlGatewayEventStore
no_files = record { payments_path = none; outcomes_path = none; write_queue_rejected = false }

-- `appendFile`. A file that would be empty is as good as none.
unfoldable pub append_file : Text → Option Text → Option Text
append_file [] file = file
append_file (c ∷ text) none = some (c ∷ text)
append_file (c ∷ text) (some contents) = some (contents ++ (c ∷ text))

-- `append` on its file and the queue: a callback of a rejected promise is not called, and the
-- promise that `then` gives is rejected again.
unfoldable pub append {ℓ} :
    {A : Type ℓ} → Codec A → Disk → A → Bool → Option Text → Answer × Option Text × Bool
append codec disk value true file = (threw, file, true)
append codec works value false file =
    (done, append_file (codec.stringify value ++ (newline ∷ [])) file, false)
append codec (rejects left) value false file = (threw, append_file left file, true)

-- The `catch` block makes a missing file empty and throws every other error again.
unfoldable pub read_lines {ℓ} : {A : Type ℓ} → Codec A → Disk → Option Text → Check (List A)
read_lines codec (rejects left) file = throws
read_lines codec works none = pass []
read_lines codec works (some contents) = parse_all codec (filter nonempty (split contents))

-- The answer made of what was read, or the exception.
unfoldable pub answer_with {ℓ} : {A : Type ℓ} → (List A → Answer) → Check (List A) → Answer
answer_with f (pass values) = f values
answer_with f (reject reason payer) = threw
answer_with f throws = threw

module _ (events_json : Codec PaymentEvent) (outcomes_json : Codec ProviderOutcomeRecord) where
  unfoldable pub jsonl : Operation × Disk → JsonlGatewayEventStore → Answer × JsonlGatewayEventStore
  jsonl (append_payment_event e, disk) s =
      let written = append events_json disk e s.write_queue_rejected s.payments_path in
      (written.0, record s { payments_path = written.1; write_queue_rejected = written.2 })
  jsonl (append_provider_outcome o, disk) s =
      let written = append outcomes_json disk o s.write_queue_rejected s.outcomes_path in
      (written.0, record s { outcomes_path = written.1; write_queue_rejected = written.2 })
  jsonl (find_settlement p, disk) s = (
    answer_with (λ events. found (find_last (settles p) events))
        (read_lines events_json disk s.payments_path),
    s,
  )
  jsonl (list_payment_events g, disk) s = (
    answer_with (λ events. payments (filter (event_of g) events))
        (read_lines events_json disk s.payments_path),
    s,
  )
  jsonl (list_provider_outcomes g, disk) s = (
    answer_with (λ records. outcomes (filter (outcome_of g) records))
        (read_lines outcomes_json disk s.outcomes_path),
    s,
  )

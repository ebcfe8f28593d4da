-- ===== src/Channel.antt =====
-- facilitator-service/src/channel/pool.ts: `ChannelAccountPool` with the types of
-- channel/types.ts; its initialization is `Channel.Initialize`.
--
-- The map of channels is the list of its values, in insertion order, each under its own public key.
-- A waiting request is its number, and a promise that is settled is an entry of `outcomes`. What
-- Horizon answers to a balance or a sequence request is passed in. The log is left out. That a timer
-- fires is an event, and any order of events may occur.
pub mod Keys
pub mod Accounts
pub mod Steps
pub mod Initialize
pub mod Run
mod Tests
use stellar_facilitator.Common.{
  ℕ, zero, suc, ◌+◌, ◌-◌, String, Bool, true, false, not, ◌&&◌, ◌||◌, Option, none, some, List, [],
  ◌∷◌, ◌++◌, ◌==◌, nat_eq, string_eq, if◌then◌else◌, leb, ltb, length, find, filter, includes,
  set_delete,
}

pub data ChannelAccountState : Type 0 where
  available in_use cooldown error : ChannelAccountState

pub record ChannelAccount : Type 0 where
  pub public_key : String
  pub state : ChannelAccountState
  pub transaction_count : ℕ
  pub last_used_at : ℕ
  pub sequence : String
  pub error_message : Option String

-- How the promise of a request ends.
pub data Outcome : Type 0 where
  granted : String → Outcome
  timed_out : Outcome
  shut_down : Outcome
  not_initialized : Outcome

pub record ChannelAccountPool : Type 0 where
  pub channels : List ChannelAccount
  -- The waiting requests, the oldest first.
  pub acquisition_queue : List ℕ
  pub is_initialized : Bool
  -- The outcomes, the newest first.
  pub outcomes : List (ℕ × Outcome)

abbrev pub is_available : ChannelAccount → Bool
is_available c = elim c.state [ available ↦ true | _ ↦ false ]

abbrev pub is_in_use : ChannelAccount → Bool
is_in_use c = elim c.state [ in_use ↦ true | _ ↦ false ]

abbrev pub is_cooling : ChannelAccount → Bool
is_cooling c = elim c.state [ cooldown ↦ true | _ ↦ false ]

abbrev pub is_broken : ChannelAccount → Bool
is_broken c = elim c.state [ error ↦ true | _ ↦ false ]

-- `initializeChannel`: the entry under a key is replaced where it stands, or a new one is added.
unfoldable pub add_channel : ChannelAccount → List ChannelAccount → List ChannelAccount
add_channel channel [] = channel ∷ []
add_channel channel (c ∷ cs) =
    let later = add_channel channel cs in
    if c.public_key == channel.public_key then channel ∷ cs else c ∷ later

-- `this.channels.get(key)`, changed in place.
unfoldable pub update :
    String → (ChannelAccount → ChannelAccount) → List ChannelAccount → List ChannelAccount
update key change [] = []
update key change (c ∷ cs) =
    let later = update key change cs in if c.public_key == key then change c ∷ cs else c ∷ later

-- The first of the stable sort by `lastUsedAt`.
unfoldable pub least_recent : List ChannelAccount → Option ChannelAccount
least_recent [] = none
least_recent (c ∷ cs) = elim (least_recent cs) [
  | none ↦ some c
  | some d ↦ if leb c.last_used_at d.last_used_at then some c else some d
]

abbrev pub cooled : ℕ → ℕ → ChannelAccount → ChannelAccount
cooled cooldown_ms now c =
    if is_cooling c && leb (cooldown_ms + c.last_used_at) now
    then record c { state = available }
    else c

unfoldable pub process_cooldowns : ℕ → ℕ → List ChannelAccount → List ChannelAccount
process_cooldowns cooldown_ms now [] = []
process_cooldowns cooldown_ms now (c ∷ cs) =
    cooled cooldown_ms now c ∷ process_cooldowns cooldown_ms now cs

abbrev pub set_in_use : ℕ → ChannelAccount → ChannelAccount
set_in_use now c = record c { state = in_use; last_used_at = now }

abbrev pub set_cooldown : ℕ → ChannelAccount → ChannelAccount
set_cooldown now c = record c {
  state = cooldown;
  transaction_count = suc c.transaction_count;
  last_used_at = now;
}

abbrev pub set_error : String → ChannelAccount → ChannelAccount
set_error text c = record c { state = error; error_message = some text }

-- What callers, timers and monitoring do, in the order in which it happens.
pub data Event : Type 0 where
  acquires : ℕ → ℕ → Event
  expires : ℕ → Event
  continues : ℕ → Event
  releases : String → ℕ → Event
  cools : ℕ → Event
  monitors : String → Bool → Option String → Event
  resyncs : String → Option String → String → Event
  shuts_down : Event

module _ (cooldown_ms : ℕ) where
  -- Where nothing is available, the channels that have cooled down become so, but only for the next
  -- request.
  unfoldable pub get_available_channel :
      ℕ → ChannelAccountPool → Option ChannelAccount × ChannelAccountPool
  get_available_channel now s =
      let free = filter is_available s.channels in
      if length free == 0
      then (none, record s { channels = process_cooldowns cooldown_ms now s.channels })
      else (least_recent free, s)

  -- `markAsInUse`, and the promise of `request` resolved with the channel.
  unfoldable pub mark_as_in_use : ℕ → ℕ → ChannelAccount → ChannelAccountPool → ChannelAccountPool
  mark_as_in_use now request channel s = record s {
    channels = update channel.public_key (set_in_use now) s.channels;
    outcomes = (request, granted channel.public_key) ∷ s.outcomes;
  }

  unfoldable pub take_or_wait :
      ℕ → ℕ → Option ChannelAccount × ChannelAccountPool → ChannelAccountPool
  take_or_wait now request found = elim found.0 [
    | some channel ↦ mark_as_in_use now request channel found.1
    | none ↦ record found.1 { acquisition_queue = found.1.acquisition_queue ++ (request ∷ []) }
  ]

  unfoldable pub acquire : ℕ → ℕ → ChannelAccountPool → ChannelAccountPool
  acquire request now s =
      if not s.is_initialized
      then record s { outcomes = (request, not_initialized) ∷ s.outcomes }
      else take_or_wait now request (get_available_channel now s)

  -- The timer of a request: it acts on a request that still waits.
  unfoldable pub expire : ℕ → ChannelAccountPool → ChannelAccountPool
  expire request s =
      if includes s.acquisition_queue request
      then record s {
        acquisition_queue = set_delete request s.acquisition_queue;
        outcomes = (request, timed_out) ∷ s.outcomes;
      }
      else s

  unfoldable pub serve_first :
      ℕ → ℕ → List ℕ → Option ChannelAccount × ChannelAccountPool → ChannelAccountPool
  serve_first now request rest found = elim found.0 [
    | none ↦ found.1
    | some channel ↦
        mark_as_in_use now request channel (record found.1 { acquisition_queue = rest })
  ]

  -- One round; `setImmediate` runs the next one as an event of its own.
  unfoldable pub process_queue : ℕ → ChannelAccountPool → ChannelAccountPool
  process_queue now s = elim s.acquisition_queue [
    | [] ↦ s
    | request ∷ rest ↦ serve_first now request rest (get_available_channel now s)
  ]

  unfoldable pub release_channel : String → ℕ → ChannelAccountPool → ChannelAccountPool
  release_channel key now s = elim (find (λ c. c.public_key == key) s.channels) [
    | none ↦ s
    | some channel ↦
        if not (is_in_use channel)
        then s
        else process_queue now (record s { channels = update key (set_cooldown now) s.channels })
  ]

  -- The timer that a release sets.
  unfoldable pub cooldown_over : ℕ → ChannelAccountPool → ChannelAccountPool
  cooldown_over now s =
      process_queue now (record s { channels = process_cooldowns cooldown_ms now s.channels })

  -- What Horizon says of a balance, and of the refill that follows if it is below the threshold.
  unfoldable pub monitor_balance :
      String → Bool → Option String → ChannelAccountPool → ChannelAccountPool
  monitor_balance key is_below refill_error s = if not is_below then s else elim refill_error [
    | none ↦ s
    | some text ↦ record s { channels = update key (set_error text) s.channels }
  ]

  -- The answer is a sequence number, or the text of the error.
  unfoldable pub resync_sequence :
      String → Option String → String → ChannelAccountPool → ChannelAccountPool
  resync_sequence key sequence text s = elim sequence [
    | some n ↦ record s {
      channels = update key (λ (c : ChannelAccount). record c { sequence = n }) s.channels;
    }
    | none ↦ record s { channels = update key (set_error text) s.channels }
  ]

  unfoldable pub reject_all : List ℕ → List (ℕ × Outcome) → List (ℕ × Outcome)
  reject_all [] outcomes = outcomes
  reject_all (request ∷ rest) outcomes = reject_all rest ((request, shut_down) ∷ outcomes)

  unfoldable pub shutdown : ChannelAccountPool → ChannelAccountPool
  shutdown s = record s {
    is_initialized = false;
    acquisition_queue = [];
    outcomes = reject_all s.acquisition_queue s.outcomes;
  }

  unfoldable pub step : Event → ChannelAccountPool → ChannelAccountPool
  step (acquires request now) s = acquire request now s
  step (expires request) s = expire request s
  step (continues now) s = process_queue now s
  step (releases key now) s = release_channel key now s
  step (cools now) s = cooldown_over now s
  step (monitors key is_below refill_error) s = monitor_balance key is_below refill_error s
  step (resyncs key sequence text) s = resync_sequence key sequence text s
  step shuts_down s = shutdown s

  unfoldable pub run : List Event → ChannelAccountPool → ChannelAccountPool
  run [] s = s
  run (event ∷ events) s = run events (step event s)

pub record Stats : Type 0 where
  pub total : ℕ
  pub available_count : ℕ
  pub in_use_count : ℕ
  pub cooldown_count : ℕ
  pub error_count : ℕ
  pub queue_length : ℕ
  pub total_transactions : ℕ

unfoldable pub sum_transactions : List ChannelAccount → ℕ
sum_transactions [] = 0
sum_transactions (c ∷ cs) = c.transaction_count + sum_transactions cs

unfoldable pub get_stats : ChannelAccountPool → Stats
get_stats s = record {
  total = length s.channels;
  available_count = length (filter is_available s.channels);
  in_use_count = length (filter is_in_use s.channels);
  cooldown_count = length (filter is_cooling s.channels);
  error_count = length (filter is_broken s.channels);
  queue_length = length s.acquisition_queue;
  total_transactions = sum_transactions s.channels;
}

-- ===== src/Channel/Steps.antt =====
-- facilitator-service/src/channel/pool.ts: every operation keeps the books.
use stellar_facilitator.Common.{
  ℕ, suc, ◌≡◌, refl, ap, subst, inl, inr, String, Bool, true, false, not, Option, none, some, List,
  [], ◌∷◌, ◌==◌, ==_refl, string_eq, nat_eq, if◌then◌else◌, arith, Bool-cases, Option-cases, filter,
  length, includes,
}
use stellar_facilitator.Channel.{
  ChannelAccount, Outcome, granted, timed_out, shut_down, not_initialized, ChannelAccountPool,
  is_available, is_in_use, update, set_in_use, set_cooldown, set_error, get_available_channel,
  mark_as_in_use, take_or_wait, serve_first, acquire, expire, process_queue, release_channel,
  cooldown_over, monitor_balance, resync_sequence, reject_all, shutdown, Event, acquires, expires,
  continues, releases, cools, monitors, resyncs, shuts_down, step, run,
}
use stellar_facilitator.Channel.Keys.{channel_at, least_recent-found}
use stellar_facilitator.Channel.Accounts.{
  grants, IsAccounted, IsBooked, update-IsBooked, of_in_use, of_available, in_any_state,
  cooldowns-IsBooked, ungranted-IsBooked, IsBookedPool,
}

module _ (cooldown_ms : ℕ) where
  mark-IsBooked :
      (now request : ℕ) (c : ChannelAccount) (s : ChannelAccountPool)
      → channel_at c.public_key s.channels ≡ some c
      → is_available c ≡ true
      → IsBookedPool s
      → IsBookedPool (mark_as_in_use cooldown_ms now request c s)
  unfolding mark_as_in_use
  mark-IsBooked now request c s there free h =
      update-IsBooked c.public_key (set_in_use now) s.channels s.outcomes
        ((request, granted c.public_key) ∷ s.outcomes) (λ d. refl) (λ key other. rw other refl) own
        h
    where
      own :
          (d : ChannelAccount)
          → channel_at c.public_key s.channels ≡ some d
          → IsAccounted d (grants c.public_key s.outcomes)
          → IsAccounted
              (set_in_use now d)
              (grants c.public_key ((request, granted c.public_key) ∷ s.outcomes))
      own d found before =
          let same : c ≡ d = ground (arith, there, found) in
          let free' : is_available d ≡ true = subst (λ x. is_available x ≡ true) same free in
          rw (==_refl c.public_key)
            (ap suc (of_available d.state d.transaction_count _ free' before))

  available-IsBooked :
      (now : ℕ) (s : ChannelAccountPool)
      → IsBookedPool s
      → ((c : ChannelAccount)
          → (get_available_channel cooldown_ms now s).0 ≡ some c
          → (channel_at c.public_key (get_available_channel cooldown_ms now s).1.channels ≡ some c)
            × (is_available c ≡ true))
        × IsBookedPool (get_available_channel cooldown_ms now s).1
  unfolding get_available_channel
  available-IsBooked now s h = elim (Bool-cases (length (filter is_available s.channels) == 0)) [
    | inl empty ↦ rw empty (
      λ c found. absurd (ground (arith, found)),
      cooldowns-IsBooked cooldown_ms now s.channels s.outcomes h,
    )
    | inr some' ↦ rw some' (λ c found. least_recent-found s.channels c h.keyed found, h)
  ]

  take_or_wait-IsBooked :
      (now request : ℕ) (found : Option ChannelAccount × ChannelAccountPool)
      → ((c : ChannelAccount)
          → found.0 ≡ some c
          → (channel_at c.public_key found.1.channels ≡ some c) × (is_available c ≡ true))
      → IsBookedPool found.1
      → IsBookedPool (take_or_wait cooldown_ms now request found)
  unfolding take_or_wait
  take_or_wait-IsBooked now request (none, s) there h = h
  take_or_wait-IsBooked now request (some c, s) there h =
      mark-IsBooked now request c s (there c refl).0 (there c refl).1 h

  serve_first-IsBooked :
      (now request : ℕ) (rest : List ℕ) (found : Option ChannelAccount × ChannelAccountPool)
      → ((c : ChannelAccount)
          → found.0 ≡ some c
          → (channel_at c.public_key found.1.channels ≡ some c) × (is_available c ≡ true))
      → IsBookedPool found.1
      → IsBookedPool (serve_first cooldown_ms now request rest found)
  unfolding serve_first
  serve_first-IsBooked now request rest (none, s) there h = h
  serve_first-IsBooked now request rest (some c, s) there h =
      mark-IsBooked now request c (record s { acquisition_queue = rest }) (there c refl).0
        (there c refl).1 h

  either-IsBooked :
      (test : Bool) (s t : ChannelAccountPool)
      → IsBookedPool s
      → IsBookedPool t
      → IsBookedPool (if test then s else t)
  either-IsBooked true s t h k = h
  either-IsBooked false s t h k = k

  acquire-IsBooked :
      (request now : ℕ) (s : ChannelAccountPool)
      → IsBookedPool s
      → IsBookedPool (acquire cooldown_ms request now s)
  unfolding acquire
  acquire-IsBooked request now s h =
      let (there, after) = available-IsBooked now s h in
      either-IsBooked (not s.is_initialized)
        (record s { outcomes = (request, not_initialized) ∷ s.outcomes })
        (take_or_wait cooldown_ms now request (get_available_channel cooldown_ms now s))
        (ungranted-IsBooked s.channels s.outcomes ((request, not_initialized) ∷ s.outcomes)
          (λ key. refl) h)
        (take_or_wait-IsBooked now request (get_available_channel cooldown_ms now s) there after)

  process_queue-IsBooked :
      (now : ℕ) (s : ChannelAccountPool)
      → IsBookedPool s
      → IsBookedPool (process_queue cooldown_ms now s)
  unfolding process_queue
  process_queue-IsBooked now s h = go s.acquisition_queue
    where
      go :
          (queue : List ℕ)
          → IsBookedPool (elim queue [
            | [] ↦ s
            | request ∷ rest ↦
                serve_first cooldown_ms now request rest (get_available_channel cooldown_ms now s)
          ])
      go [] = h
      go (request ∷ rest) =
          let (there, after) = available-IsBooked now s h in
          serve_first-IsBooked now request rest (get_available_channel cooldown_ms now s) there
            after

  expire-IsBooked :
      (request : ℕ) (s : ChannelAccountPool)
      → IsBookedPool s
      → IsBookedPool (expire cooldown_ms request s)
  unfolding expire
  expire-IsBooked request s h = elim (Bool-cases (includes s.acquisition_queue request)) [
    | inr gone ↦ rw (gone, expire) h
    | inl waits ↦
        rw (waits, expire)
          (ungranted-IsBooked s.channels s.outcomes ((request, timed_out) ∷ s.outcomes)
            (λ key. refl) h)
  ]

  release-IsBooked :
      (key : String) (now : ℕ) (s : ChannelAccountPool)
      → IsBookedPool s
      → IsBookedPool (release_channel cooldown_ms key now s)
  unfolding release_channel
  release-IsBooked key now s h = elim (Option-cases (channel_at key s.channels)) [
    | inl gone ↦ rw (gone, release_channel) h
    | inr (c, there) ↦ elim (Bool-cases (is_in_use c)) [
      | inr idle ↦ rw (there, release_channel, idle) h
      | inl used ↦
          rw (there, release_channel, used)
            (process_queue-IsBooked now
              (record s { channels = update key (set_cooldown now) s.channels })
              (update-IsBooked key (set_cooldown now) s.channels s.outcomes s.outcomes (λ d. refl)
                (λ k other. refl) (own c there used) h))
    ]
  ]
    where
      own :
          (c : ChannelAccount)
          → channel_at key s.channels ≡ some c
          → is_in_use c ≡ true
          → (d : ChannelAccount) → channel_at key s.channels ≡ some d
          → IsAccounted d (grants key s.outcomes)
          → IsAccounted (set_cooldown now d) (grants key s.outcomes)
      own c there used d found before =
          let same : c ≡ d = ground (arith, there, found) in
          of_in_use d.state d.transaction_count _ (subst (λ x. is_in_use x ≡ true) same used) before

  failed-IsBooked :
      (key text : String) (s : ChannelAccountPool)
      → IsBookedPool s
      → IsBooked (update key (set_error text) s.channels) s.outcomes
  failed-IsBooked key text s h =
      update-IsBooked key (set_error text) s.channels s.outcomes s.outcomes (λ d. refl)
        (λ k other. refl) (λ d found before. in_any_state d.state d.transaction_count _ before) h

  monitor-IsBooked :
      (key : String) (is_below : Bool) (refill_error : Option String) (s : ChannelAccountPool)
      → IsBookedPool s
      → IsBookedPool (monitor_balance cooldown_ms key is_below refill_error s)
  unfolding monitor_balance
  monitor-IsBooked key false refill_error s h = h
  monitor-IsBooked key true none s h = h
  monitor-IsBooked key true (some text) s h = failed-IsBooked key text s h

  resync-IsBooked :
      (key : String) (sequence : Option String) (text : String) (s : ChannelAccountPool)
      → IsBookedPool s
      → IsBookedPool (resync_sequence cooldown_ms key sequence text s)
  unfolding resync_sequence
  resync-IsBooked key none text s h = failed-IsBooked key text s h
  resync-IsBooked key (some n) text s h =
      update-IsBooked key (λ (c : ChannelAccount). record c { sequence = n }) s.channels s.outcomes
        s.outcomes (λ d. refl) (λ k other. refl) (λ d found before. before) h

  reject_all-grants :
      (key : String) (queue : List ℕ) (os : List (ℕ × Outcome))
      → grants key (reject_all cooldown_ms queue os) ≡ grants key os
  unfolding reject_all
  reject_all-grants key [] os = refl
  reject_all-grants key (request ∷ rest) os = reject_all-grants key rest ((request, shut_down) ∷ os)

  -- Every event of the pool keeps the books: no key stands twice, a channel that is in use has been
  -- granted once more than its counted returns, one that is available or cooling down as often, and
  -- one that has failed at most once more.
  pub step-IsBooked :
      (event : Event) (s : ChannelAccountPool)
      → IsBookedPool s
      → IsBookedPool (step cooldown_ms event s)
  unfolding step cooldown_over shutdown
  step-IsBooked (acquires request now) s h = acquire-IsBooked request now s h
  step-IsBooked (expires request) s h = expire-IsBooked request s h
  step-IsBooked (continues now) s h = process_queue-IsBooked now s h
  step-IsBooked (releases key now) s h = release-IsBooked key now s h
  step-IsBooked (cools now) s h =
      process_queue-IsBooked now _ (cooldowns-IsBooked cooldown_ms now s.channels s.outcomes h)
  step-IsBooked (monitors key is_below refill_error) s h =
      monitor-IsBooked key is_below refill_error s h
  step-IsBooked (resyncs key sequence text) s h = resync-IsBooked key sequence text s h
  step-IsBooked shuts_down s h =
      ungranted-IsBooked s.channels s.outcomes _
        (λ key. reject_all-grants key s.acquisition_queue s.outcomes) h

  pub run-IsBooked :
      (events : List Event) (s : ChannelAccountPool)
      → IsBookedPool s
      → IsBookedPool (run cooldown_ms events s)
  unfolding run
  run-IsBooked [] s h = h
  run-IsBooked (event ∷ events) s h =
      run-IsBooked events (step cooldown_ms event s) (step-IsBooked event s h)

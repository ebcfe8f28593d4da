-- ===== src/Channel/Run.antt =====
-- facilitator-service/src/channel/pool.ts: the books of a pool from its initialization on.
use stellar_facilitator.Common.{
  ℕ, zero, suc, ◌≡◌, refl, subst, inl, inr, String, Bool, true, false, not, ◌&&◌, none, some, List,
  [], ◌∷◌, ◌==◌, ==_iff, string_eq, if◌then◌else◌, arith, Bool-cases, Option-cases, ltb, length,
}
use stellar_facilitator.Channel.{ChannelAccount, ChannelAccountPool, add_channel, Event, run}
use stellar_facilitator.Channel.Keys.{channel_at, IsMap}
use stellar_facilitator.Channel.Accounts.{IsAccounted, IsBooked, IsBookedPool}
use stellar_facilitator.Channel.Steps.{run-IsBooked}
use stellar_facilitator.Channel.Initialize.{
  Horizon, Keys, ChannelPoolConfig, new_channel, new_pool, account_sequence, initialize_channel,
  keypair_of, initialize_from, initialize,
}

channel_at-add_channel :
    (key : String) (c : ChannelAccount) (cs : List ChannelAccount)
    → channel_at key (add_channel c cs)
      ≡ (if c.public_key == key then some c else channel_at key cs)
unfolding add_channel
channel_at-add_channel key c [] = refl
channel_at-add_channel key c (d ∷ cs) = ground (
  arith,
  channel_at-add_channel key c cs,
  ==_iff c.public_key key,
  ==_iff d.public_key c.public_key,
  ==_iff d.public_key key,
)

add_channel-IsMap :
    (c : ChannelAccount) (cs : List ChannelAccount) → IsMap cs → IsMap (add_channel c cs)
unfolding add_channel
add_channel-IsMap c [] h = (refl, tt)
add_channel-IsMap c (d ∷ cs) h = elim (Bool-cases (d.public_key == c.public_key)) [
  | inl same ↦
      rw same (
        subst (λ key. channel_at key cs ≡ none) ((==_iff d.public_key c.public_key).0 same) h.0,
        h.1,
      )
  | inr other ↦ rw other (
    ground (
      arith,
      channel_at-add_channel d.public_key c cs,
      h.0,
      ==_iff c.public_key d.public_key,
      ==_iff d.public_key c.public_key,
      other,
    ),
    add_channel-IsMap c cs h.1,
  )
]

added-IsBooked :
    (key sequence : String) (cs : List ChannelAccount)
    → IsBooked cs []
    → IsBooked (add_channel (new_channel key sequence) cs) []
added-IsBooked key sequence cs h = record {
  keyed = add_channel-IsMap (new_channel key sequence) cs h.keyed;
  accounted = λ k c found.
      let stored = channel_at-add_channel k (new_channel key sequence) cs in
      elim (Bool-cases (key == k)) [
        | inl same ↦
            let here : new_channel key sequence ≡ c = ground (arith, stored, same, found) in
            subst (λ x. IsAccounted x 0) here refl
        | inr other ↦ h.accounted k c (ground (arith, stored, other, found))
      ];
}

module _ (horizon : Horizon) (keys : Keys) (config : ChannelPoolConfig) where
  initialize_from-IsBooked :
      (left i : ℕ) (cs : List ChannelAccount)
      → IsBooked cs []
      → IsBooked (initialize_from horizon keys config left i cs).1 []
  unfolding initialize_from initialize_channel
  initialize_from-IsBooked zero i cs h = h
  initialize_from-IsBooked (suc left) i cs h =
      elim (Option-cases (keypair_of horizon keys config i)) [
        | inl gone ↦ rw (gone, initialize_from) h
        | inr (key, found) ↦ elim (Option-cases (account_sequence horizon keys config i key)) [
          | inl gone ↦ rw (found, initialize_from, gone) h
          | inr (sequence, known) ↦
              rw (found, initialize_from, known)
                (initialize_from-IsBooked left (suc i) (add_channel (new_channel key sequence) cs)
                  (added-IsBooked key sequence cs h))
        ]
      ]

  new_pool-IsBooked : IsBookedPool new_pool
  unfolding new_pool
  new_pool-IsBooked = record {
    keyed = tt;
    accounted = λ key c found. absurd (ground (arith, found));
  }

  either-IsBooked :
      (test : Bool) (s t : Bool × ChannelAccountPool)
      → IsBookedPool s.1
      → IsBookedPool t.1
      → IsBookedPool (if test then s else t).1
  either-IsBooked true s t h k = h
  either-IsBooked false s t h k = k

  initialize-IsBooked : IsBookedPool (initialize horizon keys config new_pool).1
  unfolding initialize new_pool
  initialize-IsBooked =
      either-IsBooked
        (ltb (length config.channel_secret_keys) config.pool_size
          && not config.auto_create_channels)
        (false, new_pool) _ new_pool-IsBooked
        (initialize_from-IsBooked config.pool_size 0 [] new_pool-IsBooked)

  -- Whatever Horizon answers and the keys are, and whether or not the initialization ends, after it
  -- and any history of events the books of the pool agree: no key stands twice, a channel that is in
  -- use has been granted once more than its counted returns, one that is available or cooling down
  -- as often, and one that has failed at most once more.
  pub initialized-IsBooked :
      (cooldown_ms : ℕ) (events : List Event)
      → IsBookedPool (run cooldown_ms events (initialize horizon keys config new_pool).1)
  initialized-IsBooked cooldown_ms events =
      run-IsBooked cooldown_ms events (initialize horizon keys config new_pool).1
        initialize-IsBooked

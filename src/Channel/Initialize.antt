-- ===== src/Channel/Initialize.antt =====
-- facilitator-service/src/channel/pool.ts: the constructor, `initialize`, `initializeChannel` and `createAndFundChannel`.
--
-- A key pair is its public key. What Horizon answers to each of the requests for a channel, and the
-- key pairs, are passed in. That monitoring starts is an event of the pool, and left out here.
use stellar_facilitator.Common.{
  ℕ, zero, suc, String, Bool, true, false, not, ◌&&◌, Option, none, some, List, [], truthy,
  if◌then◌else◌, ltb, length, get_elem?,
}
use stellar_facilitator.Channel.{ChannelAccount, available, ChannelAccountPool, add_channel}

-- The answer to `loadAccount`: a sequence number, the status 404, or another error.
pub data Loaded : Type 0 where
  loaded : String → Loaded
  not_found : Loaded
  load_failed : Loaded

pub record Horizon : Type 0 where
  -- By the index of the channel and its public key.
  pub load_account : ℕ → String → Loaded
  -- Whether the creating transaction goes through.
  pub create_account : ℕ → String → Bool
  pub load_created_account : ℕ → String → Loaded

pub record Keys : Type 0 where
  -- `Keypair.fromSecret`, which may throw, and `Keypair.random`.
  pub from_secret : String → Option String
  pub random : ℕ → String

pub record ChannelPoolConfig : Type 0 where
  pub pool_size : ℕ
  pub channel_secret_keys : List String
  pub auto_create_channels : Bool

abbrev pub new_channel : String → String → ChannelAccount
new_channel key sequence = record {
  public_key = key;
  state = available;
  transaction_count = 0;
  last_used_at = 0;
  sequence = sequence;
  error_message = none;
}

unfoldable pub new_pool : ChannelAccountPool
new_pool = record { channels = []; acquisition_queue = []; is_initialized = false; outcomes = [] }

module _ (horizon : Horizon) (keys : Keys) (config : ChannelPoolConfig) where
  -- The sequence number of the channel's account, which is created where it is missing.
  unfoldable pub account_sequence : ℕ → String → Option String
  account_sequence i key = elim (horizon.load_account i key) [
    | loaded sequence ↦ some sequence
    | load_failed ↦ none
    | not_found ↦
        if horizon.create_account i key
        then elim (horizon.load_created_account i key) [
          | loaded sequence ↦ some sequence
          | _ ↦ none
        ]
        else none
  ]

  -- `none`: it throws, and adds no channel.
  unfoldable pub initialize_channel :
      ℕ → String → List ChannelAccount → Option (List ChannelAccount)
  initialize_channel i key cs = elim (account_sequence i key) [
    | none ↦ none
    | some sequence ↦ some (add_channel (new_channel key sequence) cs)
  ]

  unfoldable pub keypair_of : ℕ → Option String
  keypair_of i = elim (get_elem? config.channel_secret_keys i) [
    | none ↦ some (keys.random i)
    | some secret ↦ if truthy secret then keys.from_secret secret else some (keys.random i)
  ]

  -- The loop from channel `i` on, with `left` to go: whether it ends, and the channels by then.
  unfoldable pub initialize_from : ℕ → ℕ → List ChannelAccount → Bool × List ChannelAccount
  initialize_from zero i cs = (true, cs)
  initialize_from (suc left) i cs = elim (keypair_of i) [
    | none ↦ (false, cs)
    | some key ↦ elim (initialize_channel i key cs) [
      | none ↦ (false, cs)
      | some more ↦ initialize_from left (suc i) more
    ]
  ]

  -- Whether it ends without an exception, and the pool.
  unfoldable pub initialize : ChannelAccountPool → Bool × ChannelAccountPool
  initialize s =
      let result = initialize_from config.pool_size 0 s.channels in
      if s.is_initialized
      then (true, s)
      else if ltb (length config.channel_secret_keys) config.pool_size
          && not config.auto_create_channels
      then (false, s)
      else (result.0, record s { channels = result.1; is_initialized = result.0 })

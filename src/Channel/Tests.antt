-- ===== src/Channel/Tests.antt =====
-- The pool's theorem at a concrete input.
use stellar_facilitator.Channel.{
  step, acquire, release_channel, cooldown_over, process_queue, take_or_wait, serve_first,
  get_available_channel, add_channel, least_recent, mark_as_in_use, update, process_cooldowns,
}
use stellar_facilitator.Channel.Initialize.{
  initialize_from, keypair_of, initialize_channel, account_sequence,
}
use stellar_facilitator.Common.{◌≡◌, refl, true, some, [], ◌∷◌, string_eq}
use stellar_facilitator.Channel.{acquires, step}
use stellar_facilitator.Common.{List, false, true, some, [], ◌∷◌}
use stellar_facilitator.Channel.{Event, releases, cools, run, granted}
use stellar_facilitator.Channel.Initialize.{
  Horizon, loaded, Keys, ChannelPoolConfig, new_pool, initialize,
}
use stellar_facilitator.Channel.Run.{initialized-IsBooked}
use stellar_facilitator.Channel.Accounts.{IsBookedPool}

abbrev horizon : Horizon
horizon = record {
  load_account = λ i key. loaded "7";
  create_account = λ i key. true;
  load_created_account = λ i key. loaded "0";
}

abbrev keys : Keys
keys = record { from_secret = λ secret. some secret; random = λ i. "GR" }

abbrev config : ChannelPoolConfig
config = record {
  pool_size = 2;
  channel_secret_keys = "GA" ∷ ("GB" ∷ []);
  auto_create_channels = false;
}

-- Three requests for two channels, a release, and the end of its cooldown.
abbrev history : List Event
history = acquires 0 1 ∷ (acquires 1 2 ∷ (acquires 2 3 ∷ (releases "GA" 4 ∷ (cools 6000 ∷ []))))

third_served :
    (run 5000 history (initialize horizon keys config new_pool).1).outcomes
    ≡ (2, granted "GA") ∷ ((1, granted "GB") ∷ ((0, granted "GA") ∷ []))
unfolding run step acquire release_channel cooldown_over process_queue take_or_wait serve_first
    get_available_channel add_channel least_recent mark_as_in_use update process_cooldowns
    initialize new_pool initialize_from keypair_of initialize_channel account_sequence
third_served = refl

initialized-IsBooked_example :
    IsBookedPool (run 5000 history (initialize horizon keys config new_pool).1)
initialized-IsBooked_example = initialized-IsBooked horizon keys config 5000 history

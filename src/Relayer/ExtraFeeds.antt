-- ===== src/Relayer/ExtraFeeds.antt =====
-- multi-feed/gas-optimization and multi-feed/args: the feeds that join an update, and the arguments
-- of an iteration. Messages and the request's parameters are not modelled.
use redstone_oracles_monorep.Prelude.{
  ℕ, zero, suc, ◌%◌, ◌==◌, String, Bool, false, not, ◌&&◌, ◌||◌, Option, none, some, List, [], ◌∷◌,
  ◌++◌, Result, ok, ◌>>=◌, if◌then◌else◌, any, str_eq, length, ltb,
}
use redstone_oracles_monorep.Prelude.Dict.{Dict, get}
use redstone_oracles_monorep.Relayer.Config.{
  Numbers, RelayerError, ContractData, RelayerConfig, Environment,
}
use redstone_oracles_monorep.Relayer.Deviation.{triggers_of}
use redstone_oracles_monorep.Relayer.MultiFeed.{ShouldUpdateResponse, should_update_in_multi_feed}

abbrev pub includes : List String → String → Bool
includes ids id = any (λ j. str_eq j id) ids

-- `heartbeat % interval === 0` for one of the heartbeats, where the interval is given and not 0
abbrev pub syncs : List ℕ → Option ℕ → Bool
syncs beats none = false
syncs beats (some zero) = false
syncs beats (some (suc n)) = any (λ beat. beat % suc n == 0) beats

-- `if (!ids.includes(id) && test) ids.push(id)`
abbrev pub with_feed : List String → String → Bool → List String
with_feed ids id test = if not (includes ids id) && test then ids ++ id ∷ [] else ids

module _ (N : Numbers) where
  -- The loop over the deviations, for a threshold that is not 0.
  abbrev pub include_close : List String → Dict N.Float → N.Float → List String
  include_close ids [] threshold = ids
  include_close ids ((id, deviation) ∷ entries) threshold =
      include_close (with_feed ids id (N.at_least deviation threshold)) entries threshold

  abbrev pub include_close_if : List String → Dict N.Float → Option N.Float → List String
  include_close_if ids ratios none = ids
  include_close_if ids ratios (some threshold) =
      if N.is_truthy threshold then include_close ids ratios threshold else ids

  unfoldable pub include_feeds_close_to_deviation :
      List String → Dict N.Float → RelayerConfig N → List String
  include_feeds_close_to_deviation ids ratios config =
      include_close_if ids ratios config.additional_updates_deviation_threshold

  -- The loop over the configured feeds.
  abbrev pub include_synchronized :
      List String → List ℕ → List String → RelayerConfig N → Result RelayerError (List String)
  include_synchronized ids beats [] config = ok ids
  include_synchronized ids beats (id ∷ feeds) config =
      triggers_of N (get config.update_triggers id) >>= λ triggers.
      include_synchronized (with_feed ids id (syncs beats triggers.time_since_last_update)) beats
        feeds config

  unfoldable pub include_synchronized_heartbeat_updates :
      List String → List ℕ → RelayerConfig N → Result RelayerError (List String)
  include_synchronized_heartbeat_updates ids beats config =
      if not config.sync_heartbeats || length beats == 0
      then ok ids
      else include_synchronized ids beats config.data_feeds config

  unfoldable pub add_extra_feeds_to_update_params :
      RelayerConfig N → ShouldUpdateResponse N → Result RelayerError (List String)
  unfolding include_feeds_close_to_deviation include_synchronized_heartbeat_updates
  add_extra_feeds_to_update_params config args =
      include_synchronized_heartbeat_updates
        (include_feeds_close_to_deviation args.data_feeds_to_update args.deviation_ratios config)
        args.heartbeat_updates config

  pub record IterationArgs : Type 0 where
    pub should_update_prices : Bool
    pub data_feeds_to_update : List String

  unfoldable pub get_multi_feed_iteration_args :
      Environment N → ContractData → RelayerConfig N → Result RelayerError IterationArgs
  unfolding add_extra_feeds_to_update_params
  get_multi_feed_iteration_args env contract config = do
    (response, contract') ← should_update_in_multi_feed N env contract config
    ids ←
        if ltb 0 (length response.data_feeds_to_update)
        then add_extra_feeds_to_update_params config response
        else ok response.data_feeds_to_update
    ok (record {
      should_update_prices = ltb 0 (length response.data_feeds_to_update);
      data_feeds_to_update = ids;
    })

-- ===== src/Relayer/Examples.antt =====
-- Iterations and queues of the relayer, and the theorems at concrete inputs.
use redstone_oracles_monorep.Relayer.Samples.{every_ten, every_twenty, two_feeds, at_noon, on_chain}
use redstone_oracles_monorep.Prelude.{
  ℕ, String, true, false, some, List, [], ◌∷◌, All, ok, ◌≡◌, refl, length, rev_append, arith, ℤ,
  inl, suc,
}
use redstone_oracles_monorep.Prelude.Dict.{get, put}
use redstone_oracles_monorep.Relayer.Config.{RelayerConfig}
use redstone_oracles_monorep.Relayer.Naturals.{naturals}
use redstone_oracles_monorep.Relayer.Packages.{
  get_last_round_details, get_data_packages_timestamp, extract_signed_data_packages_for_feed_id,
  check_and_get_same_timestamp,
}
use redstone_oracles_monorep.Relayer.Historical.{
  IsRounded, at_least_ℕ, to_historical_timestamp, to_historical_timestamp_older,
}
use redstone_oracles_monorep.Relayer.Deviation.{
  check_value_deviation_condition, max_deviation, calculate_deviation_percent,
  safe_deviation_percent, get_data_points_for_data_feed_id,
}
use redstone_oracles_monorep.Relayer.Conditions.{
  check_condition_by_name, time_update_condition, value_deviation_condition, skip_fallback_update,
  is_data_package_timestamp_newer,
}
use redstone_oracles_monorep.Relayer.MultiFeed.{
  ShouldUpdateResponse, should_update_in_multi_feed, check_feeds, check_feed, check_conditions,
}
use redstone_oracles_monorep.Relayer.Iteration.{get_multi_feed_iteration_args-IsJustified}
use redstone_oracles_monorep.Relayer.Override.{
  timely_override_since_last_update, override_feeds, IsHastened, revert,
  timely_override_since_last_update_lem,
}
use redstone_oracles_monorep.Relayer.Newer.{IsJustified, should_update_in_multi_feed-IsJustified}
use redstone_oracles_monorep.Relayer.ExtraFeeds.{
  IterationArgs, get_multi_feed_iteration_args, includes, add_extra_feeds_to_update_params,
  include_feeds_close_to_deviation, include_synchronized_heartbeat_updates,
}
use redstone_oracles_monorep.Relayer.Additions.{IsGrown, Qualifies, add_extra_feeds-IsGrown}
use redstone_oracles_monorep.Relayer.Inclusion.{
  add_extra_feeds-includes_close, add_extra_feeds-includes_synchronized,
}
use redstone_oracles_monorep.Relayer.OperationQueue.{
  OperationQueue, enqueue, empty_queue, enqueues, Reachable, starts, steps,
}
use redstone_oracles_monorep.Relayer.Drain.{
  IsSound, Reachable-IsSound, drain, idle, drain_reachable,
}

abbrev found : ShouldUpdateResponse naturals
found = record {
  data_feeds_to_update = "ETH" ∷ [];
  deviation_ratios = [];
  heartbeat_updates = 10 ∷ [];
}

noon_iteration :
    should_update_in_multi_feed naturals at_noon on_chain two_feeds ≡ ok (found, on_chain)
unfolding should_update_in_multi_feed check_feeds check_feed check_conditions
    check_condition_by_name time_update_condition value_deviation_condition skip_fallback_update
    is_data_package_timestamp_newer check_value_deviation_condition max_deviation
    calculate_deviation_percent safe_deviation_percent get_data_points_for_data_feed_id
    get_last_round_details get_data_packages_timestamp extract_signed_data_packages_for_feed_id
    check_and_get_same_timestamp get
noon_iteration = refl

should_update_in_multi_feed-IsJustified_example :
    All (IsJustified naturals at_noon two_feeds on_chain) ("ETH" ∷ [])
should_update_in_multi_feed-IsJustified_example =
    should_update_in_multi_feed-IsJustified naturals at_noon two_feeds on_chain found on_chain
      noon_iteration

abbrev close_args : ShouldUpdateResponse naturals
close_args = record {
  data_feeds_to_update = "ETH" ∷ [];
  deviation_ratios = ("BTC", 2) ∷ [];
  heartbeat_updates = 30 ∷ [];
}

abbrev synchronized_args : ShouldUpdateResponse naturals
synchronized_args = record {
  data_feeds_to_update = "ETH" ∷ [];
  deviation_ratios = [];
  heartbeat_updates = 40 ∷ [];
}

abbrev both : List String
both = "ETH" ∷ "BTC" ∷ []

close_added : add_extra_feeds_to_update_params naturals two_feeds close_args ≡ ok both
unfolding add_extra_feeds_to_update_params include_feeds_close_to_deviation
    include_synchronized_heartbeat_updates get
close_added = refl

synchronized_added : add_extra_feeds_to_update_params naturals two_feeds synchronized_args ≡ ok both
unfolding add_extra_feeds_to_update_params include_feeds_close_to_deviation
    include_synchronized_heartbeat_updates get
synchronized_added = refl

add_extra_feeds-IsGrown_example :
    IsGrown (Qualifies naturals two_feeds close_args) ("ETH" ∷ []) both
add_extra_feeds-IsGrown_example =
    add_extra_feeds-IsGrown naturals two_feeds close_args both (refl, tt) close_added

add_extra_feeds-includes_close_example : includes both "BTC" ≡ true
add_extra_feeds-includes_close_example =
    add_extra_feeds-includes_close naturals two_feeds close_args both "BTC" 2 1 close_added refl
      refl (inl (refl, refl)) refl

btc_triggers : get two_feeds.update_triggers "BTC" ≡ some every_twenty
unfolding get
btc_triggers = refl

add_extra_feeds-includes_synchronized_example : includes both "BTC" ≡ true
add_extra_feeds-includes_synchronized_example =
    add_extra_feeds-includes_synchronized naturals two_feeds synchronized_args both "BTC"
      every_twenty synchronized_added refl refl btc_triggers refl

to_historical_timestamp_older_example :
    (z : ℤ) × (to_historical_timestamp 15000 (some ("url" ∷ [])) 1700000000000 1700000015001 ≡ ok z)
    × IsRounded z
    × (at_least_ℕ z 1700000000000 ≡ false)
to_historical_timestamp_older_example =
    to_historical_timestamp_older 15000 "url" [] 1700000000000 1700000015001 (omega arith)
      (omega arith)

-- Two calls of `enqueue` on an empty queue: the first operation runs, the second waits.
abbrev after_first : OperationQueue ℕ
after_first = (enqueue ℕ (empty_queue ℕ) "relay" 1).1

abbrev after_second : OperationQueue ℕ
after_second = (enqueue ℕ after_first "other" 2).1

after_second_reachable : Reachable ℕ after_second
after_second_reachable =
    steps after_first after_second (steps (empty_queue ℕ) after_first starts (enqueues "relay" 1))
      (enqueues "other" 2)

Reachable-IsSound_example : IsSound ℕ after_second
Reachable-IsSound_example = Reachable-IsSound ℕ after_second after_second_reachable

drain_reachable_example :
    drain ℕ (suc (length after_second.queue)) after_second
    ≡ idle ℕ (rev_append after_second.queue after_second.started)
drain_reachable_example = drain_reachable ℕ after_second after_second_reachable

abbrev noon_args : IterationArgs naturals
noon_args = record { should_update_prices = true; data_feeds_to_update = "ETH" ∷ [] }

noon_extra : add_extra_feeds_to_update_params naturals two_feeds found ≡ ok ("ETH" ∷ [])
unfolding add_extra_feeds_to_update_params include_feeds_close_to_deviation
    include_synchronized_heartbeat_updates get
noon_extra = refl

noon_args_lem : get_multi_feed_iteration_args naturals at_noon on_chain two_feeds ≡ ok noon_args
unfolding get_multi_feed_iteration_args
noon_args_lem = rw (noon_iteration, noon_extra)

get_multi_feed_iteration_args-IsJustified_example :
    (id : String) × IsJustified naturals at_noon two_feeds on_chain id
    × (includes ("ETH" ∷ []) id ≡ true)
get_multi_feed_iteration_args-IsJustified_example =
    get_multi_feed_iteration_args-IsJustified naturals at_noon two_feeds on_chain noon_args
      noon_args_lem refl

abbrev hastened_feeds : RelayerConfig naturals
hastened_feeds = record two_feeds {
  update_triggers =
      ("ETH", record every_ten { time_since_last_update = some 10 })
      ∷ ("BTC", record every_twenty { time_since_last_update = some 15 })
      ∷ [];
}

override_two : timely_override_since_last_update naturals two_feeds 15 ≡ ok hastened_feeds
unfolding timely_override_since_last_update override_feeds get put
override_two = refl

timely_override_since_last_update_lem_example :
    All (IsHastened naturals 15 hastened_feeds) two_feeds.data_feeds
    × (revert naturals two_feeds hastened_feeds ≡ two_feeds)
timely_override_since_last_update_lem_example =
    timely_override_since_last_update_lem naturals two_feeds hastened_feeds 15 override_two

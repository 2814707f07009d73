-- ===== src/Mqtt/Subscriber/Examples.antt =====
-- A subscriber to two feeds with two signers that publishes at once, publishes on a timer, and gets an
-- answer from its fallback.
use redstone_oracles_monorep.Prelude.{
  ℕ, ◌+◌, String, true, none, some, List, [], ◌∷◌, ok, ◌≡◌, refl, arith,
}
use redstone_oracles_monorep.Prelude.Dict.{get, put, keys}
use redstone_oracles_monorep.Relayer.Config.{SignedDataPackage, DataPackagesResponse}
use redstone_oracles_monorep.Relayer.Naturals.{naturals}
use redstone_oracles_monorep.Sdk.Closest.{
  median_of_safe, get_median, get_all_values, all_medians, get_max_distance_from_median,
  with_distances, pick_data_feed_packages_closest_to_median,
}
use redstone_oracles_monorep.Mqtt.FeedState.{
  update, last_published_feed_state, is_newer_than_last_published, filter_out_not_newer_packages,
}
use redstone_oracles_monorep.Mqtt.Subscriber.State.{
  DataPackageSubscriber, DataPackageSubscriberParams, new_subscriber, initial_state,
}
use redstone_oracles_monorep.Mqtt.Subscriber.Publishing.{
  select_packages, prepare_packages_before_publish, clean_published_and_stale_packages,
  publish_packages,
}
use redstone_oracles_monorep.Mqtt.Subscriber.Receiving.{
  can_be_published_instantly, can_schedule_publish, publish_or_schedule, store_package,
  process_new_package,
}
use redstone_oracles_monorep.Mqtt.Subscriber.Events.{
  Event, payload, subscribed, received, timer_fired, handle_circuit_breaker, on_message, fire_timer,
  subscribe_to_topics, step, run,
}
use redstone_oracles_monorep.Mqtt.Subscriber.Fallback.{on_fallback_answer}
use redstone_oracles_monorep.Mqtt.Subscriber.Reaction.{Reaction}
use redstone_oracles_monorep.Mqtt.Subscriber.Contract.{Allowed}
use redstone_oracles_monorep.Mqtt.Subscriber.Refinement.{run-Allowed}
use redstone_oracles_monorep.Mqtt.Subscriber.Order.{IsDecreasing, published_times, run-IsDecreasing}
use redstone_oracles_monorep.Mqtt.Subscriber.Repeats.{on_fallback_answer-IsDecreasing}

abbrev two_feeds : DataPackageSubscriberParams
two_feeds = record {
  data_package_ids = "BTC" ∷ "ETH" ∷ [];
  unique_signers_count = 1;
  minimal_off_chain_signers_count = 1;
  wait_ms_for_other_signers = 100;
  ignore_missing_feeds = true;
  authorized_signers = "s1" ∷ "s2" ∷ [];
}

abbrev package_of : String → String → ℕ → ℕ → SignedDataPackage naturals
package_of id signer timestamp price = record {
  data_package_id = id;
  signer = some signer;
  timestamp = timestamp;
  data_points =
      record { data_feed_id = id; decimals = none; value = price; is_numeric = true } ∷ [];
}

abbrev message_of : String → String → ℕ → ℕ → Event naturals
message_of id signer timestamp price =
    received (payload (some (package_of id signer timestamp price))) (timestamp + 10)

-- The first package is published by its timer, those of the next time at once; a repeated package, an
-- unknown signer and an unknown feed change nothing.
abbrev some_events : List (Event naturals)
some_events =
    subscribed (ok tt)
    ∷ message_of "BTC" "s1" 500000 100
    ∷ timer_fired 0 500200
    ∷ message_of "BTC" "s1" 500000 100
    ∷ message_of "BTC" "s3" 510000 100
    ∷ message_of "SOL" "s1" 510000 100
    ∷ message_of "BTC" "s1" 510000 100
    ∷ message_of "BTC" "s2" 510000 300
    ∷ message_of "ETH" "s1" 510000 10
    ∷ message_of "ETH" "s2" 510000 20
    ∷ []

abbrev fresh_subscriber : DataPackageSubscriber naturals
fresh_subscriber = initial_state naturals two_feeds 200000

some_events-run :
    published_times naturals "BTC" (run naturals fresh_subscriber some_events).published
    ≡ 510000 ∷ 500000 ∷ []
unfolding step subscribe_to_topics on_message fire_timer handle_circuit_breaker process_new_package
    store_package publish_or_schedule can_be_published_instantly can_schedule_publish
    publish_packages prepare_packages_before_publish select_packages
    clean_published_and_stale_packages pick_data_feed_packages_closest_to_median with_distances
    get_max_distance_from_median all_medians get_all_values get_median median_of_safe
    filter_out_not_newer_packages is_newer_than_last_published update last_published_feed_state get
    put keys
some_events-run = refl

run-Allowed_example :
    Allowed naturals two_feeds
      (last_published_feed_state ("BTC" ∷ "ETH" ∷ []) 80000)
      (run naturals fresh_subscriber some_events).last_published_state
      (run naturals fresh_subscriber some_events).published
unfolding new_subscriber
run-Allowed_example = run-Allowed naturals two_feeds 200000 fresh_subscriber some_events refl

run-IsDecreasing_example :
    IsDecreasing
      (published_times naturals "BTC" (run naturals fresh_subscriber some_events).published)
unfolding new_subscriber
run-IsDecreasing_example =
    run-IsDecreasing naturals two_feeds 200000 fresh_subscriber some_events "BTC" refl

-- Both feeds were published at 510000.
abbrev published_once : DataPackageSubscriber naturals
published_once = record fresh_subscriber {
  has_callback = true;
  last_published_state = ("BTC", 510000) ∷ ("ETH", 510000) ∷ [];
  published =
      (("BTC", package_of "BTC" "s1" 510000 100 ∷ [])
        ∷ ("ETH", package_of "ETH" "s1" 510000 10 ∷ [])
        ∷ [])
      ∷ [];
}

-- The fallback has a new package of one feed only.
abbrev late_answer : DataPackagesResponse naturals
late_answer =
    ("ETH", package_of "ETH" "s2" 520000 11 ∷ [])
    ∷ ("BTC", package_of "BTC" "s2" 510000 101 ∷ [])
    ∷ []

on_fallback_answer-IsDecreasing_example : ¬ IsDecreasing (
    published_times naturals "BTC"
      (on_fallback_answer naturals published_once (ok late_answer)).0.published)
unfolding filter_out_not_newer_packages is_newer_than_last_published get
on_fallback_answer-IsDecreasing_example =
    on_fallback_answer-IsDecreasing naturals published_once late_answer
      ("ETH", package_of "ETH" "s2" 520000 11 ∷ []) [] 520000 "BTC"
      (package_of "BTC" "s2" 510000 101) [] 510000 [] refl refl refl refl refl (omega arith)

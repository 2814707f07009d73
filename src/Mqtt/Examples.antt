-- ===== src/Mqtt/Examples.antt =====
-- Subscriptions over several connections, and the theorems at concrete inputs.
use redstone_oracles_monorep.Prelude.{
  refl, ℕ, String, some, List, [], ◌∷◌, ◌≡◌, arith, filter, length, ltb,
}
use redstone_oracles_monorep.Prelude.Dict.{Dict}
use redstone_oracles_monorep.Mqtt.CircuitBreaker.{
  record_call, check_call, BreakerCall, run_calls, recorded, is_recent, should_break_circuit,
  should_break_circuit-recorded,
}
use redstone_oracles_monorep.Mqtt.FeedState.{LastPublishedFeedState, last_published_feed_state}
use redstone_oracles_monorep.Mqtt.PubSub.{MultiPubSubClient, subscribe_call, subscribe, unsubscribe}
use redstone_oracles_monorep.Mqtt.Replay.{IsConsistent}
use redstone_oracles_monorep.Mqtt.Subscriptions.{IsSubscribed, subscribe-IsSubscribed}
use redstone_oracles_monorep.Mqtt.Release.{IsReleased, unsubscribe-IsReleased}

-- Two connections of at most two topics, the second one with room for a topic.
abbrev two_connections : MultiPubSubClient
two_connections = record {
  client_to_topics =
      record { client = 0; topics = "a" ∷ "b" ∷ [] }
      ∷ record { client = 1; topics = "c" ∷ [] }
      ∷ [];
  publish_clients = [];
  created = 2;
  calls = subscribe_call 0 ("a" ∷ "b" ∷ []) ∷ subscribe_call 1 ("c" ∷ []) ∷ [];
}

two_connections-IsConsistent : IsConsistent two_connections
two_connections-IsConsistent client topic = ground arith

abbrev three_topics : List String
three_topics = "d" ∷ "e" ∷ "f" ∷ []

subscribe-IsSubscribed_example :
    (after : MultiPubSubClient) × (subscribe 2 two_connections three_topics ≡ some after)
    × IsSubscribed 2 two_connections three_topics after
subscribe-IsSubscribed_example =
    subscribe-IsSubscribed 2 two_connections three_topics (omega arith)
      (omega arith, (omega arith, tt))

unsubscribe-IsReleased_example :
    IsReleased 2 two_connections ("c" ∷ "a" ∷ []) (unsubscribe two_connections ("c" ∷ "a" ∷ []))
unsubscribe-IsReleased_example =
    unsubscribe-IsReleased 2 two_connections ("c" ∷ "a" ∷ []) (omega arith, (omega arith, tt))
      (refl, (refl, tt)) two_connections-IsConsistent

-- Two events, the first of which is old at the last check.
abbrev some_calls : List BreakerCall
some_calls = record_call 10 ∷ check_call 12 ∷ record_call 30 ∷ check_call 35 ∷ []

should_break_circuit-recorded_example :
    (should_break_circuit
      (run_calls (record { interval = 15; max_events_count = 1; events = [] }) some_calls)
      40).0
    ≡ ltb 1 (length (filter (is_recent 15 40) (recorded some_calls)))
should_break_circuit-recorded_example =
    should_break_circuit-recorded 15 1 some_calls 40
      (omega arith, (omega arith, (omega arith, (omega arith, tt))))

abbrev two_published : LastPublishedFeedState
two_published = last_published_feed_state ("ETH" ∷ "BTC" ∷ []) 1000

abbrev eth_response : Dict (List ℕ)
eth_response = ("ETH", 2000 ∷ 2000 ∷ []) ∷ []

-- ===== src/Mqtt/Subscriptions.antt =====
-- Subscribing: the bound of a connection, the topics in the connections, and the calls.
use redstone_oracles_monorep.Prelude.{
  ℕ, zero, suc, ◌+◌, ◌<◌, ◌≤◌, String, true, some, List, ◌≡◌, refl, ◌∙◌, arith, Bool-cases, inl,
  inr,
}
use redstone_oracles_monorep.Mqtt.PubSub.{
  MultiPubSubClient, is_nil, has_free, fill, add_connection, with_filled, subscribe_rounds, rounds,
  subscribe,
}
use redstone_oracles_monorep.Mqtt.Replay.{
  count-is_nil, after_calls, on_client, after_calls-append, fill_replays, fill_keeps,
}
use redstone_oracles_monorep.Mqtt.Fill.{
  count, count_all, IsBounded, fill-count, fill-IsBounded, fill_progress,
}
use redstone_oracles_monorep.Mqtt.Opening.{
  add_connection-IsBounded, add_connection-count, add_connection-on_client, add_connection-has_free,
  needed, needed_le, is_nil-length, round_full, round_done, round_again,
}

-- What subscribing leaves: no connection has more topics than the limit, every topic stands as often
-- as before and in the topics asked for together, no client loses a topic, and what the calls of
-- each client add to its topics is what its connections gain.
pub record IsSubscribed (limit : ℕ) (before : MultiPubSubClient) (topics : List String)
    (after : MultiPubSubClient) : Type 0 where
  pub bounded : IsBounded limit after.client_to_topics
  pub counted :
      (topic : String)
      → count_all topic after.client_to_topics
        ≡ count_all topic before.client_to_topics + count topic topics
  pub kept :
      (client : ℕ) (topic : String)
      → on_client client topic before.client_to_topics
        ≤ on_client client topic after.client_to_topics
  pub replayed :
      (client : ℕ) (topic : String)
      → after_calls client topic 0 after.calls + on_client client topic before.client_to_topics
        ≡ after_calls client topic 0 before.calls + on_client client topic after.client_to_topics

-- The first step of a round that fills connections, and then the other rounds.
with_filled-replays :
    (limit : ℕ) (m : MultiPubSubClient) (topics : List String) (client : ℕ) (topic : String)
    → after_calls client topic 0 (with_filled m (fill limit m.client_to_topics topics)).calls
        + on_client client topic m.client_to_topics
      ≡ after_calls client topic 0 m.calls
        + on_client client topic (fill limit m.client_to_topics topics).connections
with_filled-replays limit m topics client topic =
    rw (after_calls-append client topic 0 m.calls (fill limit m.client_to_topics topics).calls) (
      fill_replays limit m.client_to_topics topics client topic
        (after_calls client topic 0 m.calls))

filled-IsSubscribed :
    (limit : ℕ) (m after : MultiPubSubClient) (topics : List String)
    → IsSubscribed limit
        (with_filled m (fill limit m.client_to_topics topics))
        (fill limit m.client_to_topics topics).rest
        after
    → IsSubscribed limit m topics after
filled-IsSubscribed limit m after topics s = record {
  bounded = s.bounded;
  counted =
      λ topic. omega (arith, s.counted topic, fill-count limit m.client_to_topics topics topic);
  kept = λ client topic.
      omega (arith, s.kept client topic, fill_keeps limit m.client_to_topics topics client topic);
  replayed = λ client topic.
      omega (arith, s.replayed client topic, with_filled-replays limit m topics client topic);
}

done-IsSubscribed :
    (limit : ℕ) (m : MultiPubSubClient) (topics : List String)
    → is_nil topics ≡ true
    → IsBounded limit m.client_to_topics
    → IsSubscribed limit m topics m
done-IsSubscribed limit m topics done bounded = record {
  bounded = bounded;
  counted = λ topic. omega (arith, count-is_nil topic topics done);
  kept = λ client topic. omega arith;
  replayed = λ client topic. refl;
}

opened-IsSubscribed :
    (limit : ℕ) (m after : MultiPubSubClient) (topics : List String)
    → IsSubscribed limit (add_connection m) topics after
    → IsSubscribed limit m topics after
opened-IsSubscribed limit m after topics s = record {
  bounded = s.bounded;
  counted = λ topic.
      omega (arith, s.counted topic, add_connection-count m.client_to_topics m.created topic);
  kept = λ client topic. omega (
    arith,
    s.kept client topic,
    add_connection-on_client m.client_to_topics m.created client topic,
  );
  replayed = λ client topic. omega (
    arith,
    s.replayed client topic,
    add_connection-on_client m.client_to_topics m.created client topic,
  );
}

subscribe_rounds-IsSubscribed :
    (limit fuel : ℕ) (m : MultiPubSubClient) (topics : List String)
    → 0 < limit
    → IsBounded limit m.client_to_topics
    → needed (has_free limit m.client_to_topics) topics ≤ fuel
    → (after : MultiPubSubClient) × (subscribe_rounds limit fuel m topics ≡ some after)
      × IsSubscribed limit m topics after
subscribe_rounds-IsSubscribed limit zero m topics pos h enough =
    absurd (elim (Bool-cases (has_free limit m.client_to_topics)) [
      | inl free ↦ let k = rw free at enough in omega (arith, k)
      | inr full ↦ let k = rw full at enough in omega (arith, k)
    ])
subscribe_rounds-IsSubscribed limit (suc fuel) m topics pos h enough =
    let f = fill limit m.client_to_topics topics in
    let bounded = fill-IsBounded limit m.client_to_topics topics h in
    elim (Bool-cases (has_free limit m.client_to_topics)) [
      | inl free ↦ elim (Bool-cases (is_nil f.rest)) [
        | inl done ↦ (
          with_filled m f,
          round_done limit fuel m topics free done,
          filled-IsSubscribed limit m (with_filled m f) topics
              (done-IsSubscribed limit (with_filled m f) f.rest done bounded),
        )
        | inr more ↦
            let k = rw free at enough in
            let shorter = fill_progress limit m.client_to_topics topics free in
            let nonempty = is_nil-length f.rest more in
            let (after, e, s) =
              subscribe_rounds-IsSubscribed limit fuel (with_filled m f) f.rest pos bounded (
                omega
                  (arith, needed_le (has_free limit f.connections) f.rest, k, shorter, nonempty)) in
            (
              after,
              round_again limit fuel m topics free more ∙ e,
              filled-IsSubscribed limit m after topics s,
            )
      ]
      | inr full ↦
          let k = rw full at enough in
          let opened = add_connection-has_free limit m.client_to_topics m.created pos in
          let (after, e, s) =
            subscribe_rounds-IsSubscribed limit fuel (add_connection m) topics pos
              (add_connection-IsBounded limit m.client_to_topics m.created h)
              (rw opened (omega (arith, k))) in
          (
            after,
            round_full limit fuel m topics full ∙ e,
            opened-IsSubscribed limit m after topics s,
          )
    ]

-- With a positive limit that no connection exceeds, subscribing comes to an end (the rounds are
-- enough), no connection exceeds the limit then, every topic stands in the connections as often as
-- before and among the topics asked for together, and no client has lost a topic. The calls are
-- those that the connections show: replayed, they add to the topics of each client exactly what its
-- connections have gained.
pub subscribe-IsSubscribed :
    (limit : ℕ) (m : MultiPubSubClient) (topics : List String)
    → 0 < limit
    → IsBounded limit m.client_to_topics
    → (after : MultiPubSubClient) × (subscribe limit m topics ≡ some after)
      × IsSubscribed limit m topics after
unfolding subscribe
subscribe-IsSubscribed limit m topics pos h =
    subscribe_rounds-IsSubscribed limit (rounds topics) m topics pos h
      (needed_le (has_free limit m.client_to_topics) topics)

-- ===== src/Mqtt/Release.antt =====
-- Unsubscribing: the topics that stay, and the connections that are given up.
use redstone_oracles_monorep.Prelude.{
  ℕ, ◌<◌, ◌≤◌, String, List, [], ◌∷◌, if◌then◌else◌, All, length, ◌≡◌, ap, ◌∙◌, not, ◌&&◌, ◌||◌,
  arith,
}
use redstone_oracles_monorep.Mqtt.PubSub.{
  Connection, MultiPubSubClient, Call, includes, remaining, keep_or_stop, release, unsubscribe,
}
use redstone_oracles_monorep.Mqtt.Replay.{
  after_calls, after_calls-append, is_stopped, is_stopped-append, on_client, has_client,
  IsConsistent, HasDistinctClients,
}
use redstone_oracles_monorep.Mqtt.ReleaseCalls.{remaining-count}
use redstone_oracles_monorep.Mqtt.ReleaseReplay.{release_keeps, release_replays, release_stops}
use redstone_oracles_monorep.Mqtt.Fill.{count, count_all, IsBounded}

-- What unsubscribing leaves in the connections: only ones with a topic, none with more than the
-- limit, and for every topic as many as before, or none if it is given.
record IsRemaining (limit : ℕ) (before : List Connection) (topics : List String)
    (after : List Connection) : Type 0 where
  bounded : IsBounded limit after
  used : All (λ c. 0 < length c.topics) after
  counted :
      (topic : String)
      → count_all topic after ≡ (if includes topics topic then 0 else count_all topic before)

-- What unsubscribing leaves: such connections, each client with the topics it had that are not given
-- and subscribed by its calls to just those, and stopped if it had a connection and has none now.
pub record IsReleased (limit : ℕ) (before : MultiPubSubClient) (topics : List String)
    (after : MultiPubSubClient) : Type 0 where
  pub bounded : IsBounded limit after.client_to_topics
  pub used : All (λ c. 0 < length c.topics) after.client_to_topics
  pub counted :
      (topic : String)
      → count_all topic after.client_to_topics
        ≡ (if includes topics topic then 0 else count_all topic before.client_to_topics)
  pub kept :
      (client : ℕ) (topic : String)
      → on_client client topic after.client_to_topics
        ≡ (if includes topics topic then 0 else on_client client topic before.client_to_topics)
  pub consistent : IsConsistent after
  pub stopped :
      (client : ℕ)
      → is_stopped client after.calls ≡ (
          is_stopped client before.calls
          || (has_client client before.client_to_topics
              && not (has_client client after.client_to_topics)))

length-remaining :
    (topics assigned : List String) → length (remaining topics assigned) ≤ length assigned
length-remaining topics [] = omega arith
length-remaining topics (t ∷ assigned) = ground (arith, length-remaining topics assigned)

-- The step for one connection, given the topics that it keeps.
keep_or_stop-IsRemaining :
    (limit client : ℕ) (kept : List String) (assigned : List String) (topics : List String)
    (before : List Connection) (rest : List Connection × List Call)
    → ((topic : String)
        → count topic kept ≡ (if includes topics topic then 0 else count topic assigned))
    → length kept ≤ limit
    → IsRemaining limit before topics rest.0
    → IsRemaining limit
        (record { client = client; topics = assigned } ∷ before)
        topics
        (keep_or_stop client kept rest).0
keep_or_stop-IsRemaining limit client [] assigned topics before (rest, calls) counts short r =
    record {
      bounded = r.bounded;
      used = r.used;
      counted = λ topic. ground (arith, counts topic, r.counted topic);
    }
keep_or_stop-IsRemaining limit client (t ∷ kept) assigned topics before (rest, calls) counts short
      r =
    record {
      bounded = (short, r.bounded);
      used = (omega arith, r.used);
      counted = λ topic. ground (arith, counts topic, r.counted topic);
    }

release-IsRemaining :
    (limit : ℕ) (topics : List String) (connections : List Connection)
    → IsBounded limit connections
    → IsRemaining limit connections topics (release topics connections).0
unfolding release
release-IsRemaining limit topics [] h = record {
  bounded = tt;
  used = tt;
  counted = λ topic. ground arith;
}
release-IsRemaining limit topics (c ∷ connections) h =
    keep_or_stop-IsRemaining limit c.client (remaining topics c.topics) c.topics topics connections
      (release topics connections) (remaining-count topics c.topics)
      (omega (arith, h.0, length-remaining topics c.topics))
      (release-IsRemaining limit topics connections h.1)

-- Where the calls so far, replayed, leave each client subscribed to what its connection says, and no
-- client has two connections: unsubscribing leaves none of the given topics in any connection, every
-- other topic as often as before and on its own client, only connections that have a topic, and none
-- with more topics than the limit, if none had more before. The calls, replayed, still leave each
-- client subscribed to what its connection says, and stop exactly the clients whose connection is
-- given up.
pub unsubscribe-IsReleased :
    (limit : ℕ) (m : MultiPubSubClient) (topics : List String)
    → IsBounded limit m.client_to_topics
    → HasDistinctClients m.client_to_topics
    → IsConsistent m
    → IsReleased limit m topics (unsubscribe m topics)
unfolding unsubscribe
unsubscribe-IsReleased limit m topics h distinct consistent =
    let left = release topics m.client_to_topics in
    let remains = release-IsRemaining limit topics m.client_to_topics h in
    record {
      bounded = remains.bounded;
      used = remains.used;
      counted = remains.counted;
      kept = release_keeps topics m.client_to_topics;
      consistent = λ client topic.
          after_calls-append client topic 0 m.calls left.1
          ∙ ap (λ n. after_calls client topic n left.1) (consistent client topic)
          ∙ release_replays topics m.client_to_topics client topic distinct;
      stopped = λ client.
          is_stopped-append client m.calls left.1
          ∙ ap (λ b. is_stopped client m.calls || b)
              (release_stops topics m.client_to_topics client distinct);
    }

-- ===== src/Mqtt/Replay.antt =====
-- MultiPubSubClient.ts: what the clients are left with after the calls that the wrapper made of them.
use redstone_oracles_monorep.Prelude.{
  true, ℕ, ◌+◌, ◌-◌, ◌≤◌, ◌==◌, length, take, drop, ltb, String, Bool, false, ◌||◌, List, [], ◌∷◌,
  ◌++◌, if◌then◌else◌, any, ◌≡◌, refl, arith, Bool-cases, inl, inr,
}
use redstone_oracles_monorep.Mqtt.PubSub.{
  is_nil, Connection, MultiPubSubClient, Call, fill, subscribe_call, unsubscribe_call, stop_call,
  publish_call, includes, subscribe_calls, unsubscribe_calls,
}
use redstone_oracles_monorep.Mqtt.Fill.{count, count-append}

-- How often a client is subscribed to a topic after a call: unsubscribing from a topic and stopping
-- the client end all its subscriptions.
abbrev pub after_call : ℕ → String → ℕ → Call → ℕ
after_call client topic n (subscribe_call c topics) =
    if c == client then n + count topic topics else n
after_call client topic n (unsubscribe_call c topics) =
    if c == client then (if includes topics topic then 0 else n) else n
after_call client topic n (stop_call c) = if c == client then 0 else n
after_call client topic n (publish_call c payloads) = n

abbrev pub after_calls : ℕ → String → ℕ → List Call → ℕ
after_calls client topic n [] = n
after_calls client topic n (call ∷ calls) =
    after_calls client topic (after_call client topic n call) calls

abbrev pub is_stop : ℕ → Call → Bool
is_stop client (subscribe_call c topics) = false
is_stop client (unsubscribe_call c topics) = false
is_stop client (stop_call c) = c == client
is_stop client (publish_call c payloads) = false

abbrev pub is_stopped : ℕ → List Call → Bool
is_stopped client calls = any (is_stop client) calls

-- How often a topic stands in the connections of a client, and whether the client has one.
abbrev pub on_client : ℕ → String → List Connection → ℕ
on_client client topic [] = 0
on_client client topic (c ∷ connections) =
    (if c.client == client then count topic c.topics else 0) + on_client client topic connections

abbrev pub has_client : ℕ → List Connection → Bool
has_client client connections = any (λ c. c.client == client) connections

-- The clients are subscribed by their calls to what the connections say.
abbrev pub IsConsistent : MultiPubSubClient → Type 0
IsConsistent m =
    (client : ℕ) (topic : String)
    → after_calls client topic 0 m.calls ≡ on_client client topic m.client_to_topics

-- No two connections have the same client.
abbrev pub HasDistinctClients : List Connection → Type 0
HasDistinctClients [] = Unit
HasDistinctClients (c ∷ connections) =
    (has_client c.client connections ≡ false) × HasDistinctClients connections

pub after_calls-append :
    (client : ℕ) (topic : String) (n : ℕ) (xs ys : List Call)
    → after_calls client topic n (xs ++ ys)
      ≡ after_calls client topic (after_calls client topic n xs) ys
after_calls-append client topic n [] ys = refl
after_calls-append client topic n (call ∷ xs) ys =
    after_calls-append client topic (after_call client topic n call) xs ys

pub is_stopped-append :
    (client : ℕ) (xs ys : List Call)
    → is_stopped client (xs ++ ys) ≡ (is_stopped client xs || is_stopped client ys)
is_stopped-append client [] ys = refl
is_stopped-append client (call ∷ xs) ys = ground (arith, is_stopped-append client xs ys)

pub after_calls-subscribe_calls :
    (client c : ℕ) (topic : String) (n : ℕ) (topics : List String)
    → after_calls client topic n (subscribe_calls c topics)
      ≡ n + (if c == client then count topic topics else 0)
after_calls-subscribe_calls client c topic n [] = ground arith
after_calls-subscribe_calls client c topic n (t ∷ topics) = ground arith

pub after_calls-unsubscribe_calls :
    (client c : ℕ) (topic : String) (n : ℕ) (topics : List String)
    → after_calls client topic n (unsubscribe_calls c topics)
      ≡ (if c == client then (if includes topics topic then 0 else n) else n)
after_calls-unsubscribe_calls client c topic n [] = ground arith
after_calls-unsubscribe_calls client c topic n (t ∷ topics) = refl

pub is_stopped-unsubscribe_calls :
    (client c : ℕ) (topics : List String) → is_stopped client (unsubscribe_calls c topics) ≡ false
is_stopped-unsubscribe_calls client c [] = refl
is_stopped-unsubscribe_calls client c (t ∷ topics) = refl

-- A client without a connection has no topics.
pub on_client-has_client :
    (client : ℕ) (topic : String) (connections : List Connection)
    → has_client client connections ≡ false
    → on_client client topic connections ≡ 0
on_client-has_client client topic [] h = refl
on_client-has_client client topic (c ∷ connections) h =
    ground (arith, h, on_client-has_client client topic connections)

pub count-is_nil :
    (topic : String) (topics : List String) → is_nil topics ≡ true → count topic topics ≡ 0
count-is_nil topic [] h = refl
count-is_nil topic (t ∷ topics) h = cc

-- A pass over the free connections subscribes each client to the topics that its connection gets.
pub fill_replays :
    (limit : ℕ) (connections : List Connection) (topics : List String) (client : ℕ) (topic : String)
    (n : ℕ)
    → after_calls client topic n (fill limit connections topics).calls
        + on_client client topic connections
      ≡ n + on_client client topic (fill limit connections topics).connections
unfolding fill
fill_replays limit [] topics client topic n = refl
fill_replays limit (c ∷ connections) topics client topic n =
    let added = take (limit - length c.topics) topics in
    let left = drop (limit - length c.topics) topics in
    let rest = fill limit connections left in
    elim (Bool-cases (ltb (length c.topics) limit)) [
      | inl free ↦ rw free (
          ground (
            arith,
            after_calls-append client topic n (subscribe_calls c.client added) rest.calls,
            after_calls-subscribe_calls client c.client topic n added,
            count-append topic c.topics added,
            fill_replays limit connections left client topic
                (after_calls client topic n (subscribe_calls c.client added)),
          ))
      | inr full ↦ rw full (omega (arith, fill_replays limit connections topics client topic n))
    ]

-- No client loses a topic in the pass.
pub fill_keeps :
    (limit : ℕ) (connections : List Connection) (topics : List String) (client : ℕ) (topic : String)
    → on_client client topic connections
      ≤ on_client client topic (fill limit connections topics).connections
unfolding fill
fill_keeps limit [] topics client topic = omega arith
fill_keeps limit (c ∷ connections) topics client topic =
    let added = take (limit - length c.topics) topics in
    let left = drop (limit - length c.topics) topics in
    elim (Bool-cases (ltb (length c.topics) limit)) [
      | inl free ↦ rw free (
          ground (
            arith,
            count-append topic c.topics added,
            fill_keeps limit connections left client topic,
          ))
      | inr full ↦ rw full (omega (arith, fill_keeps limit connections topics client topic))
    ]

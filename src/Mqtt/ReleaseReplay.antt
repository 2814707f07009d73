-- ===== src/Mqtt/ReleaseReplay.antt =====
-- Unsubscribing: what all its calls leave to each client.
use redstone_oracles_monorep.Prelude.{
  ℕ, ◌==◌, String, false, not, ◌&&◌, List, [], ◌∷◌, if◌then◌else◌, ◌≡◌, refl, arith, Bool-cases,
  inl, inr,
}
use redstone_oracles_monorep.Mqtt.PubSub.{
  Connection, includes, matched, remaining, unsubscribe_calls, keep_or_stop, release,
}
use redstone_oracles_monorep.Mqtt.Fill.{count}
use redstone_oracles_monorep.Mqtt.Replay.{
  after_calls, is_stopped, is_stopped-append, is_stopped-unsubscribe_calls, on_client,
  on_client-has_client, has_client, HasDistinctClients,
}
use redstone_oracles_monorep.Mqtt.ReleaseCalls.{
  remaining-count, own_topics, release_first, release_skips, on_client-keep_or_stop,
  has_client-keep_or_stop, is_stopped-keep_or_stop,
}

-- With one connection for each client: a client with the topics of its connection is left with those
-- of the connection that it keeps.
pub release_replays :
    (topics : List String) (connections : List Connection) (client : ℕ) (topic : String)
    → HasDistinctClients connections
    → after_calls client topic (on_client client topic connections) (release topics connections).1
      ≡ on_client client topic (release topics connections).0
unfolding release
release_replays topics [] client topic distinct = refl
release_replays topics (c ∷ connections) client topic distinct =
    let kept = remaining topics c.topics in
    let rest = release topics connections in
    let first = release_first topics c connections client topic in
    let shown = on_client-keep_or_stop client c.client topic kept rest in
    let others = release_replays topics connections client topic distinct.1 in
    elim (Bool-cases (c.client == client)) [
      | inl same ↦
          let e : c.client ≡ client = ground (arith, same) in
          let alone : has_client client connections ≡ false = rw (← e) distinct.0 in
          ground (
            arith,
            same,
            first (on_client client topic (c ∷ connections)),
            shown,
            others,
            on_client-has_client client topic connections alone,
            release_skips topics connections client topic 0 alone,
            release_skips topics connections client topic (count topic kept) alone,
            own_topics topics c.topics topic,
          )
      | inr differs ↦
          ground (arith, differs, first (on_client client topic (c ∷ connections)), shown, others)
    ]

-- A client's connections keep the topics that are not given.
pub release_keeps :
    (topics : List String) (connections : List Connection) (client : ℕ) (topic : String)
    → on_client client topic (release topics connections).0
      ≡ (if includes topics topic then 0 else on_client client topic connections)
unfolding release
release_keeps topics [] client topic = ground arith
release_keeps topics (c ∷ connections) client topic = ground (
  arith,
  on_client-keep_or_stop client c.client topic (remaining topics c.topics)
      (release topics connections),
  remaining-count topics c.topics topic,
  release_keeps topics connections client topic,
)

release_adds_no_client :
    (topics : List String) (connections : List Connection) (client : ℕ)
    → has_client client connections ≡ false
    → has_client client (release topics connections).0 ≡ false
unfolding release
release_adds_no_client topics [] client h = refl
release_adds_no_client topics (c ∷ connections) client h = ground (
  arith,
  h,
  has_client-keep_or_stop client c.client (remaining topics c.topics) (release topics connections),
  release_adds_no_client topics connections client,
)

-- With one connection for each client: those clients are stopped that had one and have none now.
pub release_stops :
    (topics : List String) (connections : List Connection) (client : ℕ)
    → HasDistinctClients connections
    → is_stopped client (release topics connections).1
      ≡ (has_client client connections && not (has_client client (release topics connections).0))
unfolding release
release_stops topics [] client distinct = refl
release_stops topics (c ∷ connections) client distinct =
    let own = matched topics c.topics in
    let kept = remaining topics c.topics in
    let rest = release topics connections in
    let calls =
      is_stopped-append client (unsubscribe_calls c.client own)
        (keep_or_stop c.client kept rest).1 in
    let quiet = is_stopped-unsubscribe_calls client c.client own in
    let stops = is_stopped-keep_or_stop client c.client kept rest in
    let stays = has_client-keep_or_stop client c.client kept rest in
    let others = release_stops topics connections client distinct.1 in
    elim (Bool-cases (c.client == client)) [
      | inl same ↦
          let e : c.client ≡ client = ground (arith, same) in
          let alone : has_client client connections ≡ false = rw (← e) distinct.0 in
          ground (
            arith,
            same,
            calls,
            quiet,
            stops,
            stays,
            others,
            alone,
            release_adds_no_client topics connections client alone,
          )
      | inr differs ↦ ground (arith, differs, calls, quiet, stops, stays, others)
    ]

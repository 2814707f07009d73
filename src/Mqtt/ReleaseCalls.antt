-- ===== src/Mqtt/ReleaseCalls.antt =====
-- Unsubscribing: the calls it makes for each connection.
use redstone_oracles_monorep.Prelude.{
  ℕ, ◌+◌, ◌==◌, String, false, not, ◌&&◌, ◌||◌, List, [], ◌∷◌, if◌then◌else◌, str_eq, ◌≡◌, refl,
  arith, eq_iff, Bool-cases, inl, inr,
}
use redstone_oracles_monorep.Mqtt.PubSub.{
  Connection, Call, is_nil, includes, matched, remaining, unsubscribe_calls, keep_or_stop, release,
}
use redstone_oracles_monorep.Mqtt.Fill.{count}
use redstone_oracles_monorep.Mqtt.Replay.{
  count-is_nil, after_calls, after_calls-append, after_calls-unsubscribe_calls, is_stopped,
  on_client, has_client,
}

pub remaining-count :
    (topics assigned : List String) (topic : String)
    → count topic (remaining topics assigned)
      ≡ (if includes topics topic then 0 else count topic assigned)
remaining-count topics [] topic = ground arith
remaining-count topics (t ∷ assigned) topic = elim (Bool-cases (str_eq t topic)) [
  | inl same ↦
      let t≡topic : t ≡ topic = ground (arith, eq_iff t topic) in
      rw t≡topic (ground (arith, remaining-count topics assigned topic, eq_iff topic topic))
  | inr other ↦ ground (arith, remaining-count topics assigned topic)
]

matched-includes :
    (topics assigned : List String) (topic : String)
    → includes (matched topics assigned) topic ≡ (includes topics topic && includes assigned topic)
matched-includes topics [] topic = ground arith
matched-includes topics (t ∷ assigned) topic = elim (Bool-cases (str_eq t topic)) [
  | inl same ↦
      let t≡topic : t ≡ topic = ground (arith, eq_iff t topic) in
      rw t≡topic (ground (arith, matched-includes topics assigned topic, eq_iff topic topic))
  | inr other ↦ ground (arith, matched-includes topics assigned topic)
]

count-includes :
    (assigned : List String) (topic : String)
    → includes assigned topic ≡ false
    → count topic assigned ≡ 0
count-includes [] topic h = refl
count-includes (t ∷ assigned) topic h = ground (arith, h, count-includes assigned topic)

-- What the calls for one connection leave of a topic is what the connection keeps.
pub own_topics :
    (topics assigned : List String) (topic : String)
    → (if is_nil (remaining topics assigned)
        then 0
        else (if includes (matched topics assigned) topic then 0 else count topic assigned))
      ≡ count topic (remaining topics assigned)
own_topics topics assigned topic = ground (
  arith,
  count-is_nil topic (remaining topics assigned),
  remaining-count topics assigned topic,
  matched-includes topics assigned topic,
  count-includes assigned topic,
)

module _ (client c : ℕ) where
  after_calls-keep_or_stop :
      (topic : String) (n : ℕ) (kept : List String) (rest : List Connection × List Call)
      → after_calls client topic n (keep_or_stop c kept rest).1
        ≡ after_calls client topic
            (if c == client then (if is_nil kept then 0 else n) else n)
            rest.1
  after_calls-keep_or_stop topic n [] (connections, calls) = refl
  after_calls-keep_or_stop topic n (t ∷ kept) (connections, calls) = ground arith

  pub on_client-keep_or_stop :
      (topic : String) (kept : List String) (rest : List Connection × List Call)
      → on_client client topic (keep_or_stop c kept rest).0
        ≡ (if c == client then count topic kept else 0) + on_client client topic rest.0
  on_client-keep_or_stop topic [] (connections, calls) = ground arith
  on_client-keep_or_stop topic (t ∷ kept) (connections, calls) = refl

  pub has_client-keep_or_stop :
      (kept : List String) (rest : List Connection × List Call)
      → has_client client (keep_or_stop c kept rest).0
        ≡ (((c == client) && not (is_nil kept)) || has_client client rest.0)
  has_client-keep_or_stop [] (connections, calls) = ground arith
  has_client-keep_or_stop (t ∷ kept) (connections, calls) = ground arith

  pub is_stopped-keep_or_stop :
      (kept : List String) (rest : List Connection × List Call)
      → is_stopped client (keep_or_stop c kept rest).1
        ≡ (((c == client) && is_nil kept) || is_stopped client rest.1)
  is_stopped-keep_or_stop [] (connections, calls) = ground arith
  is_stopped-keep_or_stop (t ∷ kept) (connections, calls) = ground arith

-- The calls for the first connection, and then those for the others.
pub release_first :
    (topics : List String) (c : Connection) (connections : List Connection) (client : ℕ)
    (topic : String) (n : ℕ)
    → after_calls client topic n (release topics (c ∷ connections)).1
      ≡ after_calls client topic
          (if c.client == client
            then (if is_nil (remaining topics c.topics)
                then 0
                else (if includes (matched topics c.topics) topic then 0 else n))
            else n)
          (release topics connections).1
unfolding release
release_first topics c connections client topic n =
    let own = matched topics c.topics in
    let kept = remaining topics c.topics in
    let rest = release topics connections in
    ground (
      arith,
      after_calls-append client topic n (unsubscribe_calls c.client own)
          (keep_or_stop c.client kept rest).1,
      after_calls-unsubscribe_calls client c.client topic n own,
      after_calls-keep_or_stop client c.client topic
          (after_calls client topic n (unsubscribe_calls c.client own)) kept rest,
    )

-- A client without a connection is left alone.
pub release_skips :
    (topics : List String) (connections : List Connection) (client : ℕ) (topic : String) (n : ℕ)
    → has_client client connections ≡ false
    → after_calls client topic n (release topics connections).1 ≡ n
unfolding release
release_skips topics [] client topic n h = refl
release_skips topics (c ∷ connections) client topic n h = ground (
  arith,
  h,
  release_first topics c connections client topic n,
  release_skips topics connections client topic n,
)

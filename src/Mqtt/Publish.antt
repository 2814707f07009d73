-- ===== src/Mqtt/Publish.antt =====
-- MultiPubSubClient.ts: publishing over as many clients as the rate limit of one asks for, and
-- stopping. lodash's `chunk` is a parameter.
use redstone_oracles_monorep.Prelude.{
  ℕ, zero, suc, ◌+◌, ◌-◌, ◌/◌, ◌≤◌, List, [], ◌∷◌, ◌++◌, Result, ok, err, ◌>>=◌, All, length,
  length-append, ◌≡◌, refl, ap, ◌∙◌, arith,
}
use redstone_oracles_monorep.Mqtt.PubSub.{
  Connection, MultiPubSubClient, PubSubPayload, Call, publish_call, stop_call, subscribe_call,
  unsubscribe_call,
}

pub data PublishError : Type 0 where
  type_error : PublishError

abbrev pub max_req_per_second : ℕ
max_req_per_second = 100

-- The numbers of clients made one after the other.
abbrev pub fresh_clients : ℕ → ℕ → List ℕ
fresh_clients zero created = []
fresh_clients (suc n) created = created ∷ fresh_clients n (suc created)

-- `this.publishClients[index].publish(chunk, contentType)`, from index 0 on
abbrev pub publish_chunks : List ℕ → List (List PubSubPayload) → Result PublishError (List Call)
publish_chunks clients [] = ok []
publish_chunks [] (chunk ∷ chunks) = err type_error
publish_chunks (client ∷ clients) (chunk ∷ chunks) =
    publish_chunks clients chunks >>= λ calls. ok (publish_call client chunk ∷ calls)

-- `stop`
abbrev pub stop_connections : List Connection → List Call
stop_connections [] = []
stop_connections (c ∷ connections) = stop_call c.client ∷ stop_connections connections

abbrev pub stop_clients : List ℕ → List Call
stop_clients [] = []
stop_clients (client ∷ clients) = stop_call client ∷ stop_clients clients

unfoldable pub stop : MultiPubSubClient → MultiPubSubClient
stop m = record m {
  client_to_topics = [];
  publish_clients = [];
  calls = m.calls ++ (stop_connections m.client_to_topics ++ stop_clients m.publish_clients);
}

abbrev pub join : List (List PubSubPayload) → List PubSubPayload
join [] = []
join (chunk ∷ chunks) = chunk ++ join chunks

-- What `chunk` is documented to do, for the size that it is called with.
pub record IsChunk (chunk : List PubSubPayload → ℕ → List (List PubSubPayload)) : Type 0 where
  pub joined : (xs : List PubSubPayload) → join (chunk xs max_req_per_second) ≡ xs
  pub counted :
      (xs : List PubSubPayload)
      → length (chunk xs max_req_per_second)
        ≡ (length xs + (max_req_per_second - 1)) / max_req_per_second
  pub bounded :
      (xs : List PubSubPayload)
      → All (λ c. length c ≤ max_req_per_second) (chunk xs max_req_per_second)

module _ (chunk : List PubSubPayload → ℕ → List (List PubSubPayload)) where
  abbrev pub with_clients : MultiPubSubClient → ℕ → MultiPubSubClient
  with_clients m missing = record m {
    publish_clients = m.publish_clients ++ fresh_clients missing m.created;
    created = m.created + missing;
  }

  -- `Math.ceil(payloads.length / MAX)` and what is missing of it; the loop makes no client if that is
  -- negative.
  abbrev pub missing_clients : MultiPubSubClient → List PubSubPayload → ℕ
  missing_clients m payloads =
      (length payloads + (max_req_per_second - 1)) / max_req_per_second - length m.publish_clients

  unfoldable pub publish :
      MultiPubSubClient → List PubSubPayload → Result PublishError MultiPubSubClient
  publish m payloads = do
    let ready = with_clients m (missing_clients m payloads)
    sent ← publish_chunks ready.publish_clients (chunk payloads max_req_per_second)
    ok (record ready { calls = ready.calls ++ sent })

-- The payloads of the calls.
abbrev pub published : List Call → List PubSubPayload
published [] = []
published (publish_call client payloads ∷ calls) = payloads ++ published calls
published (subscribe_call client topics ∷ calls) = published calls
published (unsubscribe_call client topics ∷ calls) = published calls
published (stop_call client ∷ calls) = published calls

abbrev pub IsWithinRate : Call → Type 0
IsWithinRate (publish_call client payloads) = length payloads ≤ max_req_per_second
IsWithinRate _ = Unit

-- What publishing leaves: after the calls made before, calls that publish the given payloads, in
-- their order, and none more than a client may publish in a second.
pub record IsPublished (before : MultiPubSubClient) (payloads : List PubSubPayload)
    (after : MultiPubSubClient) : Type 0 where
  pub sent : List Call
  pub appended : after.calls ≡ before.calls ++ sent
  pub complete : published sent ≡ payloads
  pub within : All IsWithinRate sent

length-fresh_clients : (n created : ℕ) → length (fresh_clients n created) ≡ n
length-fresh_clients zero created = refl
length-fresh_clients (suc n) created = ap suc (length-fresh_clients n (suc created))

publish_chunks-sent :
    (clients : List ℕ) (chunks : List (List PubSubPayload))
    → length chunks ≤ length clients
    → All (λ c. length c ≤ max_req_per_second) chunks
    → (sent : List Call) × (publish_chunks clients chunks ≡ ok sent)
      × (published sent ≡ join chunks)
      × All IsWithinRate sent
publish_chunks-sent clients [] enough small = ([], refl, refl, tt)
publish_chunks-sent [] (chunk ∷ chunks) enough small = absurd (omega arith)
publish_chunks-sent (client ∷ clients) (chunk ∷ chunks) enough small =
    let (sent, e, whole, within) = publish_chunks-sent clients chunks (omega arith) small.1 in
    (
      publish_call client chunk ∷ sent,
      ap (λ r. r >>= λ calls. ok (publish_call client chunk ∷ calls)) e,
      ap (λ payloads. chunk ++ payloads) whole,
      (small.0, within),
    )

module _ (chunk : List PubSubPayload → ℕ → List (List PubSubPayload)) (laws : IsChunk chunk) where
  -- With a `chunk` as documented, publishing never lacks a client, whatever clients there are before:
  -- it publishes exactly the given payloads, in their order, in calls of at most 100 payloads.
  pub publish-IsPublished :
      (m : MultiPubSubClient) (payloads : List PubSubPayload)
      → (after : MultiPubSubClient) × (publish chunk m payloads ≡ ok after)
        × IsPublished m payloads after
  unfolding publish
  publish-IsPublished m payloads =
      let ready = with_clients chunk m (missing_clients chunk m payloads) in
      let enough : length (chunk payloads max_req_per_second) ≤ length ready.publish_clients =
        omega (
          arith,
          laws.counted payloads,
          length-append m.publish_clients
              (fresh_clients (missing_clients chunk m payloads) m.created),
          length-fresh_clients (missing_clients chunk m payloads) m.created,
        ) in
      let (sent, e, whole, within) =
        publish_chunks-sent ready.publish_clients (chunk payloads max_req_per_second) enough
          (laws.bounded payloads) in
      (
        record ready { calls = ready.calls ++ sent },
        ap (λ r. r >>= λ calls. ok (record ready { calls = ready.calls ++ calls })) e,
        record {
          sent = sent;
          appended = refl;
          complete = whole ∙ laws.joined payloads;
          within = within;
        },
      )

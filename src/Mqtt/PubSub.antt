-- ===== src/Mqtt/PubSub.antt =====
-- MultiPubSubClient.ts: the topics of many subscriptions spread over connections, each with a
-- bounded number of topics. A connection is named by the number of its creation. The mutex makes a
-- call one step; calls of a client that fail are not modelled.
use redstone_oracles_monorep.Prelude.{
  ℕ, zero, suc, ◌+◌, ◌-◌, ◌*◌, String, Bool, true, false, not, Option, none, some, List, [], ◌∷◌,
  ◌++◌, if◌then◌else◌, any, filter, take, drop, length, ltb, str_eq,
}

pub record Connection : Type 0 where
  pub client : ℕ
  pub topics : List String

pub record PubSubPayload : Type 0 where
  pub topic : String
  pub payload : String

-- What the wrapper asks of a client.
pub data Call : Type 0 where
  subscribe_call unsubscribe_call : ℕ → List String → Call
  stop_call : ℕ → Call
  publish_call : ℕ → List PubSubPayload → Call

pub record MultiPubSubClient : Type 0 where
  pub client_to_topics : List Connection
  pub publish_clients : List ℕ
  -- How many clients `pubSubClientFactory` has made, and the calls of them, in order.
  pub created : ℕ
  pub calls : List Call

abbrev pub includes : List String → String → Bool
includes topics topic = any (λ t. str_eq t topic) topics

abbrev pub is_nil {ℓ} : {A : Type ℓ} → List A → Bool
is_nil [] = true
is_nil (x ∷ xs) = false

-- `freeClients.length !== 0`
abbrev pub has_free : ℕ → List Connection → Bool
has_free limit connections = any (λ c. ltb (length c.topics) limit) connections

-- What the loop over the free clients leaves: the connections, the topics not yet subscribed to,
-- and the calls made.
pub record Filled : Type 0 where
  pub connections : List Connection
  pub rest : List String
  pub calls : List Call

abbrev pub subscribe_calls : ℕ → List String → List Call
subscribe_calls client [] = []
subscribe_calls client (topic ∷ topics) = subscribe_call client (topic ∷ topics) ∷ []

abbrev pub keep_connection : Connection → Filled → Filled
keep_connection c f = record f { connections = c ∷ f.connections }

-- The body of the loop; subscribing a client to no topic makes no call.
abbrev pub extend_connection : Connection → List String → Filled → Filled
extend_connection c added f = record {
  connections = (record c { topics = c.topics ++ added }) ∷ f.connections;
  rest = f.rest;
  calls = subscribe_calls c.client added ++ f.calls;
}

-- The loop over the free clients, as a pass over all of them that skips the others.
unfoldable pub fill : ℕ → List Connection → List String → Filled
fill limit [] topics = record { connections = []; rest = topics; calls = [] }
fill limit (c ∷ connections) topics =
    let space = limit - length c.topics in
    let kept = fill limit connections topics in
    let filled = fill limit connections (drop space topics) in
    if ltb (length c.topics) limit
    then extend_connection c (take space topics) filled
    else keep_connection c kept

abbrev pub add_connection : MultiPubSubClient → MultiPubSubClient
add_connection m = record m {
  client_to_topics = m.client_to_topics ++ (record { client = m.created; topics = [] }) ∷ [];
  created = suc m.created;
}

abbrev pub with_filled : MultiPubSubClient → Filled → MultiPubSubClient
with_filled m f = record m { client_to_topics = f.connections; calls = m.calls ++ f.calls }

-- `_subscribe`; `none` if the fuel is used up.
unfoldable pub subscribe_rounds : ℕ → ℕ → MultiPubSubClient → List String → Option MultiPubSubClient
unfolding fill
subscribe_rounds limit zero m topics = none
subscribe_rounds limit (suc fuel) m topics =
    let f = fill limit m.client_to_topics topics in
    let opened = subscribe_rounds limit fuel (add_connection m) topics in
    let again = subscribe_rounds limit fuel (with_filled m f) f.rest in
    if has_free limit m.client_to_topics
    then (if is_nil f.rest then some (with_filled m f) else again)
    else opened

abbrev pub rounds : List String → ℕ
rounds topics = 2 * length topics + 2

unfoldable pub subscribe : ℕ → MultiPubSubClient → List String → Option MultiPubSubClient
subscribe limit m topics = subscribe_rounds limit (rounds topics) m topics

abbrev pub matched : List String → List String → List String
matched topics assigned = filter (λ t. includes topics t) assigned

abbrev pub remaining : List String → List String → List String
remaining topics assigned = filter (λ t. not (includes topics t)) assigned

abbrev pub unsubscribe_calls : ℕ → List String → List Call
unsubscribe_calls client [] = []
unsubscribe_calls client (topic ∷ topics) = unsubscribe_call client (topic ∷ topics) ∷ []

abbrev pub keep_or_stop :
    ℕ → List String → List Connection × List Call → List Connection × List Call
keep_or_stop client [] (connections, calls) = (connections, stop_call client ∷ calls)
keep_or_stop client (topic ∷ topics) (connections, calls) =
    (record { client = client; topics = topic ∷ topics } ∷ connections, calls)

-- The loop of `unsubscribe`: the connections that stay, and the calls made.
unfoldable pub release : List String → List Connection → List Connection × List Call
release topics [] = ([], [])
release topics (c ∷ connections) =
    let (kept, calls) =
      keep_or_stop c.client (remaining topics c.topics) (release topics connections) in
    (kept, unsubscribe_calls c.client (matched topics c.topics) ++ calls)

unfoldable pub unsubscribe : MultiPubSubClient → List String → MultiPubSubClient
unfolding release
unsubscribe m topics =
    let (kept, calls) = release topics m.client_to_topics in
    record m { client_to_topics = kept; calls = m.calls ++ calls }

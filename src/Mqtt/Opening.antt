-- ===== src/Mqtt/Opening.antt =====
-- Subscribing: a new connection, and the three ways that a round goes.
use redstone_oracles_monorep.Prelude.{
  ℕ, suc, ◌+◌, ◌*◌, ◌<◌, ◌≤◌, String, Bool, true, false, some, List, [], ◌∷◌, ◌++◌, length, ◌≡◌,
  arith,
}
use redstone_oracles_monorep.Mqtt.PubSub.{
  Connection, MultiPubSubClient, is_nil, has_free, fill, add_connection, with_filled,
  subscribe_rounds,
}
use redstone_oracles_monorep.Mqtt.Replay.{on_client}
use redstone_oracles_monorep.Mqtt.Fill.{count_all, IsBounded}

pub add_connection-IsBounded :
    (limit : ℕ) (connections : List Connection) (client : ℕ)
    → IsBounded limit connections
    → IsBounded limit (connections ++ record { client = client; topics = [] } ∷ [])
add_connection-IsBounded limit [] client h = (omega arith, tt)
add_connection-IsBounded limit (c ∷ connections) client h =
    (h.0, add_connection-IsBounded limit connections client h.1)

pub add_connection-count :
    (connections : List Connection) (client : ℕ) (topic : String)
    → count_all topic (connections ++ record { client = client; topics = [] } ∷ [])
      ≡ count_all topic connections
add_connection-count [] client topic = omega arith
add_connection-count (c ∷ connections) client topic =
    omega (arith, add_connection-count connections client topic)

pub add_connection-on_client :
    (connections : List Connection) (created client : ℕ) (topic : String)
    → on_client client topic (connections ++ record { client = created; topics = [] } ∷ [])
      ≡ on_client client topic connections
add_connection-on_client [] created client topic = ground arith
add_connection-on_client (c ∷ connections) created client topic =
    omega (arith, add_connection-on_client connections created client topic)

pub add_connection-has_free :
    (limit : ℕ) (connections : List Connection) (client : ℕ)
    → 0 < limit
    → has_free limit (connections ++ record { client = client; topics = [] } ∷ []) ≡ true
add_connection-has_free limit [] client h = ground arith
add_connection-has_free limit (c ∷ connections) client h =
    ground (arith, add_connection-has_free limit connections client h)

-- How many rounds are left to do.
abbrev pub needed : Bool → List String → ℕ
needed true topics = 2 * length topics + 1
needed false topics = 2 * length topics + 2

-- The three ways that a round goes.
module _ (limit fuel : ℕ) (m : MultiPubSubClient) (topics : List String) where
  pub round_full :
      has_free limit m.client_to_topics ≡ false
      → subscribe_rounds limit (suc fuel) m topics
        ≡ subscribe_rounds limit fuel (add_connection m) topics
  unfolding subscribe_rounds
  round_full full = rw full

  pub round_done :
      has_free limit m.client_to_topics ≡ true
      → is_nil (fill limit m.client_to_topics topics).rest ≡ true
      → subscribe_rounds limit (suc fuel) m topics
        ≡ some (with_filled m (fill limit m.client_to_topics topics))
  unfolding subscribe_rounds
  round_done free done = rw (free, done)

  pub round_again :
      has_free limit m.client_to_topics ≡ true
      → is_nil (fill limit m.client_to_topics topics).rest ≡ false
      → subscribe_rounds limit (suc fuel) m topics
        ≡ subscribe_rounds limit fuel
            (with_filled m (fill limit m.client_to_topics topics))
            (fill limit m.client_to_topics topics).rest
  unfolding subscribe_rounds
  round_again free more = rw (free, more)

pub needed_le : (b : Bool) (topics : List String) → needed b topics ≤ 2 * length topics + 2
needed_le true topics = omega arith
needed_le false topics = omega arith

pub is_nil-length : (topics : List String) → is_nil topics ≡ false → 0 < length topics
is_nil-length [] h = cc
is_nil-length (t ∷ topics) h = omega arith

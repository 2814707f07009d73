-- ===== src/Mqtt/Subscriber/State.antt =====
-- DataPackageSubscriber.ts: the state of a subscriber. Entries and arrays of packages are objects
-- that a timer may hold after the map has got another one, so both are kept in a store.
use redstone_oracles_monorep.Prelude.{
  ℕ, ◌-◌, ◌*◌, String, Bool, false, Option, none, some, List, [], ◌∷◌, Result, ◌>>◌, guard, ok, leb,
  ◌==◌, not, if◌then◌else◌, length,
}
use redstone_oracles_monorep.Prelude.Dict.{Dict}
use redstone_oracles_monorep.Relayer.Config.{
  Numbers, RelayerError, SignedDataPackage, DataPackagesResponse,
}
use redstone_oracles_monorep.Mqtt.FeedState.{
  LastPublishedFeedState, FeedStateError, last_published_feed_state,
}
use redstone_oracles_monorep.Mqtt.CircuitBreaker.{RateLimitsCircuitBreaker}

pub data SubscriberError : Type 0 where
  no_authorized_signer too_few_authorized_signers unique_above_minimal : SubscriberError
  broker_error invalid_message invalid_signature unauthorized_signer : SubscriberError
  no_callback no_package fallback_failed : SubscriberError
  not_picked : RelayerError → SubscriberError
  not_filtered : FeedStateError → SubscriberError

-- RedstoneCommon.minToMs(2)
abbrev pub max_package_staleness : ℕ
max_package_staleness = 2 * 60 * 1000

pub record DataPackageSubscriberParams : Type 0 where
  pub data_package_ids : List String
  pub unique_signers_count : ℕ
  pub minimal_off_chain_signers_count : ℕ
  pub wait_ms_for_other_signers : ℕ
  pub ignore_missing_feeds : Bool
  pub authorized_signers : List String

-- What `setTimeout` keeps: the arguments of `publish`, and when it is due.
pub record Timer : Type 0 where
  pub entry : ℕ
  pub timestamp : ℕ
  pub due : ℕ

module _ (N : Numbers) where
  -- `published` has the arguments of the calls of `subscribeCallback`, the last one first.
  pub record DataPackageSubscriber : Type 0 where
    pub params : DataPackageSubscriberParams
    pub last_published_state : LastPublishedFeedState
    pub packages_per_timestamp : List (ℕ × ℕ)
    pub entries : ℕ → Dict ℕ
    pub next_entry : ℕ
    pub arrays : ℕ → List (SignedDataPackage N)
    pub next_array : ℕ
    pub timers : List Timer
    pub has_callback : Bool
    pub published : List (DataPackagesResponse N)
    pub circuit_breaker : Option RateLimitsCircuitBreaker
    pub unsubscribe_calls : ℕ

  -- The state when an operation has returned, or has thrown the error.
  abbrev pub Outcome : Type 0
  Outcome = DataPackageSubscriber × Option SubscriberError

  -- The fields that the constructor sets. `now` is at least the staleness.
  abbrev pub initial_state : DataPackageSubscriberParams → ℕ → DataPackageSubscriber
  initial_state params now = record {
    params = params;
    last_published_state =
        last_published_feed_state params.data_package_ids (now - max_package_staleness);
    packages_per_timestamp = [];
    entries = λ _. [];
    next_entry = 0;
    arrays = λ _. [];
    next_array = 0;
    timers = [];
    has_callback = false;
    published = [];
    circuit_breaker = none;
    unsubscribe_calls = 0;
  }

  unfoldable pub new_subscriber :
      DataPackageSubscriberParams → ℕ → Result SubscriberError DataPackageSubscriber
  new_subscriber params now =
      guard (not (length params.authorized_signers == 0)) no_authorized_signer
      >> guard (leb params.unique_signers_count (length params.authorized_signers))
          too_few_authorized_signers
      >> guard (leb params.unique_signers_count params.minimal_off_chain_signers_count)
          unique_above_minimal
      >> ok (initial_state params now)

-- A store with another value at an address.
abbrev pub store_at : {V : Type 0} → (ℕ → V) → ℕ → V → ℕ → V
store_at store address value a = if a == address then value else store a

-- `Map.prototype.get` and `set`
abbrev pub map_get : List (ℕ × ℕ) → ℕ → Option ℕ
map_get [] key = none
map_get ((k, v) ∷ rest) key = if k == key then some v else map_get rest key

abbrev pub map_set : List (ℕ × ℕ) → ℕ → ℕ → List (ℕ × ℕ)
map_set [] key value = (key, value) ∷ []
map_set ((k, v) ∷ rest) key value =
    let others = map_set rest key value in if k == key then (k, value) ∷ rest else (k, v) ∷ others

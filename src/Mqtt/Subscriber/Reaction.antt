-- ===== src/Mqtt/Subscriber/Reaction.antt =====
-- DataPackageSubscriber.ts: when packages are published, at once, later or not yet, as the comment of
-- the class says.
use redstone_oracles_monorep.Prelude.{
  ℕ, ◌+◌, ◌≤◌, String, true, false, Option, none, some, List, [], ◌∷◌, ◌++◌, ok, length, any, All,
  str_eq, ◌≡◌, ◌⊎◌,
}
use redstone_oracles_monorep.Prelude.Dict.{get}
use redstone_oracles_monorep.Relayer.Config.{Numbers, SignedDataPackage}
use redstone_oracles_monorep.Mqtt.FeedState.{is_newer_than_last_published}
use redstone_oracles_monorep.Mqtt.Subscriber.State.{DataPackageSubscriber, map_get}
use redstone_oracles_monorep.Mqtt.Subscriber.Publishing.{publish_packages}
use redstone_oracles_monorep.Mqtt.Subscriber.Receiving.{is_signed_already}

-- The predicate holds of an item of the list.
abbrev pub Some : {A : Type 0} → (A → Type 0) → List A → Type 0
Some P [] = ⊥
Some P (x ∷ xs) = P x ⊎ Some P xs

module _ (N : Numbers) where
  abbrev pub array_in : DataPackageSubscriber N → Option ℕ → String → Option ℕ
  array_in s none id = none
  array_in s (some entry) id = get (s.entries entry) id

  -- The array of a feed's packages of a time, if there is one, and the packages.
  abbrev pub array_of : DataPackageSubscriber N → ℕ → String → Option ℕ
  array_of s timestamp id = array_in s (map_get s.packages_per_timestamp timestamp) id

  abbrev pub packages_in : DataPackageSubscriber N → Option ℕ → List (SignedDataPackage N)
  packages_in s none = []
  packages_in s (some array) = s.arrays array

  abbrev pub collected : DataPackageSubscriber N → ℕ → String → List (SignedDataPackage N)
  collected s timestamp id = packages_in s (array_of s timestamp id)

  -- There are packages of the feed and time from all authorized signers.
  abbrev pub HasAll : DataPackageSubscriber N → ℕ → String → Type 0
  HasAll s timestamp id =
      (array : ℕ) × (array_of s timestamp id ≡ some array)
      × (length (s.arrays array) ≡ length s.params.authorized_signers)

  abbrev pub HasMinimum : DataPackageSubscriber N → ℕ → String → Type 0
  HasMinimum s timestamp id =
      (array : ℕ) × (array_of s timestamp id ≡ some array)
      × (s.params.minimal_off_chain_signers_count ≤ length (s.arrays array))

  abbrev pub IsComplete : DataPackageSubscriber N → ℕ → Type 0
  IsComplete s timestamp = All (HasAll s timestamp) s.params.data_package_ids

  -- Of all feeds, or of some if missing feeds are to be ignored.
  abbrev pub IsEnough : DataPackageSubscriber N → ℕ → Type 0
  IsEnough s timestamp =
      ((s.params.ignore_missing_feeds ≡ true)
        × Some (HasMinimum s timestamp) s.params.data_package_ids)
      ⊎ ((s.params.ignore_missing_feeds ≡ false)
          × All (HasMinimum s timestamp) s.params.data_package_ids)

  -- Why a package is not added.
  pub data IsRefused (s : DataPackageSubscriber N) (pkg : SignedDataPackage N) : Type 0 where
    unknown_feed :
        any (λ id. str_eq id pkg.data_package_id) s.params.data_package_ids ≡ false
        → IsRefused s pkg
    not_signed : pkg.signer ≡ none → IsRefused s pkg
    not_authorized :
        (signer : String)
        → pkg.signer ≡ some signer
        → any (λ known. str_eq known signer) s.params.authorized_signers ≡ false
        → IsRefused s pkg
    not_newer :
        is_newer_than_last_published s.last_published_state pkg.data_package_id pkg.timestamp
          ≡ false
        → IsRefused s pkg
    signed_already :
        (signer : String)
        → pkg.signer ≡ some signer
        → ¬ (is_signed_already N signer (collected s pkg.timestamp pkg.data_package_id) ≡ ok false)
        → IsRefused s pkg

  -- The package stands behind the others of its feed and time, and nothing is published yet.
  pub record IsAdded (s : DataPackageSubscriber N) (pkg : SignedDataPackage N)
      (added : DataPackageSubscriber N) : Type 0 where
    pub same_params : added.params ≡ s.params
    pub same_published : added.published ≡ s.published
    pub same_state : added.last_published_state ≡ s.last_published_state
    pub same_timers : added.timers ≡ s.timers
    pub appended :
        collected added pkg.timestamp pkg.data_package_id
        ≡ collected s pkg.timestamp pkg.data_package_id ++ pkg ∷ []

  -- What follows the addition: packages of all feeds from all signers are published at once, enough
  -- packages are published by a timer, and others wait.
  pub data Continues (added : DataPackageSubscriber N) (timestamp now : ℕ)
      : DataPackageSubscriber N → Type 0 where
    publishes :
        (entry : ℕ)
        → map_get added.packages_per_timestamp timestamp ≡ some entry
        → IsComplete added timestamp
        → Continues added timestamp now (publish_packages N added entry timestamp now).0
    schedules :
        (entry : ℕ)
        → map_get added.packages_per_timestamp timestamp ≡ some entry
        → ¬ IsComplete added timestamp
        → IsEnough added timestamp
        → Continues added timestamp now (record added {
          timers =
              added.timers
              ++ record {
                entry = entry;
                timestamp = timestamp;
                due = now + added.params.wait_ms_for_other_signers;
              }
                ∷ [];
        })
    waits :
        ¬ IsComplete added timestamp
        → ¬ IsEnough added timestamp
        → Continues added timestamp now added

  -- What a package does to the subscriber.
  pub data Reaction (s : DataPackageSubscriber N) (pkg : SignedDataPackage N) (now : ℕ)
      : DataPackageSubscriber N → Type 0 where
    refused :
        (after : DataPackageSubscriber N)
        → IsRefused s pkg
        → after.published ≡ s.published
        → after.last_published_state ≡ s.last_published_state
        → after.timers ≡ s.timers
        → Reaction s pkg now after
    continued :
        (added after : DataPackageSubscriber N)
        → IsAdded s pkg added
        → Continues added pkg.timestamp now after
        → Reaction s pkg now after

-- ===== src/Mqtt/Subscriber/Contract.antt =====
-- What DataPackageSubscriber.ts promises to the callback, as a machine that knows only when each feed
-- was published last: the rules of the comment of the class about validation, selection and what is
-- published. When the code publishes is not its matter.
use redstone_oracles_monorep.Prelude.{
  ℕ, ◌≤◌, String, Bool, true, false, Option, none, some, List, [], ◌∷◌, ok, length, any, All,
  str_eq, ◌≡◌,
}
use redstone_oracles_monorep.Prelude.Dict.{keys}
use redstone_oracles_monorep.Relayer.Config.{Numbers, SignedDataPackage, DataPackagesResponse}
use redstone_oracles_monorep.Sdk.Closest.{pick_data_feed_packages_closest_to_median}
use redstone_oracles_monorep.Sdk.Sorting.{count}
use redstone_oracles_monorep.Mqtt.FeedState.{
  LastPublishedFeedState, is_newer_than_last_published, update,
}
use redstone_oracles_monorep.Mqtt.Subscriber.State.{DataPackageSubscriberParams}
use redstone_oracles_monorep.Mqtt.Subscriber.Publishing.{first_time}

module _ (N : Numbers) where
  abbrev pub is_signer : Option String → String → Bool
  is_signer none signer = false
  is_signer (some other) signer = str_eq other signer

  abbrev pub is_signed_by : String → SignedDataPackage N → Bool
  is_signed_by signer pkg = is_signer pkg.signer signer

  -- No signer has two of the packages.
  abbrev pub HasDistinctSigners : List (SignedDataPackage N) → Type 0
  HasDistinctSigners packages = (signer : String) → count (is_signed_by signer) packages ≤ 1

  module _ (params : DataPackageSubscriberParams) where
    -- A package of the feed and the time whose signer is authorized.
    abbrev pub IsAccepted : ℕ → String → SignedDataPackage N → Type 0
    IsAccepted timestamp id pkg =
        (pkg.timestamp ≡ timestamp)
        × (pkg.data_package_id ≡ id)
        × (signer : String) × (pkg.signer ≡ some signer)
        × (any (λ known. str_eq known signer) params.authorized_signers ≡ true)

    -- Packages of a feed that may be chosen from: accepted ones of different signers, and no fewer
    -- than the configured minimum.
    abbrev pub IsQuorum : ℕ → String → List (SignedDataPackage N) → Type 0
    IsQuorum timestamp id collected =
        (params.minimal_off_chain_signers_count ≤ length collected)
        × All (IsAccepted timestamp id) collected
        × HasDistinctSigners collected

    -- As many packages of a feed as asked, of different signers, which
    -- `pickDataFeedPackagesClosestToMedian` chooses from such packages.
    abbrev pub IsSelection : ℕ → (String × List (SignedDataPackage N)) → Type 0
    IsSelection timestamp (id, packages) =
        (length packages ≡ params.unique_signers_count)
        × All (IsAccepted timestamp id) packages
        × HasDistinctSigners packages
        × (collected : List (SignedDataPackage N)) × IsQuorum timestamp id collected
        × (pick_data_feed_packages_closest_to_median N collected params.unique_signers_count
            ≡ ok packages)

    -- A selection that is newer than the last publication of its feed.
    abbrev pub IsPublishable :
        LastPublishedFeedState → ℕ → (String × List (SignedDataPackage N)) → Type 0
    IsPublishable last timestamp (id, packages) =
        IsSelection timestamp (id, packages)
        × (first_time N packages ≡ ok timestamp)
        × (is_newer_than_last_published last id timestamp ≡ true)

    -- The machine: what was published, the last response first.
    pub data Allowed (initial : LastPublishedFeedState)
        : LastPublishedFeedState → List (DataPackagesResponse N) → Type 0 where
      nothing : Allowed initial initial []
      publish_next :
          (last : LastPublishedFeedState) (log : List (DataPackagesResponse N))
          (first : String × List (SignedDataPackage N)) (others : DataPackagesResponse N)
          (timestamp : ℕ)
          → Allowed initial last log
          → All (IsPublishable last timestamp) (first ∷ others)
          → Allowed initial (update last (keys (first ∷ others)) timestamp) ((first ∷ others) ∷ log)

-- ===== src/Mqtt/Subscriber/Receiving.antt =====
-- DataPackageSubscriber.ts: `processNewPackage`.
use redstone_oracles_monorep.Prelude.{
  ℕ, ◌+◌, suc, String, Bool, true, false, Option, none, some, List, [], ◌∷◌, ◌++◌, Result, err, ok,
  leb, ◌==◌, str_eq, if◌then◌else◌, length, any, every,
}
use redstone_oracles_monorep.Prelude.Dict.{Dict, get, put}
use redstone_oracles_monorep.Relayer.Config.{Numbers, SignedDataPackage}
use redstone_oracles_monorep.Mqtt.FeedState.{is_newer_than_last_published}
use redstone_oracles_monorep.Mqtt.Subscriber.State.{
  DataPackageSubscriber, Outcome, SubscriberError, invalid_message, invalid_signature,
  unauthorized_signer, map_get, map_set, store_at,
}
use redstone_oracles_monorep.Mqtt.Subscriber.Publishing.{publish_packages}

module _ (N : Numbers) where
  abbrev pub has_length : DataPackageSubscriber N → Option ℕ → ℕ → Bool
  has_length s none n = false
  has_length s (some array) n = length (s.arrays array) == n

  abbrev pub has_at_least : DataPackageSubscriber N → Option ℕ → ℕ → Bool
  has_at_least s none n = false
  has_at_least s (some array) n = leb n (length (s.arrays array))

  unfoldable pub can_be_published_instantly : DataPackageSubscriber N → Dict ℕ → Bool
  can_be_published_instantly s entry =
      every (λ id. has_length s (get entry id) (length s.params.authorized_signers))
        s.params.data_package_ids

  unfoldable pub can_schedule_publish : DataPackageSubscriber N → Dict ℕ → Bool
  can_schedule_publish s entry =
      let enough : String → Bool =
        λ id. has_at_least s (get entry id) s.params.minimal_off_chain_signers_count in
      if s.params.ignore_missing_feeds
      then any enough s.params.data_package_ids
      else every enough s.params.data_package_ids

  -- `dp.recoverSignerAddress() === packageSigner`, and the rest of the search if it does not hold
  abbrev pub compare_signer :
      Option String → String → Result SubscriberError Bool → Result SubscriberError Bool
  compare_signer none signer rest = err invalid_signature
  compare_signer (some other) signer rest = if str_eq other signer then ok true else rest

  -- `entryForTimestamp[dataPackageId].some(...)`
  abbrev pub is_signed_already : String → List (SignedDataPackage N) → Result SubscriberError Bool
  is_signed_already signer [] = ok false
  is_signed_already signer (pkg ∷ packages) =
      let rest = is_signed_already signer packages in compare_signer pkg.signer signer rest

  -- `packagesPerTimestamp.get(packageTimestamp) ?? {}`
  abbrev pub entry_for : DataPackageSubscriber N → Option ℕ → DataPackageSubscriber N × ℕ
  entry_for s (some entry) = (s, entry)
  entry_for s none = (
    record s { entries = store_at s.entries s.next_entry []; next_entry = suc s.next_entry },
    s.next_entry,
  )

  -- `if (!entryForTimestamp[dataPackageId]) entryForTimestamp[dataPackageId] = []`
  abbrev pub array_for :
      DataPackageSubscriber N → ℕ → String → Option ℕ → DataPackageSubscriber N × ℕ
  array_for s entry id (some array) = (s, array)
  array_for s entry id none = (
    record s {
      entries = store_at s.entries entry (put (s.entries entry) id s.next_array);
      arrays = store_at s.arrays s.next_array [];
      next_array = suc s.next_array;
    },
    s.next_array,
  )

  -- After the push: publish now, or later, or wait for other packages.
  unfoldable pub publish_or_schedule : DataPackageSubscriber N → ℕ → ℕ → ℕ → Outcome N
  publish_or_schedule s entry timestamp now =
      if can_be_published_instantly s (s.entries entry)
      then publish_packages N s entry timestamp now
      else if can_schedule_publish s (s.entries entry)
      then (
        record s {
          timers =
              s.timers
              ++ record {
                entry = entry;
                timestamp = timestamp;
                due = now + s.params.wait_ms_for_other_signers;
              }
                ∷ [];
        },
        none,
      )
      else (s, none)

  abbrev pub add_package :
      DataPackageSubscriber N → SignedDataPackage N → ℕ → ℕ → DataPackageSubscriber N
  add_package s pkg entry array = record s {
    arrays = store_at s.arrays array (s.arrays array ++ pkg ∷ []);
    packages_per_timestamp = map_set s.packages_per_timestamp pkg.timestamp entry;
  }

  abbrev pub add_unless_signed :
      DataPackageSubscriber N
      → SignedDataPackage N
      → ℕ
      → ℕ
      → Result SubscriberError Bool
      → ℕ
      → Outcome N
  add_unless_signed s pkg entry array (err thrown) now = (s, some thrown)
  add_unless_signed s pkg entry array (ok true) now = (s, none)
  add_unless_signed s pkg entry array (ok false) now =
      publish_or_schedule (add_package s pkg entry array) entry pkg.timestamp now

  -- The packages of the package's feed and timestamp, with the package unless its signer has one.
  unfoldable pub store_package :
      DataPackageSubscriber N → SignedDataPackage N → String → ℕ → Outcome N
  store_package s pkg signer now =
      let (s1, entry) = entry_for s (map_get s.packages_per_timestamp pkg.timestamp) in
      let (s2, array) =
        array_for s1 entry pkg.data_package_id (get (s1.entries entry) pkg.data_package_id) in
      add_unless_signed s2 pkg entry array (is_signed_already signer (s2.arrays array)) now

  -- From the recovery of the signer to the check of the timestamp.
  abbrev pub accept_package :
      DataPackageSubscriber N → SignedDataPackage N → Option String → ℕ → Outcome N
  accept_package s pkg none now = (s, some invalid_signature)
  accept_package s pkg (some signer) now =
      if any (λ known. str_eq known signer) s.params.authorized_signers
      then if is_newer_than_last_published s.last_published_state pkg.data_package_id pkg.timestamp
        then store_package s pkg signer now
        else (s, none)
      else (s, some unauthorized_signer)

  -- A payload is none where the schema or `SignedDataPackage.fromObj` rejects it.
  unfoldable pub process_new_package :
      DataPackageSubscriber N → Option (SignedDataPackage N) → ℕ → Outcome N
  process_new_package s none now = (s, some invalid_message)
  process_new_package s (some pkg) now =
      if any (λ id. str_eq id pkg.data_package_id) s.params.data_package_ids
      then accept_package s pkg pkg.signer now
      else (s, none)

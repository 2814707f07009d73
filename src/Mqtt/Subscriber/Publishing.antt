-- ===== src/Mqtt/Subscriber/Publishing.antt =====
-- DataPackageSubscriber.ts: `publish`, with the choice of packages before it and the cleaning after
-- it.
use redstone_oracles_monorep.Prelude.{
  ℕ, ◌+◌, suc, Bool, Option, none, some, List, [], ◌∷◌, Result, err, ok, ◌>>=◌, leb, not,
  if◌then◌else◌, length, filter,
}
use redstone_oracles_monorep.Prelude.Dict.{Dict, keys}
use redstone_oracles_monorep.Relayer.Config.{
  Numbers, RelayerError, SignedDataPackage, DataPackagesResponse,
}
use redstone_oracles_monorep.Sdk.Closest.{pick_data_feed_packages_closest_to_median}
use redstone_oracles_monorep.Mqtt.FeedState.{
  update, first_timestamp, filter_out_not_newer_packages, FeedStateError,
}
use redstone_oracles_monorep.Mqtt.Subscriber.State.{
  DataPackageSubscriber, Outcome, SubscriberError, not_picked, not_filtered, map_get, map_set,
  store_at, max_package_staleness,
}

-- An error under another name.
abbrev pub rename_error {ℓ} : {E F : Type 0} {A : Type ℓ} → (E → F) → Result E A → Result F A
rename_error wrap (err thrown) = err (wrap thrown)
rename_error wrap (ok value) = ok value

module _ (N : Numbers) where
  abbrev pub first_time : List (SignedDataPackage N) → Result FeedStateError ℕ
  first_time packages = first_timestamp (λ p. p.timestamp) packages

  -- The loop over `Object.entries(entryForTimestamp)`.
  unfoldable pub select_packages :
      DataPackageSubscriber N → Dict ℕ → Result RelayerError (DataPackagesResponse N)
  select_packages s [] = ok []
  select_packages s ((id, array) ∷ entry) =
      let others = select_packages s entry in
      let selected =
        pick_data_feed_packages_closest_to_median N (s.arrays array) s.params.unique_signers_count
        >>= λ picked. others >>= λ rest. ok (
            if leb s.params.unique_signers_count (length picked)
            then (id, picked) ∷ rest
            else rest) in
      if leb s.params.minimal_off_chain_signers_count (length (s.arrays array))
      then selected
      else others

  unfoldable pub prepare_packages_before_publish :
      DataPackageSubscriber N → ℕ → Result SubscriberError (DataPackagesResponse N)
  unfolding select_packages
  prepare_packages_before_publish s entry =
      rename_error not_picked (select_packages s (s.entries entry)) >>= λ selected.
      rename_error not_filtered
        (filter_out_not_newer_packages first_time s.last_published_state selected)

  -- `timestamp <= now - MAX_PACKAGE_STALENESS`
  abbrev pub is_stale : ℕ → ℕ → Bool
  is_stale now timestamp = leb (timestamp + max_package_staleness) now

  abbrev pub delete_stale : DataPackageSubscriber N → ℕ → DataPackageSubscriber N
  delete_stale s now = record s {
    packages_per_timestamp = filter (λ (t, _). not (is_stale now t)) s.packages_per_timestamp;
  }

  -- The new object that takes the place of an entry shares the arrays with it.
  abbrev pub replace_entry :
      DataPackageSubscriber N → Result FeedStateError (Dict ℕ) → ℕ → ℕ → Outcome N
  replace_entry s (err thrown) timestamp now = (s, some (not_filtered thrown))
  replace_entry s (ok only_newer) timestamp now = (
    delete_stale
        (record s {
          entries = store_at s.entries s.next_entry only_newer;
          next_entry = suc s.next_entry;
          packages_per_timestamp = map_set s.packages_per_timestamp timestamp s.next_entry;
        })
        now,
    none,
  )

  abbrev pub clean_entry : DataPackageSubscriber N → Option ℕ → ℕ → ℕ → Outcome N
  clean_entry s none timestamp now = (delete_stale s now, none)
  clean_entry s (some entry) timestamp now =
      replace_entry s
        (filter_out_not_newer_packages (λ array. first_time (s.arrays array)) s.last_published_state
          (s.entries entry))
        timestamp now

  unfoldable pub clean_published_and_stale_packages : DataPackageSubscriber N → ℕ → ℕ → Outcome N
  clean_published_and_stale_packages s timestamp now =
      clean_entry s (map_get s.packages_per_timestamp timestamp) timestamp now

  -- `publish` once the packages are prepared
  abbrev pub publish_prepared :
      DataPackageSubscriber N → Result SubscriberError (DataPackagesResponse N) → ℕ → ℕ → Outcome N
  publish_prepared s (err thrown) timestamp now = (s, some thrown)
  publish_prepared s (ok []) timestamp now = (s, none)
  publish_prepared s (ok (first ∷ others)) timestamp now =
      if s.has_callback
      then clean_published_and_stale_packages
          (record s {
            published = (first ∷ others) ∷ s.published;
            last_published_state = update s.last_published_state (keys (first ∷ others)) timestamp;
          })
          timestamp now
      else (s, none)

  unfoldable pub publish_packages : DataPackageSubscriber N → ℕ → ℕ → ℕ → Outcome N
  publish_packages s entry timestamp now =
      publish_prepared s (prepare_packages_before_publish s entry) timestamp now

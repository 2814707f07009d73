-- ===== src/Mqtt/Subscriber/Fallback.antt =====
-- DataPackageSubscriber.ts: the interval function of `enableFallback`, in two parts since it waits for
-- the fallback's answer between them.
use redstone_oracles_monorep.Prelude.{
  ℕ, Bool, none, some, [], ◌∷◌, Result, err, ok, ◌>>=◌, if◌then◌else◌,
}
use redstone_oracles_monorep.Prelude.Dict.{keys}
use redstone_oracles_monorep.Relayer.Config.{Numbers, DataPackagesResponse}
use redstone_oracles_monorep.Mqtt.FeedState.{
  is_any_feed_not_published_in, update, filter_out_not_newer_packages,
}
use redstone_oracles_monorep.Mqtt.Subscriber.State.{
  DataPackageSubscriber, Outcome, SubscriberError, no_callback, no_package, not_filtered,
}
use redstone_oracles_monorep.Mqtt.Subscriber.Publishing.{rename_error, first_time}

module _ (N : Numbers) where
  -- Whether the interval function calls the fallback.
  unfoldable pub is_fallback_triggered : DataPackageSubscriber N → ℕ → ℕ → Bool
  is_fallback_triggered s max_delay now =
      is_any_feed_not_published_in s.last_published_state max_delay now

  -- `Object.values(dataPackages)[0]![0].dataPackage.timestampMilliseconds`
  abbrev pub fallback_timestamp : DataPackagesResponse N → Result SubscriberError ℕ
  fallback_timestamp [] = err no_package
  fallback_timestamp ((id, packages) ∷ response) = rename_error not_filtered (first_time N packages)

  abbrev pub newer_packages_only :
      DataPackageSubscriber N
      → DataPackagesResponse N
      → Result SubscriberError (DataPackagesResponse N)
  newer_packages_only s response =
      rename_error not_filtered
        (filter_out_not_newer_packages (first_time N) s.last_published_state response)

  -- `this.subscribeCallback!(dataPackages)`, and the update with the keys of the newer packages.
  abbrev pub publish_newer :
      DataPackageSubscriber N → DataPackagesResponse N → DataPackagesResponse N → ℕ → Outcome N
  publish_newer s response [] timestamp = (s, none)
  publish_newer s response (newer ∷ others) timestamp =
      if s.has_callback
      then (
        record s {
          published = response ∷ s.published;
          last_published_state = update s.last_published_state (keys (newer ∷ others)) timestamp;
        },
        none,
      )
      else (s, some no_callback)

  abbrev pub publish_fallback :
      DataPackageSubscriber N
      → DataPackagesResponse N
      → Result SubscriberError (ℕ × DataPackagesResponse N)
      → Outcome N
  publish_fallback s response (err thrown) = (s, some thrown)
  publish_fallback s response (ok (timestamp, newer)) = publish_newer s response newer timestamp

  -- The rest of the function; its error is logged.
  unfoldable pub on_fallback_answer :
      DataPackageSubscriber N → Result SubscriberError (DataPackagesResponse N) → Outcome N
  on_fallback_answer s (err thrown) = (s, some thrown)
  on_fallback_answer s (ok response) = publish_fallback s response (
      fallback_timestamp response >>= λ timestamp.
      newer_packages_only s response >>= λ newer. ok (timestamp, newer))

-- ===== src/Mqtt/Subscriber/SoundPublish.antt =====
-- DataPackageSubscriber.ts: `publish` keeps the invariant of the store, whatever the store looks like
-- when it is called.
use redstone_oracles_monorep.Prelude.{
  if_both, arith, ℕ, suc, String, Option, none, some, List, [], ◌∷◌, Result, ok, err, All, All-mono,
  ◌≡◌, refl,
}
use redstone_oracles_monorep.Prelude.Dict.{Dict, keys}
use redstone_oracles_monorep.Relayer.Config.{Numbers, SignedDataPackage, DataPackagesResponse}
use redstone_oracles_monorep.Mqtt.FeedState.{
  LastPublishedFeedState, filter_out_not_newer_packages, update, FeedStateError,
}
use redstone_oracles_monorep.Mqtt.Subscriber.State.{
  Outcome, DataPackageSubscriber, DataPackageSubscriberParams, SubscriberError, map_get, map_set,
  store_at,
}
use redstone_oracles_monorep.Mqtt.Subscriber.Publishing.{
  first_time, prepare_packages_before_publish, publish_packages, publish_prepared,
  clean_published_and_stale_packages, clean_entry, replace_entry,
}
use redstone_oracles_monorep.Mqtt.Subscriber.Contract.{IsPublishable, publish_next}
use redstone_oracles_monorep.Mqtt.Subscriber.Prepared.{
  prepare_packages-IsPublishable, filter_out_lem,
}
use redstone_oracles_monorep.Mqtt.Subscriber.Stores.{All-map_get, All-map_set}
use redstone_oracles_monorep.Mqtt.Subscriber.Soundness.{
  Meaning, IsEntry, IsArray, IsSound, Sound, with_entry, add_entry-IsSound, delete_stale-IsSound,
  entry-IsCollected,
}

module _ (N : Numbers) (params : DataPackageSubscriberParams)
    (initial : LastPublishedFeedState) where
  -- An entry of the time may take its place in the map.
  pub map_entry-IsSound :
      (s : DataPackageSubscriber N) (m : Meaning) (timestamp entry : ℕ)
      → IsSound N params initial s m
      → IsEntry N s m timestamp entry
      → IsSound N params initial
          (record s { packages_per_timestamp = map_set s.packages_per_timestamp timestamp entry })
          m
  map_entry-IsSound s m timestamp entry sound held = record {
    same = sound.same;
    accepted = sound.accepted;
    distinct = sound.distinct;
    typed = sound.typed;
    mapped =
        All-map_set (λ (t, e). IsEntry N s m t e) s.packages_per_timestamp timestamp entry
          sound.mapped held;
    waiting = sound.waiting;
    allowed = sound.allowed;
  }

  replace_entry-Sound :
      (s : DataPackageSubscriber N) (m : Meaning) (entry timestamp now : ℕ)
      (newer : Result FeedStateError (Dict ℕ))
      → IsSound N params initial s m
      → IsEntry N s m timestamp entry
      → filter_out_not_newer_packages
          (λ array. first_time N (s.arrays array))
          s.last_published_state
          (s.entries entry)
        ≡ newer
      → Sound N params initial (replace_entry N s newer timestamp now).0
  replace_entry-Sound s m entry timestamp now (err thrown) sound held e = (m, sound)
  replace_entry-Sound s m entry timestamp now (ok newer) sound held e =
      let kept =
        filter_out_lem (λ array. first_time N (s.arrays array)) (IsArray N s m (m.entry_time entry))
          s.last_published_state (s.entries entry) newer e (sound.typed entry) in
      let arrays : All (IsArray N s m timestamp) newer =
        All-mono _ (λ x k. rw (← held.1) k.0) newer kept in
      let added = add_entry-IsSound N params initial s m timestamp newer sound arrays in
      let s1 = record s {
        entries = store_at s.entries s.next_entry newer;
        next_entry = suc s.next_entry;
      } in
      let m1 = with_entry N params initial s m timestamp in
      let fresh : IsEntry N s1 m1 timestamp s.next_entry = (omega arith, ground arith) in
      let placed = map_entry-IsSound s1 m1 timestamp s.next_entry added fresh in
      (m1, delete_stale-IsSound N params initial _ m1 now placed)

  clean_entry-Sound :
      (s : DataPackageSubscriber N) (m : Meaning) (found : Option ℕ) (timestamp now : ℕ)
      → IsSound N params initial s m
      → map_get s.packages_per_timestamp timestamp ≡ found
      → Sound N params initial (clean_entry N s found timestamp now).0
  clean_entry-Sound s m none timestamp now sound h =
      (m, delete_stale-IsSound N params initial s m now sound)
  clean_entry-Sound s m (some entry) timestamp now sound h =
      replace_entry-Sound s m entry timestamp now
        (filter_out_not_newer_packages (λ array. first_time N (s.arrays array))
          s.last_published_state (s.entries entry))
        sound
        (All-map_get (λ (t, e). IsEntry N s m t e) s.packages_per_timestamp timestamp entry h
          sound.mapped)
        refl

  clean_published-Sound :
      (s : DataPackageSubscriber N) (m : Meaning) (timestamp now : ℕ)
      → IsSound N params initial s m
      → Sound N params initial (clean_published_and_stale_packages N s timestamp now).0
  unfolding clean_published_and_stale_packages
  clean_published-Sound s m timestamp now sound =
      clean_entry-Sound s m (map_get s.packages_per_timestamp timestamp) timestamp now sound refl

  log-IsSound :
      (s : DataPackageSubscriber N) (m : Meaning) (timestamp : ℕ)
      (first : String × List (SignedDataPackage N)) (others : DataPackagesResponse N)
      → IsSound N params initial s m
      → All (IsPublishable N s.params s.last_published_state timestamp) (first ∷ others)
      → IsSound N params initial
          (record s {
            published = (first ∷ others) ∷ s.published;
            last_published_state = update s.last_published_state (keys (first ∷ others)) timestamp;
          })
          m
  log-IsSound s m timestamp first others sound publishable = record {
    same = sound.same;
    accepted = sound.accepted;
    distinct = sound.distinct;
    typed = sound.typed;
    mapped = sound.mapped;
    waiting = sound.waiting;
    allowed =
        publish_next s.last_published_state s.published first others timestamp sound.allowed
          publishable;
  }

  publish_prepared-Sound :
      (s : DataPackageSubscriber N) (m : Meaning)
      (prepared : Result SubscriberError (DataPackagesResponse N)) (entry timestamp now : ℕ)
      → IsSound N params initial s m
      → IsEntry N s m timestamp entry
      → prepare_packages_before_publish N s entry ≡ prepared
      → Sound N params initial (publish_prepared N s prepared timestamp now).0
  publish_prepared-Sound s m (err thrown) entry timestamp now sound held e = (m, sound)
  publish_prepared-Sound s m (ok []) entry timestamp now sound held e = (m, sound)
  publish_prepared-Sound s m (ok (first ∷ others)) entry timestamp now sound held e =
      let publishable =
        prepare_packages-IsPublishable N s entry timestamp (first ∷ others) e
          (entry-IsCollected N params initial s m timestamp entry sound held) in
      if_both (λ (outcome : Outcome N). Sound N params initial outcome.0) s.has_callback _ _
        (clean_published-Sound _ m timestamp now
          (log-IsSound s m timestamp first others sound publishable))
        (m, sound)

  -- A timer or a message may publish at any time.
  pub publish_packages-Sound :
      (s : DataPackageSubscriber N) (m : Meaning) (entry timestamp now : ℕ)
      → IsSound N params initial s m
      → IsEntry N s m timestamp entry
      → Sound N params initial (publish_packages N s entry timestamp now).0
  unfolding publish_packages
  publish_packages-Sound s m entry timestamp now sound held =
      publish_prepared-Sound s m (prepare_packages_before_publish N s entry) entry timestamp now
        sound held refl

-- ===== src/Mqtt/Subscriber/Order.antt =====
-- DataPackageSubscriber.ts: "NEVER publish a package with the same timestamp or older than the last
-- published", for each feed.
use redstone_oracles_monorep.Prelude.{
  ℕ, ◌≤◌, ◌<◌, String, true, Option, none, some, List, [], ◌∷◌, ok, All, All-mono, Option-cases,
  ◌≡◌, arith, inl, inr,
}
use redstone_oracles_monorep.Prelude.Dict.{keys, get, any-keys, All-get}
use redstone_oracles_monorep.Relayer.Config.{Numbers, SignedDataPackage, DataPackagesResponse}
use redstone_oracles_monorep.Mqtt.FeedState.{
  LastPublishedFeedState, update, get-update, is_newer_than_last_published, exceeds_last,
}
use redstone_oracles_monorep.Mqtt.Subscriber.State.{
  DataPackageSubscriber, DataPackageSubscriberParams, new_subscriber,
}
use redstone_oracles_monorep.Mqtt.Subscriber.Events.{Event, run}
use redstone_oracles_monorep.Mqtt.Subscriber.Contract.{
  Allowed, nothing, publish_next, IsPublishable,
}
use redstone_oracles_monorep.Mqtt.Subscriber.Refinement.{run-Allowed}

-- The first number is the largest, and so on.
abbrev pub IsDecreasing : List ℕ → Type 0
IsDecreasing [] = Unit {0}
IsDecreasing (t ∷ ts) = All (λ u. u < t) ts × IsDecreasing ts

abbrev IsAtMost : Option ℕ → ℕ → Type 0
IsAtMost none t = ⊥
IsAtMost (some last) t = t ≤ last

IsAtMost-exceeds_last :
    (last : Option ℕ) (timestamp t : ℕ)
    → exceeds_last timestamp last ≡ true
    → IsAtMost last t
    → t < timestamp
IsAtMost-exceeds_last none timestamp t h k = elim k [ ]
IsAtMost-exceeds_last (some last) timestamp t h k = ground (arith, h, k)

module _ (N : Numbers) where
  -- The time of a response's packages of one feed, and the times after it.
  abbrev pub add_time : Option (List (SignedDataPackage N)) → List ℕ → List ℕ
  add_time none times = times
  add_time (some []) times = times
  add_time (some (pkg ∷ packages)) times = pkg.timestamp ∷ times

  -- When packages of a feed were published, the last time first.
  abbrev pub published_times : String → List (DataPackagesResponse N) → List ℕ
  published_times id [] = []
  published_times id (response ∷ log) = add_time (get response id) (published_times id log)

  -- What the last publication of a feed says of the times of all its publications.
  abbrev IsOrdered : Option ℕ → List ℕ → Type 0
  IsOrdered last times = All (IsAtMost last) times × IsDecreasing times

  module _ (params : DataPackageSubscriberParams) where
    add_time-IsOrdered :
        (last : LastPublishedFeedState) (timestamp : ℕ) (id : String)
        (packages : List (SignedDataPackage N)) (times : List ℕ)
        → IsPublishable N params last timestamp (id, packages)
        → IsOrdered (get last id) times
        → IsOrdered (some timestamp) (add_time (some packages) times)
    unfolding is_newer_than_last_published
    add_time-IsOrdered last timestamp id [] times (_, first, newer) ordered = cc
    add_time-IsOrdered last timestamp id (pkg ∷ packages) times (chosen, first, newer)
          (bounded, decreasing) =
        let below =
          All-mono (IsAtMost (get last id))
            (λ t k. IsAtMost-exceeds_last (get last id) timestamp t newer k) times bounded in
        rw chosen.1.0.0 (
          (omega arith, All-mono (λ t. t < timestamp) (λ t k. omega (arith, k)) times below),
          (below, decreasing),
        )

    pub Allowed-IsOrdered :
        (initial last : LastPublishedFeedState) (log : List (DataPackagesResponse N)) (id : String)
        → Allowed N params initial last log
        → IsOrdered (get last id) (published_times id log)
    Allowed-IsOrdered initial last log id nothing = (tt, tt)
    Allowed-IsOrdered initial last log id
          (publish_next before earlier first others timestamp allowed publishable) =
        let response = first ∷ others in
        let ordered = Allowed-IsOrdered initial before earlier id allowed in
        let now = get-update before (keys response) timestamp id in
        elim (Option-cases (get response id)) [
          | inl absent ↦
              let e : get (update before (keys response) timestamp) id ≡ get before id =
                ground (arith, now, any-keys response id, absent) in
              rw (e, absent) ordered
          | inr (packages, present) ↦
              let e : get (update before (keys response) timestamp) id ≡ some timestamp =
                ground (arith, now, any-keys response id, present) in
              rw (e, present)
                (add_time-IsOrdered before timestamp id packages (published_times id earlier)
                  (All-get (IsPublishable N params before timestamp) response id packages present
                    publishable)
                  ordered)
        ]

  -- In the order of the publications the times of each feed grow strictly, in any run without a
  -- fallback: no packages are published twice, and none after newer ones.
  pub run-IsDecreasing :
      (params : DataPackageSubscriberParams) (now : ℕ) (s : DataPackageSubscriber N)
      (events : List (Event N)) (id : String)
      → new_subscriber N params now ≡ ok s
      → IsDecreasing (published_times id (run N s events).published)
  run-IsDecreasing params now s events id h =
      (Allowed-IsOrdered params _ _ (run N s events).published id
        (run-Allowed N params now s events h)).1

-- ===== src/Mqtt/Subscriber/SoundStore.antt =====
-- DataPackageSubscriber.ts: new entries and arrays keep the invariant of the store.
use redstone_oracles_monorep.Prelude.{
  ℕ, ◌<◌, suc, String, Option, none, some, [], ◌∷◌, ◌++◌, if_both, All-mono, All-append, ◌≡◌, arith,
  Bool-cases, inl, inr, ◌==◌,
}
use redstone_oracles_monorep.Prelude.Dict.{get, All-get, All-put}
use redstone_oracles_monorep.Relayer.Config.{Numbers}
use redstone_oracles_monorep.Mqtt.FeedState.{LastPublishedFeedState}
use redstone_oracles_monorep.Mqtt.Subscriber.State.{
  DataPackageSubscriber, DataPackageSubscriberParams, Timer, Outcome, map_get, store_at,
}
use redstone_oracles_monorep.Mqtt.Subscriber.Receiving.{
  entry_for, array_for, publish_or_schedule, can_be_published_instantly, can_schedule_publish,
}
use redstone_oracles_monorep.Mqtt.Subscriber.Stores.{same_key, All-map_get}
use redstone_oracles_monorep.Mqtt.Subscriber.Soundness.{
  Meaning, IsEntry, IsArray, IsSound, Sound, with_entry, add_entry-IsSound,
}
use redstone_oracles_monorep.Mqtt.Subscriber.SoundPublish.{publish_packages-Sound}

module _ (N : Numbers) (params : DataPackageSubscriberParams)
    (initial : LastPublishedFeedState) where
  pub add_timer-IsSound :
      (s : DataPackageSubscriber N) (m : Meaning) (timer : Timer)
      → IsSound N params initial s m
      → IsEntry N s m timer.timestamp timer.entry
      → IsSound N params initial (record s { timers = s.timers ++ timer ∷ [] }) m
  add_timer-IsSound s m timer sound held = record {
    same = sound.same;
    accepted = sound.accepted;
    distinct = sound.distinct;
    typed = sound.typed;
    mapped = sound.mapped;
    waiting =
        All-append (λ timer. IsEntry N s m timer.timestamp timer.entry) s.timers (timer ∷ [])
          sound.waiting (held, tt);
    allowed = sound.allowed;
  }

  pub publish_or_schedule-Sound :
      (s : DataPackageSubscriber N) (m : Meaning) (entry timestamp now : ℕ)
      → IsSound N params initial s m
      → IsEntry N s m timestamp entry
      → Sound N params initial (publish_or_schedule N s entry timestamp now).0
  unfolding publish_or_schedule
  publish_or_schedule-Sound s m entry timestamp now sound held =
      if_both (λ (outcome : Outcome N). Sound N params initial outcome.0)
        (can_be_published_instantly N s (s.entries entry)) _ _
        (publish_packages-Sound N params initial s m entry timestamp now sound held)
        (if_both (λ (outcome : Outcome N). Sound N params initial outcome.0)
          (can_schedule_publish N s (s.entries entry)) _ _ (m, add_timer-IsSound s m _ sound held)
          (m, sound))

  -- The entry of a timestamp, new or not.
  pub entry_for-Sound :
      (s : DataPackageSubscriber N) (m : Meaning) (timestamp : ℕ) (found : Option ℕ)
      → IsSound N params initial s m
      → map_get s.packages_per_timestamp timestamp ≡ found
      → (m1 : Meaning) × IsSound N params initial (entry_for N s found).0 m1
        × IsEntry N (entry_for N s found).0 m1 timestamp (entry_for N s found).1
  entry_for-Sound s m timestamp (some entry) sound h = (
    m,
    sound,
    All-map_get (λ (t, e). IsEntry N s m t e) s.packages_per_timestamp timestamp entry h
        sound.mapped,
  )
  entry_for-Sound s m timestamp none sound h = (
    with_entry N params initial s m timestamp,
    add_entry-IsSound N params initial s m timestamp [] sound tt,
    (omega arith, ground arith),
  )

  -- The meaning when an array is allocated.
  abbrev with_array : DataPackageSubscriber N → Meaning → ℕ → String → Meaning
  with_array s m timestamp id = record m {
    array_time = store_at m.array_time s.next_array timestamp;
    array_feed = store_at m.array_feed s.next_array id;
  }

  IsArray-with_array :
      (s : DataPackageSubscriber N) (m : Meaning) (timestamp time : ℕ) (id : String)
      (x : String × ℕ)
      → IsArray N s m time x
      → (x.1 < suc s.next_array)
        × (store_at m.array_feed s.next_array id x.1 ≡ x.0)
        × (store_at m.array_time s.next_array timestamp x.1 ≡ time)
  IsArray-with_array s m timestamp time id (name, array) held =
      ground (arith, held.0, held.1, held.2)

  add_array-IsSound :
      (s : DataPackageSubscriber N) (m : Meaning) (entry timestamp : ℕ) (id : String)
      → IsSound N params initial s m
      → IsEntry N s m timestamp entry
      → IsSound N params initial (array_for N s entry id none).0 (with_array s m timestamp id)
  add_array-IsSound s m entry timestamp id sound held = record {
    same = sound.same;
    accepted = λ a. elim (Bool-cases (a == s.next_array)) [
      | inl fresh ↦ rw fresh tt
      | inr old ↦ rw old (sound.accepted a)
    ];
    distinct = λ a. elim (Bool-cases (a == s.next_array)) [
      | inl fresh ↦ rw fresh (λ signer. omega arith)
      | inr old ↦ rw old (sound.distinct a)
    ];
    typed = λ e. elim (Bool-cases (e == entry)) [
      | inl here ↦ rw here (
          All-put _ (s.entries entry) id s.next_array
            (All-mono (IsArray N s m (m.entry_time e))
              (λ x k. IsArray-with_array s m timestamp (m.entry_time e) id x k) (s.entries entry)
              (rw (same_key e entry here) (sound.typed entry)))
            (omega arith, ground arith, rw (same_key e entry here) (ground (arith, held.1))))
      | inr there ↦ rw there (
          All-mono (IsArray N s m (m.entry_time e))
            (λ x k. IsArray-with_array s m timestamp (m.entry_time e) id x k) (s.entries e)
            (sound.typed e))
    ];
    mapped = sound.mapped;
    waiting = sound.waiting;
    allowed = sound.allowed;
  }

  -- The array of a feed, new or not.
  pub array_for-Sound :
      (s : DataPackageSubscriber N) (m : Meaning) (entry timestamp : ℕ) (id : String)
      (found : Option ℕ)
      → IsSound N params initial s m
      → IsEntry N s m timestamp entry
      → get (s.entries entry) id ≡ found
      → (m1 : Meaning) × IsSound N params initial (array_for N s entry id found).0 m1
        × IsEntry N (array_for N s entry id found).0 m1 timestamp entry
        × IsArray N
            (array_for N s entry id found).0
            m1
            timestamp
            (id, (array_for N s entry id found).1)
  array_for-Sound s m entry timestamp id (some array) sound held h = (
    m,
    sound,
    held,
    All-get (IsArray N s m timestamp) (s.entries entry) id array h
        (rw (← held.1) (sound.typed entry)),
  )
  array_for-Sound s m entry timestamp id none sound held h = (
    with_array s m timestamp id,
    add_array-IsSound s m entry timestamp id sound held,
    held,
    (omega arith, ground arith, ground arith),
  )

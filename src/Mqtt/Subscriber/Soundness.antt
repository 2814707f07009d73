-- ===== src/Mqtt/Subscriber/Soundness.antt =====
-- DataPackageSubscriber.ts: an invariant of the store, and that `publish` keeps it.
use redstone_oracles_monorep.Prelude.{
  ℕ, ◌<◌, suc, String, All, All-mono, All-filter, ◌≡◌, arith, Bool-cases, inl, inr, ◌==◌, not,
}
use redstone_oracles_monorep.Prelude.Dict.{Dict}
use redstone_oracles_monorep.Relayer.Config.{Numbers}
use redstone_oracles_monorep.Mqtt.FeedState.{LastPublishedFeedState}
use redstone_oracles_monorep.Mqtt.Subscriber.State.{
  DataPackageSubscriber, DataPackageSubscriberParams, store_at,
}
use redstone_oracles_monorep.Mqtt.Subscriber.Publishing.{delete_stale, is_stale}
use redstone_oracles_monorep.Mqtt.Subscriber.Contract.{IsAccepted, HasDistinctSigners, Allowed}
use redstone_oracles_monorep.Mqtt.Subscriber.Prepared.{IsCollected}

-- What the addresses of the store stand for: the time of an entry, and the time and feed of an array.
pub record Meaning : Type 0 where
  pub entry_time : ℕ → ℕ
  pub array_time : ℕ → ℕ
  pub array_feed : ℕ → String

module _ (N : Numbers) where
  abbrev pub IsEntry : DataPackageSubscriber N → Meaning → ℕ → ℕ → Type 0
  IsEntry s m timestamp entry = (entry < s.next_entry) × (m.entry_time entry ≡ timestamp)

  abbrev pub IsArray : DataPackageSubscriber N → Meaning → ℕ → (String × ℕ) → Type 0
  IsArray s m timestamp (id, array) =
      (array < s.next_array) × (m.array_feed array ≡ id) × (m.array_time array ≡ timestamp)

  -- Arrays hold accepted packages of one feed and time, entries hold arrays of one time, the map and
  -- the timers hold entries of their times, and the callback was called as the contract allows.
  pub record IsSound (params : DataPackageSubscriberParams) (initial : LastPublishedFeedState)
      (s : DataPackageSubscriber N) (m : Meaning) : Type 0 where
    pub same : s.params ≡ params
    pub accepted :
        (a : ℕ) → All (IsAccepted N s.params (m.array_time a) (m.array_feed a)) (s.arrays a)
    pub distinct : (a : ℕ) → HasDistinctSigners N (s.arrays a)
    pub typed : (e : ℕ) → All (IsArray s m (m.entry_time e)) (s.entries e)
    pub mapped : All (λ (t, e). IsEntry s m t e) s.packages_per_timestamp
    pub waiting : All (λ timer. IsEntry s m timer.timestamp timer.entry) s.timers
    pub allowed : Allowed N s.params initial s.last_published_state s.published

  module _ (params : DataPackageSubscriberParams) (initial : LastPublishedFeedState) where
    abbrev pub Sound : DataPackageSubscriber N → Type 0
    Sound s = (m : Meaning) × IsSound params initial s m

    pub entry-IsCollected :
        (s : DataPackageSubscriber N) (m : Meaning) (timestamp entry : ℕ)
        → IsSound params initial s m
        → IsEntry s m timestamp entry
        → All (IsCollected N s timestamp) (s.entries entry)
    entry-IsCollected s m timestamp entry sound held =
        All-mono (IsArray s m (m.entry_time entry))
          (λ (id, a) array.
            rw (← held.1, ← array.1, ← array.2) (sound.accepted a, sound.distinct a))
          (s.entries entry) (sound.typed entry)

    pub delete_stale-IsSound :
        (s : DataPackageSubscriber N) (m : Meaning) (now : ℕ)
        → IsSound params initial s m
        → IsSound params initial (delete_stale N s now) m
    delete_stale-IsSound s m now sound = record {
      same = sound.same;
      accepted = sound.accepted;
      distinct = sound.distinct;
      typed = sound.typed;
      mapped =
          All-filter (λ (t, e). IsEntry s m t e) (λ (t, _). not (is_stale N now t))
            s.packages_per_timestamp sound.mapped;
      waiting = sound.waiting;
      allowed = sound.allowed;
    }

    -- The meaning when a new entry of the time is allocated.
    abbrev pub with_entry : DataPackageSubscriber N → Meaning → ℕ → Meaning
    with_entry s m timestamp = record m {
      entry_time = store_at m.entry_time s.next_entry timestamp;
    }

    pub IsEntry-with_entry :
        (s : DataPackageSubscriber N) (m : Meaning) (fresh timestamp entry : ℕ)
        → IsEntry s m timestamp entry
        → (entry < suc s.next_entry) × (store_at m.entry_time s.next_entry fresh entry ≡ timestamp)
    IsEntry-with_entry s m fresh timestamp entry held = ground (arith, held.0, held.1)

    -- A new entry, with arrays of its time.
    pub add_entry-IsSound :
        (s : DataPackageSubscriber N) (m : Meaning) (timestamp : ℕ) (entry : Dict ℕ)
        → IsSound params initial s m
        → All (IsArray s m timestamp) entry
        → IsSound params initial
            (record s {
              entries = store_at s.entries s.next_entry entry;
              next_entry = suc s.next_entry;
            })
            (with_entry s m timestamp)
    add_entry-IsSound s m timestamp entry sound arrays = record {
      same = sound.same;
      accepted = sound.accepted;
      distinct = sound.distinct;
      typed = λ e. elim (Bool-cases (e == s.next_entry)) [
        | inl fresh ↦ rw fresh arrays
        | inr old ↦ rw old (sound.typed e)
      ];
      mapped =
          All-mono (λ (t, e). IsEntry s m t e)
            (λ (t, e) held. IsEntry-with_entry s m timestamp t e held) s.packages_per_timestamp
            sound.mapped;
      waiting =
          All-mono (λ timer. IsEntry s m timer.timestamp timer.entry)
            (λ timer held. IsEntry-with_entry s m timestamp timer.timestamp timer.entry held)
            s.timers sound.waiting;
      allowed = sound.allowed;
    }

-- ===== src/Mqtt/Subscriber/Timing.antt =====
-- DataPackageSubscriber.ts: what `processNewPackage` does on each of its branches.
use redstone_oracles_monorep.Prelude.{ℕ, Option, none, some, ◌≡◌, refl}
use redstone_oracles_monorep.Relayer.Config.{Numbers}
use redstone_oracles_monorep.Mqtt.Subscriber.State.{DataPackageSubscriber}
use redstone_oracles_monorep.Mqtt.Subscriber.Receiving.{entry_for}
use redstone_oracles_monorep.Mqtt.Subscriber.Reaction.{Reaction}

module _ (N : Numbers) where
  -- The fields that finding or making an entry and an array leaves.
  record IsSame (s t : DataPackageSubscriber N) : Type 0 where
    same_params : t.params ≡ s.params
    same_published : t.published ≡ s.published
    same_state : t.last_published_state ≡ s.last_published_state
    same_timers : t.timers ≡ s.timers

  arrays-entry_for :
      (s : DataPackageSubscriber N) (found : Option ℕ) → (entry_for N s found).0.arrays ≡ s.arrays
  arrays-entry_for s (some entry) = refl
  arrays-entry_for s none = refl

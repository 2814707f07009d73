-- ===== src/Mqtt/Subscriber/SoundReceive.antt =====
-- DataPackageSubscriber.ts: `processNewPackage` keeps the invariant of the store.
use redstone_oracles_monorep.Prelude.{
  ℕ, String, Bool, true, false, Option, none, some, Result, ok, err, if◌then◌else◌, if_both, any,
  ◌≡◌, refl, sym, ◌∙◌, str_eq,
}
use redstone_oracles_monorep.Prelude.Dict.{get}
use redstone_oracles_monorep.Relayer.Config.{Numbers, SignedDataPackage}
use redstone_oracles_monorep.Mqtt.FeedState.{LastPublishedFeedState, is_newer_than_last_published}
use redstone_oracles_monorep.Mqtt.Subscriber.State.{
  unauthorized_signer, DataPackageSubscriber, DataPackageSubscriberParams, SubscriberError, Outcome,
  map_get,
}
use redstone_oracles_monorep.Mqtt.Subscriber.Receiving.{
  is_signed_already, entry_for, array_for, add_package, add_unless_signed, store_package,
  accept_package, process_new_package,
}
use redstone_oracles_monorep.Mqtt.Subscriber.Soundness.{Meaning, IsEntry, IsArray, IsSound, Sound}
use redstone_oracles_monorep.Mqtt.Subscriber.SoundAdd.{add_package-IsSound}
use redstone_oracles_monorep.Mqtt.Subscriber.SoundStore.{
  publish_or_schedule-Sound, entry_for-Sound, array_for-Sound,
}

module _ (N : Numbers) (params : DataPackageSubscriberParams)
    (initial : LastPublishedFeedState) where
  add_unless_signed-Sound :
      (s : DataPackageSubscriber N) (m : Meaning) (pkg : SignedDataPackage N) (signer : String)
      (entry array : ℕ) (answer : Result SubscriberError Bool) (now : ℕ)
      → IsSound N params initial s m
      → IsEntry N s m pkg.timestamp entry
      → IsArray N s m pkg.timestamp (pkg.data_package_id, array)
      → pkg.signer ≡ some signer
      → any (λ known. str_eq known signer) s.params.authorized_signers ≡ true
      → is_signed_already N signer (s.arrays array) ≡ answer
      → Sound N params initial (add_unless_signed N s pkg entry array answer now).0
  add_unless_signed-Sound s m pkg signer entry array (err thrown) now sound held owned signed known
        e =
      (m, sound)
  add_unless_signed-Sound s m pkg signer entry array (ok true) now sound held owned signed known e =
      (m, sound)
  add_unless_signed-Sound s m pkg signer entry array (ok false) now sound held owned signed known
        e =
      publish_or_schedule-Sound N params initial (add_package N s pkg entry array) m entry
        pkg.timestamp now
        (add_package-IsSound N params initial s m pkg signer entry array sound held owned signed
          known e)
        held

  same_params :
      (s s1 : DataPackageSubscriber N) (m m1 : Meaning)
      → IsSound N params initial s m
      → IsSound N params initial s1 m1
      → s1.params ≡ s.params
  same_params s s1 m m1 sound sound1 = sound1.same ∙ sym sound.same

  store_package-Sound :
      (s : DataPackageSubscriber N) (m : Meaning) (pkg : SignedDataPackage N) (signer : String)
      (now : ℕ)
      → IsSound N params initial s m
      → pkg.signer ≡ some signer
      → any (λ known. str_eq known signer) s.params.authorized_signers ≡ true
      → Sound N params initial (store_package N s pkg signer now).0
  unfolding store_package
  store_package-Sound s m pkg signer now sound signed known =
      let found = map_get s.packages_per_timestamp pkg.timestamp in
      let (m1, sound1, held) =
        entry_for-Sound N params initial s m pkg.timestamp found sound refl in
      let s1 = (entry_for N s found).0 in
      let entry = (entry_for N s found).1 in
      let listed = get (s1.entries entry) pkg.data_package_id in
      let (m2, sound2, held2, owned) =
        array_for-Sound N params initial s1 m1 entry pkg.timestamp pkg.data_package_id listed sound1
          held refl in
      let s2 = (array_for N s1 entry pkg.data_package_id listed).0 in
      let array = (array_for N s1 entry pkg.data_package_id listed).1 in
      add_unless_signed-Sound s2 m2 pkg signer entry array
        (is_signed_already N signer (s2.arrays array)) now sound2 held2 owned signed
        (rw (same_params s s2 m m2 sound sound2) known) refl

  accept_package-Sound :
      (s : DataPackageSubscriber N) (m : Meaning) (pkg : SignedDataPackage N) (o : Option String)
      (now : ℕ)
      → IsSound N params initial s m
      → pkg.signer ≡ o
      → Sound N params initial (accept_package N s pkg o now).0
  accept_package-Sound s m pkg none now sound signed = (m, sound)
  accept_package-Sound s m pkg (some signer) now sound signed =
      if_known (any (λ known. str_eq known signer) s.params.authorized_signers) refl
    where
      if_known :
          (b : Bool)
          → any (λ known. str_eq known signer) s.params.authorized_signers ≡ b
          → Sound N params initial
              (if b
                then if is_newer_than_last_published s.last_published_state pkg.data_package_id
                    pkg.timestamp
                  then store_package N s pkg signer now
                  else (s, none)
                else (s, some unauthorized_signer)).0
      if_known true known =
          if_both (λ (outcome : Outcome N). Sound N params initial outcome.0)
            (is_newer_than_last_published s.last_published_state pkg.data_package_id pkg.timestamp)
            _ _ (store_package-Sound s m pkg signer now sound signed known) (m, sound)
      if_known false unknown = (m, sound)

  -- Any payload may arrive at any time.
  pub process_new_package-Sound :
      (s : DataPackageSubscriber N) (m : Meaning) (received : Option (SignedDataPackage N))
      (now : ℕ)
      → IsSound N params initial s m
      → Sound N params initial (process_new_package N s received now).0
  unfolding process_new_package
  process_new_package-Sound s m none now sound = (m, sound)
  process_new_package-Sound s m (some pkg) now sound =
      if_both (λ (outcome : Outcome N). Sound N params initial outcome.0)
        (any (λ id. str_eq id pkg.data_package_id) s.params.data_package_ids) _ _
        (accept_package-Sound s m pkg pkg.signer now sound refl) (m, sound)

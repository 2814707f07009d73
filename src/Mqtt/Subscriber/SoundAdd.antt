-- ===== src/Mqtt/Subscriber/SoundAdd.antt =====
-- DataPackageSubscriber.ts: a package of a new signer may be added to its array.
use redstone_oracles_monorep.Prelude.{
  ℕ, ◌+◌, String, Bool, true, false, Option, none, some, List, [], ◌∷◌, ◌++◌, Result, ok,
  if◌then◌else◌, any, All-append, ◌≡◌, refl, sym, arith, eq_iff, Bool-cases, inl, inr, ◌==◌, str_eq,
}
use redstone_oracles_monorep.Relayer.Config.{Numbers, SignedDataPackage}
use redstone_oracles_monorep.Sdk.Sorting.{count}
use redstone_oracles_monorep.Mqtt.FeedState.{LastPublishedFeedState}
use redstone_oracles_monorep.Mqtt.Subscriber.State.{
  DataPackageSubscriber, DataPackageSubscriberParams, SubscriberError,
}
use redstone_oracles_monorep.Mqtt.Subscriber.Receiving.{
  compare_signer, is_signed_already, add_package,
}
use redstone_oracles_monorep.Mqtt.Subscriber.Contract.{
  IsAccepted, HasDistinctSigners, is_signed_by, is_signer,
}
use redstone_oracles_monorep.Mqtt.Subscriber.Stores.{same_key, All-map_set}
use redstone_oracles_monorep.Mqtt.Subscriber.Soundness.{Meaning, IsEntry, IsArray, IsSound}

module _ (N : Numbers) where
  not_found :
      (b : Bool) (rest : Result SubscriberError Bool)
      → (if b then ok true else rest) ≡ ok false
      → (b ≡ false) × (rest ≡ ok false)
  not_found true rest h = cc
  not_found false rest h = (refl, h)

  compare_signer-eq-false :
      (o : Option String) (signer : String) (rest : Result SubscriberError Bool)
      → compare_signer N o signer rest ≡ ok false
      → (is_signer N o signer ≡ false) × (rest ≡ ok false)
  compare_signer-eq-false none signer rest h = cc
  compare_signer-eq-false (some other) signer rest h = not_found (str_eq other signer) rest h

  -- When the check finds no package of the signer there is none.
  count-is_signed_already :
      (signer : String) (packages : List (SignedDataPackage N))
      → is_signed_already N signer packages ≡ ok false
      → count (is_signed_by N signer) packages ≡ 0
  count-is_signed_already signer [] h = omega arith
  count-is_signed_already signer (pkg ∷ packages) h =
      let (differs, absent) =
        compare_signer-eq-false pkg.signer signer (is_signed_already N signer packages) h in
      ground (arith, differs, count-is_signed_already signer packages absent)

  count-append :
      {A : Type 0} (p : A → Bool) (xs : List A) (x : A)
      → count p (xs ++ x ∷ []) ≡ count p xs + (if p x then 1 else 0)
  count-append p [] x = ground arith
  count-append p (y ∷ ys) x = ground (arith, count-append p ys x)

  add-HasDistinctSigners :
      (packages : List (SignedDataPackage N)) (pkg : SignedDataPackage N) (signer : String)
      → pkg.signer ≡ some signer
      → is_signed_already N signer packages ≡ ok false
      → HasDistinctSigners N packages
      → HasDistinctSigners N (packages ++ pkg ∷ [])
  add-HasDistinctSigners packages pkg signer signed absent distinct other =
      elim (Bool-cases (str_eq signer other)) [
        | inl same ↦
            let e : signer ≡ other = ground (arith, eq_iff signer other) in
            let none_yet : count (is_signed_by N other) packages ≡ 0 =
              rw (← e) (count-is_signed_already signer packages absent) in
            ground (arith, count-append (is_signed_by N other) packages pkg, none_yet)
        | inr differs ↦
            let unsigned : is_signed_by N other pkg ≡ false = rw signed differs in
            ground (arith, count-append (is_signed_by N other) packages pkg, distinct other)
      ]

  pub add_package-IsSound :
      (params : DataPackageSubscriberParams) (initial : LastPublishedFeedState)
      (s : DataPackageSubscriber N) (m : Meaning) (pkg : SignedDataPackage N) (signer : String)
      (entry array : ℕ)
      → IsSound N params initial s m
      → IsEntry N s m pkg.timestamp entry
      → IsArray N s m pkg.timestamp (pkg.data_package_id, array)
      → pkg.signer ≡ some signer
      → any (λ known. str_eq known signer) s.params.authorized_signers ≡ true
      → is_signed_already N signer (s.arrays array) ≡ ok false
      → IsSound N params initial (add_package N s pkg entry array) m
  add_package-IsSound params initial s m pkg signer entry array sound held owned signed known
        absent =
      record {
        same = sound.same;
        accepted = λ a. elim (Bool-cases (a == array)) [
          | inl here ↦
              let e = same_key a array here in
              let own : IsAccepted N s.params (m.array_time array) (m.array_feed array) pkg =
                (sym owned.2, sym owned.1, signer, signed, known) in
              rw here (
                All-append _ (s.arrays array) (pkg ∷ []) (rw e (sound.accepted array))
                  (rw e own, tt))
          | inr there ↦ rw there (sound.accepted a)
        ];
        distinct = λ a. elim (Bool-cases (a == array)) [
          | inl here ↦ rw here (
              add-HasDistinctSigners (s.arrays array) pkg signer signed absent
                (sound.distinct array))
          | inr there ↦ rw there (sound.distinct a)
        ];
        typed = sound.typed;
        mapped =
            All-map_set (λ (t, e). IsEntry N s m t e) s.packages_per_timestamp pkg.timestamp entry
              sound.mapped held;
        waiting = sound.waiting;
        allowed = sound.allowed;
      }

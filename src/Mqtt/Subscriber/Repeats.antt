-- ===== src/Mqtt/Subscriber/Repeats.antt =====
-- DataPackageSubscriber.ts: the fallback's answer is published as a whole.
use redstone_oracles_monorep.Prelude.{
  ℕ, ◌≤◌, String, true, some, List, ◌∷◌, ok, ◌≡◌, refl, ap, ◌∙◌, arith,
}
use mathlib.Core.Path.{subst}
use redstone_oracles_monorep.Prelude.Dict.{get}
use redstone_oracles_monorep.Relayer.Config.{Numbers, SignedDataPackage, DataPackagesResponse}
use redstone_oracles_monorep.Mqtt.Subscriber.State.{DataPackageSubscriber}
use redstone_oracles_monorep.Mqtt.Subscriber.Fallback.{
  on_fallback_answer, fallback_timestamp, newer_packages_only,
}
use redstone_oracles_monorep.Mqtt.Subscriber.Order.{IsDecreasing, published_times}

module _ (N : Numbers) where
  answer_published :
      (s : DataPackageSubscriber N) (response : DataPackagesResponse N)
      (newer : String × List (SignedDataPackage N)) (others : DataPackagesResponse N)
      (timestamp : ℕ)
      → s.has_callback ≡ true
      → fallback_timestamp N response ≡ ok timestamp
      → newer_packages_only N s response ≡ ok (newer ∷ others)
      → (on_fallback_answer N s (ok response)).0.published ≡ response ∷ s.published
  unfolding on_fallback_answer
  answer_published s response newer others timestamp installed first filtered =
      rw (first, filtered, installed) refl

  -- If the fallback's answer has a feed that is newer, and packages of another feed that are not
  -- newer than those published last, then with a callback these are published too, and the times of
  -- that feed's publications do not grow strictly.
  pub on_fallback_answer-IsDecreasing :
      (s : DataPackageSubscriber N) (response : DataPackagesResponse N)
      (newer : String × List (SignedDataPackage N)) (others : DataPackagesResponse N)
      (timestamp : ℕ) (id : String) (pkg : SignedDataPackage N)
      (packages : List (SignedDataPackage N)) (last : ℕ) (times : List ℕ)
      → s.has_callback ≡ true
      → fallback_timestamp N response ≡ ok timestamp
      → newer_packages_only N s response ≡ ok (newer ∷ others)
      → get response id ≡ some (pkg ∷ packages)
      → published_times N id s.published ≡ last ∷ times
      → pkg.timestamp ≤ last
      → ¬ IsDecreasing (published_times N id (on_fallback_answer N s (ok response)).0.published)
  on_fallback_answer-IsDecreasing s response newer others timestamp id pkg packages last times
        installed first filtered present before old decreasing =
      let e : published_times N id (on_fallback_answer N s (ok response)).0.published
          ≡ pkg.timestamp ∷ last ∷ times =
        ap (published_times N id)
          (answer_published s response newer others timestamp installed first filtered)
        ∙ rw (present, before) refl in
      let k : IsDecreasing (pkg.timestamp ∷ last ∷ times) = subst IsDecreasing e decreasing in
      absurd (omega (arith, k.0.0))

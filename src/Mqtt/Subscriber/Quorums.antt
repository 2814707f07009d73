-- ===== src/Mqtt/Subscriber/Quorums.antt =====
-- DataPackageSubscriber.ts: `canBePublishedInstantly` and `canSchedulePublish` decide whether packages
-- are complete, and whether they are enough.
use redstone_oracles_monorep.Prelude.{
  ℕ, String, Bool, true, some, List, [], ◌∷◌, length, any, every, All, ◌≡◌, refl, sym, ◌∙◌, ◌↔◌,
  inl, inr, arith, Bool-cases, Option-cases,
}
use redstone_oracles_monorep.Prelude.Dict.{get}
use redstone_oracles_monorep.Relayer.Config.{Numbers}
use redstone_oracles_monorep.Mqtt.Subscriber.State.{DataPackageSubscriber, map_get}
use redstone_oracles_monorep.Mqtt.Subscriber.Receiving.{
  has_length, has_at_least, can_be_published_instantly, can_schedule_publish, publish_or_schedule,
}
use redstone_oracles_monorep.Mqtt.Subscriber.Reaction.{
  Some, array_of, HasAll, HasMinimum, IsComplete, IsEnough, Continues, publishes, schedules, waits,
}

module _ {A : Type 0} (p : A → Bool) (P : A → Type 0) (decides : (x : A) → (p x ≡ true) ↔ P x) where
  every-All : (xs : List A) → (every p xs ≡ true) ↔ All P xs
  every-All [] = ((λ h. tt), (λ all. refl))
  every-All (x ∷ xs) = (
    (λ h. ((decides x).0 (ground (arith, h)), (every-All xs).0 (ground (arith, h)))),
    (λ all. ground (arith, (decides x).1 all.0, (every-All xs).1 all.1)),
  )

  any-Some : (xs : List A) → (any p xs ≡ true) ↔ Some P xs
  any-Some [] = ((λ h. cc), (λ none_holds. absurd none_holds))
  any-Some (x ∷ xs) = (
    (λ h. elim (Bool-cases (p x)) [
      | inl holds ↦ inl ((decides x).0 holds)
      | inr fails ↦ inr ((any-Some xs).0 (ground (arith, h, fails)))
    ]),
    (λ some_hold. elim some_hold [
      | inl holds ↦ (let e = (decides x).1 holds in ground (arith, e))
      | inr later ↦ (let e = (any-Some xs).1 later in ground (arith, e))
    ]),
  )

module _ (N : Numbers) (s : DataPackageSubscriber N) (timestamp entry : ℕ)
    (held : map_get s.packages_per_timestamp timestamp ≡ some entry) where
  listed : (id : String) → array_of N s timestamp id ≡ get (s.entries entry) id
  listed id = rw held

  has_length-HasAll :
      (id : String)
      → (has_length N s (get (s.entries entry) id) (length s.params.authorized_signers) ≡ true)
        ↔ HasAll N s timestamp id
  has_length-HasAll id = elim (Option-cases (get (s.entries entry) id)) [
    | inl missing ↦ (
      (λ h. let k = rw missing at h in cc),
      (λ (array, found, e). let k = sym found ∙ listed id ∙ missing in cc),
    )
    | inr (array, present) ↦ (
      (λ h. let k = rw present at h in (array, listed id ∙ present, ground (arith, k))),
      (λ (other, found, e).
          let k = sym (listed id ∙ present) ∙ found in rw present (ground (arith, k, e))),
    )
  ]

  has_at_least-HasMinimum :
      (id : String)
      → (has_at_least N s (get (s.entries entry) id) s.params.minimal_off_chain_signers_count
          ≡ true)
        ↔ HasMinimum N s timestamp id
  has_at_least-HasMinimum id = elim (Option-cases (get (s.entries entry) id)) [
    | inl missing ↦ (
      (λ h. let k = rw missing at h in cc),
      (λ (array, found, e). let k = sym found ∙ listed id ∙ missing in cc),
    )
    | inr (array, present) ↦ (
      (λ h. let k = rw present at h in (array, listed id ∙ present, ground (arith, k))),
      (λ (other, found, e).
          let k = sym (listed id ∙ present) ∙ found in rw present (ground (arith, k, e))),
    )
  ]

  can_be_published_instantly-IsComplete :
      (can_be_published_instantly N s (s.entries entry) ≡ true) ↔ IsComplete N s timestamp
  unfolding can_be_published_instantly
  can_be_published_instantly-IsComplete =
      every-All _ (HasAll N s timestamp) has_length-HasAll s.params.data_package_ids

  can_schedule_publish-IsEnough :
      (can_schedule_publish N s (s.entries entry) ≡ true) ↔ IsEnough N s timestamp
  unfolding can_schedule_publish
  can_schedule_publish-IsEnough =
      let some_feed =
        any-Some _ (HasMinimum N s timestamp) has_at_least-HasMinimum s.params.data_package_ids in
      let each_feed =
        every-All _ (HasMinimum N s timestamp) has_at_least-HasMinimum s.params.data_package_ids in
      elim (Bool-cases s.params.ignore_missing_feeds) [
        | inl ignored ↦ (
          (λ h. inl (ignored, some_feed.0 (rw ignored at h))),
          (λ enough. elim enough [
            | inl (_, found) ↦ rw ignored (some_feed.1 found)
            | inr (strict, _) ↦ cc
          ]),
        )
        | inr strict ↦ (
          (λ h. inr (strict, each_feed.0 (rw strict at h))),
          (λ enough. elim enough [
            | inl (ignored, _) ↦ cc
            | inr (_, all) ↦ rw strict (each_feed.1 all)
          ]),
        )
      ]

  pub publish_or_schedule-Continues :
      (now : ℕ) → Continues N s timestamp now (publish_or_schedule N s entry timestamp now).0
  unfolding publish_or_schedule
  publish_or_schedule-Continues now =
      elim (Bool-cases (can_be_published_instantly N s (s.entries entry))) [
        | inl at_once ↦
            rw at_once (publishes entry held (can_be_published_instantly-IsComplete.0 at_once))
        | inr later ↦
            let incomplete : ¬ IsComplete N s timestamp =
              λ complete. (let e = can_be_published_instantly-IsComplete.1 complete in cc) in
            elim (Bool-cases (can_schedule_publish N s (s.entries entry))) [
              | inl enough ↦
                  rw (later, enough)
                    (schedules entry held incomplete (can_schedule_publish-IsEnough.0 enough))
              | inr few ↦
                  rw (later, few)
                    (waits incomplete
                      (λ enough. (let e = can_schedule_publish-IsEnough.1 enough in cc)))
            ]
      ]

-- ===== src/Mqtt/Subscriber/Prepared.antt =====
-- DataPackageSubscriber.ts: what `preparePackagesBeforePublish` leaves may be published.
use redstone_oracles_monorep.Prelude.{
  if_either, ℕ, String, Bool, true, false, List, [], ◌∷◌, Result, ok, err, ◌>>=◌, >>=-eq-ok,
  ok_injective, if◌then◌else◌, leb, length, All, All-mono, ◌≡◌, refl, sym, ap, ◌∙◌, arith,
}
use redstone_oracles_monorep.Prelude.Dict.{Dict}
use redstone_oracles_monorep.Relayer.Config.{
  Numbers, RelayerError, SignedDataPackage, DataPackagesResponse,
}
use redstone_oracles_monorep.Sdk.Closest.{pick_data_feed_packages_closest_to_median}
use redstone_oracles_monorep.Sdk.Picking.{count-pick, All-pick, length-pick}
use redstone_oracles_monorep.Mqtt.FeedState.{
  LastPublishedFeedState, is_newer_than_last_published, FeedStateError,
  filter_out_not_newer_packages,
}
use redstone_oracles_monorep.Mqtt.Subscriber.State.{not_picked, not_filtered, DataPackageSubscriber}
use redstone_oracles_monorep.Mqtt.Subscriber.Publishing.{
  first_time, select_packages, prepare_packages_before_publish, rename_error,
}
use redstone_oracles_monorep.Mqtt.Subscriber.Contract.{
  IsAccepted, IsQuorum, IsSelection, IsPublishable, HasDistinctSigners, is_signed_by,
}

keep-All :
    {W : Type 0} (Q : W → Type 0) (keeps : Bool) (x : W) (rest kept : List W)
    → (if keeps then x ∷ rest else rest) ≡ kept
    → ((keeps ≡ true) → Q x)
    → All Q rest
    → All Q kept
keep-All Q true x rest kept h holds others = rw (← h) (holds refl, others)
keep-All Q false x rest kept h holds others = rw (← h) others

-- What filtering keeps was there, and is newer by its first package.
pub filter_out_lem :
    {V : Type 0} (read_first : V → Result FeedStateError ℕ) (Q : String × V → Type 0)
    (last : LastPublishedFeedState) (response kept : Dict V)
    → filter_out_not_newer_packages read_first last response ≡ ok kept
    → All Q response
    → All
        (λ e.
          Q e
          × (t : ℕ) × (read_first e.1 ≡ ok t)
          × (is_newer_than_last_published last e.0 t ≡ true))
        kept
unfolding filter_out_not_newer_packages
filter_out_lem read_first Q last [] kept h all = rw (← ok_injective h) tt
filter_out_lem read_first Q last ((id, packages) ∷ response) kept h all =
    let (t, first, h1) = >>=-eq-ok (read_first packages) _ h in
    let (rest, filtered, h2) =
      >>=-eq-ok (filter_out_not_newer_packages read_first last response) _ h1 in
    let others = filter_out_lem read_first Q last response rest filtered all.1 in
    keep-All _ (is_newer_than_last_published last id t) (id, packages) rest kept (ok_injective h2)
      (λ newer. (all.0, t, first, newer)) others

pub rename_error-eq-ok :
    {E F : Type 0} {A : Type 0} (wrap : E → F) (r : Result E A) (out : A)
    → rename_error wrap r ≡ ok out
    → r ≡ ok out
rename_error-eq-ok wrap (err thrown) out h = cc
rename_error-eq-ok wrap (ok value) out h = ap ok (ok_injective h)

module _ (N : Numbers) (s : DataPackageSubscriber N) where
  -- What an entry of the store holds for a feed: accepted packages of different signers.
  abbrev pub IsCollected : ℕ → (String × ℕ) → Type 0
  IsCollected timestamp (id, array) =
      All (IsAccepted N s.params timestamp id) (s.arrays array)
      × HasDistinctSigners N (s.arrays array)

  pick-IsSelection :
      (timestamp : ℕ) (id : String) (packages picked : List (SignedDataPackage N))
      → pick_data_feed_packages_closest_to_median N packages s.params.unique_signers_count
        ≡ ok picked
      → leb s.params.unique_signers_count (length picked) ≡ true
      → IsQuorum N s.params timestamp id packages
      → IsSelection N s.params timestamp (id, picked)
  pick-IsSelection timestamp id packages picked h enough (many, accepted, distinct) = (
    ground (arith, length-pick N packages s.params.unique_signers_count picked h),
    All-pick N (IsAccepted N s.params timestamp id) packages _ picked h accepted,
    (λ signer. omega (
      arith,
      count-pick N packages s.params.unique_signers_count picked (is_signed_by N signer) h,
      distinct signer,
    )),
    packages,
    (many, accepted, distinct),
    h,
  )

  select_picked :
      (timestamp : ℕ) (id : String) (array : ℕ)
      (others : Result RelayerError (DataPackagesResponse N)) (selected : DataPackagesResponse N)
      → (pick_data_feed_packages_closest_to_median N (s.arrays array) s.params.unique_signers_count
          >>= λ picked. others >>= λ rest. ok (
              if leb s.params.unique_signers_count (length picked)
              then (id, picked) ∷ rest
              else rest))
        ≡ ok selected
      → IsQuorum N s.params timestamp id (s.arrays array)
      → ((rest : DataPackagesResponse N)
          → others ≡ ok rest
          → All (IsSelection N s.params timestamp) rest)
      → All (IsSelection N s.params timestamp) selected
  select_picked timestamp id array others selected h quorum recursive =
      let (picked, pick, h1) =
        >>=-eq-ok
          (pick_data_feed_packages_closest_to_median N (s.arrays array)
            s.params.unique_signers_count)
          _ h in
      let (rest, given, h2) = >>=-eq-ok others _ h1 in
      keep-All (IsSelection N s.params timestamp)
        (leb s.params.unique_signers_count (length picked)) (id, picked) rest selected
        (ok_injective h2)
        (λ enough. pick-IsSelection timestamp id (s.arrays array) picked pick enough quorum)
        (recursive rest given)

  pub select_packages_lem :
      (timestamp : ℕ) (entry : Dict ℕ) (selected : DataPackagesResponse N)
      → select_packages N s entry ≡ ok selected
      → All (IsCollected timestamp) entry
      → All (IsSelection N s.params timestamp) selected
  unfolding select_packages
  select_packages_lem timestamp [] selected h all = rw (← ok_injective h) tt
  select_packages_lem timestamp ((id, array) ∷ entry) selected h all =
      if_either (leb s.params.minimal_off_chain_signers_count (length (s.arrays array))) _ _ h
        (λ many e.
          select_picked timestamp id array (select_packages N s entry) selected e
            (ground (arith, many), all.0.0, all.0.1)
            (λ rest given. select_packages_lem timestamp entry rest given all.1))
        (λ few e. select_packages_lem timestamp entry selected e all.1)

  -- The packages of one feed and time lie at the first one's time.
  selection-IsPublishable :
      (last : LastPublishedFeedState) (timestamp : ℕ) (e : String × List (SignedDataPackage N))
      → IsSelection N s.params timestamp e
        × (t : ℕ) × (first_time N e.1 ≡ ok t)
        × (is_newer_than_last_published last e.0 t ≡ true)
      → IsPublishable N s.params last timestamp e
  selection-IsPublishable last timestamp (id, []) (chosen, t, first, newer) = cc
  selection-IsPublishable last timestamp (id, pkg ∷ packages) (chosen, t, first, newer) =
      let same : t ≡ timestamp = sym (ok_injective first) ∙ chosen.1.0.0 in
      rw (← same) (rw same chosen, first, newer)

  pub prepare_packages-IsPublishable :
      (entry timestamp : ℕ) (prepared : DataPackagesResponse N)
      → prepare_packages_before_publish N s entry ≡ ok prepared
      → All (IsCollected timestamp) (s.entries entry)
      → All (IsPublishable N s.params s.last_published_state timestamp) prepared
  unfolding prepare_packages_before_publish
  prepare_packages-IsPublishable entry timestamp prepared h all =
      let (selected, e1, h1) =
        >>=-eq-ok (rename_error not_picked (select_packages N s (s.entries entry))) _ h in
      let e2 = rename_error-eq-ok not_picked (select_packages N s (s.entries entry)) selected e1 in
      let e3 =
        rename_error-eq-ok not_filtered
          (filter_out_not_newer_packages (first_time N) s.last_published_state selected) prepared
          h1 in
      All-mono _ (selection-IsPublishable s.last_published_state timestamp) prepared (
        filter_out_lem (first_time N) (IsSelection N s.params timestamp) s.last_published_state
          selected prepared e3 (select_packages_lem timestamp (s.entries entry) selected e2 all))

-- ===== src/Sdk/Picking.antt =====
-- What pick-closest-to-median.ts picks.
use redstone_oracles_monorep.Prelude.{
  ℕ, zero, suc, ◌≤◌, Bool, true, false, List, [], ◌∷◌, ◌++◌, ok, >>=-eq-ok, ok_injective, length,
  take, drop, All, All-take, All-take, min, length-take, length-map, take-append-drop, ◌≡◌, refl,
  ap, sym, ◌∙◌, arith,
}
use redstone_oracles_monorep.Prelude.Dict.{Dict}
use redstone_oracles_monorep.Relayer.Config.{Numbers, SignedDataPackage}
use redstone_oracles_monorep.Sdk.Closest.{
  sort_by, Distanced, with_distances, is_closer, packages_of, get_all_values, all_medians,
  pick_data_feed_packages_closest_to_median, get_max_distance_from_median,
}
use redstone_oracles_monorep.Sdk.Sorting.{
  count, count-take, count-sort_by, length-sort_by, All-sort_by, sort_by-Sorted, Sorted-take-drop,
}

module _ (N : Numbers) where
  packages_of-with_distances :
      (packages : List (SignedDataPackage N)) (medians : _) (distanced : List (Distanced N))
      → with_distances N packages medians ≡ ok distanced
      → packages_of N distanced ≡ packages
  unfolding with_distances
  packages_of-with_distances [] medians distanced h = rw (← ok_injective h) refl
  packages_of-with_distances (pkg ∷ packages) medians distanced h =
      let (diff, _, h1) = >>=-eq-ok (get_max_distance_from_median N pkg medians) _ h in
      let (rest, known, h2) = >>=-eq-ok (with_distances N packages medians) _ h1 in
      rw (← ok_injective h2)
        (ap (λ ps. pkg ∷ ps) (packages_of-with_distances packages medians rest known))

  -- The parts of a pick that has not thrown.
  pick-ok :
      (packages : List (SignedDataPackage N)) (n : ℕ) (picked : List (SignedDataPackage N))
      → pick_data_feed_packages_closest_to_median N packages n ≡ ok picked
      → (medians : Dict N.Float) × (distanced : List (Distanced N)) × (all_medians N
            (get_all_values N packages)
          ≡ ok medians)
        × (with_distances N packages medians ≡ ok distanced)
        × (take n (packages_of N (sort_by (is_closer N) distanced)) ≡ picked)
  unfolding pick_data_feed_packages_closest_to_median
  pick-ok packages n picked h =
      let (medians, tables, h1) = >>=-eq-ok (all_medians N (get_all_values N packages)) _ h in
      let (distanced, known, h2) = >>=-eq-ok (with_distances N packages medians) _ h1 in
      (medians, distanced, tables, known, ok_injective h2)

  count-map :
      (p : SignedDataPackage N → Bool) (ds : List (Distanced N))
      → count p (packages_of N ds) ≡ count (λ d. p d.dp) ds
  count-map p [] = refl
  count-map p (d ∷ ds) = ground (arith, count-map p ds)

  pub count-pick :
      (packages : List (SignedDataPackage N)) (n : ℕ) (picked : List (SignedDataPackage N))
      (p : SignedDataPackage N → Bool)
      → pick_data_feed_packages_closest_to_median N packages n ≡ ok picked
      → count p picked ≤ count p packages
  count-pick packages n picked p h =
      let (medians, distanced, _, known, took) = pick-ok packages n picked h in
      let from = packages_of-with_distances packages medians distanced known in
      omega (
        arith,
        (let e : count p picked ≤ count p (packages_of N (sort_by (is_closer N) distanced)) =
              rw (← took) (count-take p n (packages_of N (sort_by (is_closer N) distanced))) in
            e),
        count-map p (sort_by (is_closer N) distanced),
        count-sort_by (is_closer N) (λ d. p d.dp) distanced,
        count-map p distanced,
        (let e : count p (packages_of N distanced) ≡ count p packages = rw from refl in e),
      )

  All-packages_of :
      (P : SignedDataPackage N → Type 0) (ds : List (Distanced N))
      → All P (packages_of N ds)
      → All (λ d. P d.dp) ds
  All-packages_of P [] h = tt
  All-packages_of P (d ∷ ds) h = (h.0, All-packages_of P ds h.1)

  packages_of-All :
      (P : SignedDataPackage N → Type 0) (ds : List (Distanced N))
      → All (λ d. P d.dp) ds
      → All P (packages_of N ds)
  packages_of-All P [] h = tt
  packages_of-All P (d ∷ ds) h = (h.0, packages_of-All P ds h.1)

  -- What holds of all packages holds of those picked.
  pub All-pick :
      (P : SignedDataPackage N → Type 0) (packages : List (SignedDataPackage N)) (n : ℕ)
      (picked : List (SignedDataPackage N))
      → pick_data_feed_packages_closest_to_median N packages n ≡ ok picked
      → All P packages
      → All P picked
  All-pick P packages n picked h all =
      let (medians, distanced, _, known, took) = pick-ok packages n picked h in
      let from = packages_of-with_distances packages medians distanced known in
      rw (← took) (
        All-take P n _ (
          packages_of-All P _ (
            All-sort_by (is_closer N) (λ d. P d.dp) distanced
              (All-packages_of P distanced (rw from all)))))

  pub length-pick :
      (packages : List (SignedDataPackage N)) (n : ℕ) (picked : List (SignedDataPackage N))
      → pick_data_feed_packages_closest_to_median N packages n ≡ ok picked
      → length picked ≡ min n (length packages)
  length-pick packages n picked h =
      let (medians, distanced, _, known, took) = pick-ok packages n picked h in
      rw (← took, ← packages_of-with_distances packages medians distanced known)
        (length-take n _
          ∙ ap (min n) (
              length-map (sort_by (is_closer N) distanced) (λ d. d.dp)
              ∙ length-sort_by (is_closer N) distanced
              ∙ sym (length-map distanced (λ d. d.dp))))

  with_distances-All :
      (packages : List (SignedDataPackage N)) (medians : Dict N.Float)
      (distanced : List (Distanced N))
      → with_distances N packages medians ≡ ok distanced
      → All (λ d. get_max_distance_from_median N d.dp medians ≡ ok d.diff) distanced
  unfolding with_distances
  with_distances-All [] medians distanced h = rw (← ok_injective h) tt
  with_distances-All (pkg ∷ packages) medians distanced h =
      let (diff, distance, h1) = >>=-eq-ok (get_max_distance_from_median N pkg medians) _ h in
      let (rest, known, h2) = >>=-eq-ok (with_distances N packages medians) _ h1 in
      rw (← ok_injective h2) (distance, with_distances-All packages medians rest known)

  take-packages_of :
      (n : ℕ) (ds : List (Distanced N)) → packages_of N (take n ds) ≡ take n (packages_of N ds)
  take-packages_of zero ds = refl
  take-packages_of (suc n) [] = refl
  take-packages_of (suc n) (d ∷ ds) = ap (λ ps. d.dp ∷ ps) (take-packages_of n ds)

  -- What is asked of a pick: the packages, with their distances from the medians, are split into those
  -- picked and the others, and none of the others is closer than one that is picked.
  abbrev pub IsClosestPick : List (SignedDataPackage N) → ℕ → List (SignedDataPackage N) → Type 0
  IsClosestPick packages n picked =
      (medians : Dict N.Float) × (chosen : List (Distanced N)) × (others : List (Distanced N))
      × (all_medians N (get_all_values N packages) ≡ ok medians)
      × All (λ d. get_max_distance_from_median N d.dp medians ≡ ok d.diff) (chosen ++ others)
      × ((p : SignedDataPackage N → Bool)
          → count p (packages_of N (chosen ++ others)) ≡ count p packages)
      × (packages_of N chosen ≡ picked)
      × (length picked ≡ min n (length packages))
      × All (λ near. All (λ far. N.less_than far.diff near.diff ≡ false) others) chosen

  -- With distances compared by a strict weak order: the packages picked and the others are together
  -- the packages given, as often as there; as many are picked as asked, or all; and none of the
  -- others is closer to the medians of all values than one that is picked.
  pub pick_data_feed_packages_closest_to_median-IsClosestPick :
      (asymmetric : (a b : N.Float) → N.less_than a b ≡ true → N.less_than b a ≡ false)
      (chained : (a b c : N.Float)
        → N.less_than b a ≡ false
        → N.less_than c b ≡ false
        → N.less_than c a ≡ false)
      (packages : List (SignedDataPackage N)) (n : ℕ) (picked : List (SignedDataPackage N))
      → pick_data_feed_packages_closest_to_median N packages n ≡ ok picked
      → IsClosestPick packages n picked
  pick_data_feed_packages_closest_to_median-IsClosestPick asymmetric chained packages n picked h =
      let (medians, distanced, tables, known, took) = pick-ok packages n picked h in
      let sorted = sort_by (is_closer N) distanced in
      (
        medians,
        take n sorted,
        drop n sorted,
        tables,
        (rw (take-append-drop n sorted) (
            All-sort_by (is_closer N) _ distanced
              (with_distances-All packages medians distanced known))),
        (λ p. rw (take-append-drop n sorted) (
            count-map p sorted
            ∙ count-sort_by (is_closer N) (λ d. p d.dp) distanced
            ∙ sym (count-map p distanced)
            ∙ ap (count p) (packages_of-with_distances packages medians distanced known))),
        (take-packages_of n sorted ∙ took),
        length-pick packages n picked h,
        Sorted-take-drop (is_closer N) n sorted (
            sort_by-Sorted (is_closer N) (λ x y. asymmetric x.diff y.diff)
              (λ x y z. chained x.diff y.diff z.diff) distanced),
      )

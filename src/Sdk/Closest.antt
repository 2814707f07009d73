-- ===== src/Sdk/Closest.antt =====
-- pick-closest-to-median.ts, with `getMedian` of packages/utils/src/math and
-- ISafeNumber/ISafeNumberMath.ts. JavaScript's `sort` is stable, and so is the insertion sort that
-- stands for it; packages are passed on as they are where the code copies them through plain objects.
use redstone_oracles_monorep.Prelude.{
  ℕ, ◌-◌, ◌/◌, ◌%◌, ◌==◌, Bool, Option, none, some, List, [], ◌∷◌, ◌++◌, map, Result, ok, err,
  ◌>>=◌, if◌then◌else◌, length, get_elem?, take, or_default,
}
use redstone_oracles_monorep.Prelude.Dict.{Dict, get, put}
use redstone_oracles_monorep.Relayer.Config.{
  Numbers, RelayerError, type_error, arithmetic, DataPoint, SignedDataPackage,
}

module _ {A : Type 0} (before : A → A → Bool) where
  -- Puts `x` before the first item that it must stand before or need not stand behind.
  abbrev pub insert_by : A → List A → List A
  insert_by x [] = x ∷ []
  insert_by x (y ∷ ys) = let rest = y ∷ insert_by x ys in if before y x then rest else x ∷ y ∷ ys

  abbrev pub sort_by : List A → List A
  sort_by [] = []
  sort_by (x ∷ xs) = insert_by x (sort_by xs)

module _ (N : Numbers) where
  abbrev pub cast_all : List N.Float → Result RelayerError (List N.Float)
  cast_all [] = ok []
  cast_all (x ∷ xs) = N.cast_safe x >>= λ y. cast_all xs >>= λ ys. ok (y ∷ ys)

  abbrev pub number_at : Option N.Float → Result RelayerError N.Float
  number_at none = err type_error
  number_at (some x) = ok x

  -- `ISafeNumberMath.getMedian`
  unfoldable pub median_of_safe : List N.Float → Result RelayerError N.Float
  median_of_safe [] = err arithmetic
  median_of_safe (x ∷ xs) =
      let numbers = sort_by N.less_than (x ∷ xs) in
      let middle = length numbers / 2 in
      let even = number_at (get_elem? numbers middle) >>= λ upper.
      number_at (get_elem? numbers (middle - 1)) >>= λ lower.
      N.safe_add upper lower >>= λ total. N.safe_div total N.two in
      if length numbers % 2 == 0 then even else number_at (get_elem? numbers middle)

  unfoldable pub get_median : List N.Float → Result RelayerError N.Float
  unfolding median_of_safe
  get_median numbers = cast_all numbers >>= median_of_safe

  -- `allValues[dataFeedId] ??= []`, then `push`
  abbrev pub add_value : Dict (List N.Float) → DataPoint N → Dict (List N.Float)
  add_value values point =
      put values point.data_feed_id
        (or_default (get values point.data_feed_id) [] ++ point.value ∷ [])

  abbrev pub add_values : Dict (List N.Float) → List (DataPoint N) → Dict (List N.Float)
  add_values values [] = values
  add_values values (point ∷ points) = add_values (add_value values point) points

  abbrev pub add_package_values :
      Dict (List N.Float) → List (SignedDataPackage N) → Dict (List N.Float)
  add_package_values values [] = values
  add_package_values values (pkg ∷ packages) =
      add_package_values (add_values values pkg.data_points) packages

  unfoldable pub get_all_values : List (SignedDataPackage N) → Dict (List N.Float)
  get_all_values packages = add_package_values [] packages

  -- `_.mapValues(allValues, MathUtils.getMedian)`
  unfoldable pub all_medians : Dict (List N.Float) → Result RelayerError (Dict N.Float)
  all_medians [] = ok []
  all_medians ((id, values) ∷ entries) =
      get_median values >>= λ median. all_medians entries >>= λ rest. ok ((id, median) ∷ rest)

  abbrev pub median_for : Option N.Float → Result RelayerError N.Float
  median_for none = err arithmetic
  median_for (some median) = ok median

  -- The loop over the data points, with `maxDistanceFromMedian` so far.
  abbrev pub distance_from :
      Dict N.Float → List (DataPoint N) → N.Float → Result RelayerError N.Float
  distance_from medians [] found = ok found
  distance_from medians (point ∷ points) found = N.cast_safe point.value >>= λ value.
      median_for (get medians point.data_feed_id) >>= λ median.
      N.safe_sub value median >>= λ difference. N.safe_abs difference >>= λ size.
      N.safe_div size median >>= λ distance. distance_from medians points (N.max_of found distance)

  unfoldable pub get_max_distance_from_median :
      SignedDataPackage N → Dict N.Float → Result RelayerError N.Float
  get_max_distance_from_median pkg medians = distance_from medians pkg.data_points N.float_zero

  -- `{ dp, diff }`
  pub record Distanced : Type 0 where
    pub dp : SignedDataPackage N
    pub diff : N.Float

  unfoldable pub with_distances :
      List (SignedDataPackage N) → Dict N.Float → Result RelayerError (List Distanced)
  unfolding get_max_distance_from_median
  with_distances [] medians = ok []
  with_distances (pkg ∷ packages) medians = get_max_distance_from_median pkg medians >>= λ diff.
      with_distances packages medians >>= λ rest. ok (record { dp = pkg; diff = diff } ∷ rest)

  -- `first.diff - second.diff < 0`
  abbrev pub is_closer : Distanced → Distanced → Bool
  is_closer first second = N.less_than first.diff second.diff

  abbrev pub packages_of : List Distanced → List (SignedDataPackage N)
  packages_of distanced = map (λ d. d.dp) distanced

  unfoldable pub pick_data_feed_packages_closest_to_median :
      List (SignedDataPackage N) → ℕ → Result RelayerError (List (SignedDataPackage N))
  unfolding with_distances get_all_values all_medians
  pick_data_feed_packages_closest_to_median packages count = do
    medians ← all_medians (get_all_values packages)
    distanced ← with_distances packages medians
    ok (take count (packages_of (sort_by is_closer distanced)))

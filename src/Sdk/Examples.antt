-- ===== src/Sdk/Examples.antt =====
-- A cached response of two identifiers, and the theorem at a concrete request.
use redstone_oracles_monorep.Prelude.{
  ℕ, String, Bool, true, false, ◌==◌, none, some, ok, List, [], ◌∷◌, if◌then◌else◌, str_eq, ◌≡◌,
  refl, arith, eq_iff, Bool-cases, inl, inr,
}
use redstone_oracles_monorep.Prelude.Dict.{Dict, get, put, keys}
use redstone_oracles_monorep.Relayer.Config.{SignedDataPackage}
use redstone_oracles_monorep.Relayer.Naturals.{naturals}
use redstone_oracles_monorep.Sdk.Closest.{
  median_of_safe, get_median, get_all_values, all_medians, get_max_distance_from_median,
  with_distances, pick_data_feed_packages_closest_to_median,
}
use redstone_oracles_monorep.Sdk.Picking.{
  IsClosestPick, pick_data_feed_packages_closest_to_median-IsClosestPick,
}
use redstone_oracles_monorep.Sdk.ResponseCache.{
  includes, is_subset_of, RequestParams, DataPackagesResponseCache, update, is_conforming,
  filter_data_packages, get_cached, IsAnswer, get_cached-IsAnswer,
}

-- The entries of the given identifiers, in the order of the object.
abbrev pick_entries : Dict ℕ → List String → Dict ℕ
pick_entries [] ids = []
pick_entries ((id, packages) ∷ entries) ids =
    let rest = pick_entries entries ids in if includes ids id then (id, packages) ∷ rest else rest

get-pick_entries :
    (current : Dict ℕ) (ids : List String) (id : String)
    → get (pick_entries current ids) id ≡ (if includes ids id then get current id else none)
unfolding get
get-pick_entries [] ids id = ground arith
get-pick_entries ((j, packages) ∷ entries) ids id = elim (Bool-cases (str_eq j id)) [
  | inl same ↦
      let j≡id : j ≡ id = ground (arith, eq_iff j id) in
      rw j≡id (ground (arith, get-pick_entries entries ids id, eq_iff id id))
  | inr other ↦ ground (arith, get-pick_entries entries ids id)
]

abbrev params_of : List String → RequestParams ℕ ℕ
params_of ids = record { comparable = 7; ignore_missing_feed = false; data_packages_ids = ids }

abbrev two_packages : Dict ℕ
two_packages = ("ETH", 1) ∷ ("BTC", 2) ∷ []

abbrev no_cache : DataPackagesResponseCache ℕ ℕ
no_cache = record { response = none; request_params = none }

abbrev same : ℕ → ℕ → Bool
same a b = a == b

btc_cached :
    get_cached ℕ ℕ same pick_entries
      (update ℕ ℕ no_cache two_packages (params_of ("ETH" ∷ "BTC" ∷ [])))
      (params_of ("BTC" ∷ []))
    ≡ some (("BTC", 2) ∷ [])
unfolding get_cached update is_conforming filter_data_packages is_subset_of keys
btc_cached = refl

get_cached-IsAnswer_example :
    IsAnswer ℕ ℕ same
      (params_of ("ETH" ∷ "BTC" ∷ []))
      two_packages
      (params_of ("BTC" ∷ []))
      (("BTC", 2) ∷ [])
get_cached-IsAnswer_example =
    get_cached-IsAnswer ℕ ℕ same pick_entries get-pick_entries no_cache two_packages
      (params_of ("ETH" ∷ "BTC" ∷ [])) (params_of ("BTC" ∷ [])) (("BTC", 2) ∷ []) btc_cached

abbrev price_package : String → ℕ → SignedDataPackage naturals
price_package signer price = record {
  data_package_id = "BTC";
  signer = some signer;
  timestamp = 1000;
  data_points =
      record { data_feed_id = "BTC"; decimals = none; value = price; is_numeric = true } ∷ [];
}

-- Prices 500, 100 and 120, whose median is 120.
abbrev three_prices : List (SignedDataPackage naturals)
three_prices = price_package "s1" 500 ∷ price_package "s2" 100 ∷ price_package "s3" 120 ∷ []

three_prices-run :
    pick_data_feed_packages_closest_to_median naturals three_prices 2
    ≡ ok (price_package "s2" 100 ∷ price_package "s3" 120 ∷ [])
unfolding pick_data_feed_packages_closest_to_median with_distances get_max_distance_from_median
    all_medians get_all_values get_median median_of_safe get put
three_prices-run = refl

pick_data_feed_packages_closest_to_median-IsClosestPick_example :
    IsClosestPick naturals three_prices 2 (price_package "s2" 100 ∷ price_package "s3" 120 ∷ [])
pick_data_feed_packages_closest_to_median-IsClosestPick_example =
    pick_data_feed_packages_closest_to_median-IsClosestPick naturals
      (λ x y closer. ground (arith, closer)) (λ x y z first second. ground (arith, first, second))
      three_prices 2 (price_package "s2" 100 ∷ price_package "s3" 120 ∷ []) three_prices-run

-- ===== src/Relayer/Packages.antt =====
-- Selecting the packages of a feed and their timestamp: request-data-packages.ts and
-- ContractData.ts of packages/sdk/src.
use redstone_oracles_monorep.Prelude.{
  ℕ, String, ◌==◌, Bool, true, false, Option, none, some, List, [], ◌∷◌, ◌++◌, Result, ok, err,
  if◌then◌else◌, any, filter, str_eq,
}
use redstone_oracles_monorep.Prelude.Dict.{get, put}
use redstone_oracles_monorep.Relayer.Config.{
  Numbers, RelayerError, no_data_packages, timestamps_differ, ContractData, LastRoundDetails,
  SignedDataPackage, DataPackagesResponse,
}

module _ (N : Numbers) where
  abbrev pub all_packages : DataPackagesResponse N → List (SignedDataPackage N)
  all_packages [] = []
  all_packages ((id, packages) ∷ rest) = packages ++ all_packages rest

  abbrev pub has_data_point : String → SignedDataPackage N → Bool
  has_data_point id pkg = any (λ point. str_eq point.data_feed_id id) pkg.data_points

  abbrev pub packages_or_all :
      Option (List (SignedDataPackage N))
      → DataPackagesResponse N
      → String
      → List (SignedDataPackage N)
  packages_or_all (some packages) response id = packages
  packages_or_all none response id = filter (has_data_point id) (all_packages response)

  -- With a feed's identifier, as every caller in the relayer gives one; it is not empty.
  unfoldable pub extract_signed_data_packages_for_feed_id :
      DataPackagesResponse N → String → List (SignedDataPackage N)
  extract_signed_data_packages_for_feed_id response id =
      packages_or_all (get response id) response id

  -- `new Set(timestamps).size === 1`, for a list that starts with `t`
  abbrev pub all_same : ℕ → List (SignedDataPackage N) → Bool
  all_same t [] = true
  all_same t (pkg ∷ rest) = let same = all_same t rest in if pkg.timestamp == t then same else false

  unfoldable pub check_and_get_same_timestamp : List (SignedDataPackage N) → Result RelayerError ℕ
  check_and_get_same_timestamp [] = err no_data_packages
  check_and_get_same_timestamp (pkg ∷ rest) =
      if all_same pkg.timestamp rest then ok pkg.timestamp else err timestamps_differ

  unfoldable pub get_data_packages_timestamp :
      DataPackagesResponse N → String → Result RelayerError ℕ
  unfolding check_and_get_same_timestamp extract_signed_data_packages_for_feed_id
  get_data_packages_timestamp response id =
      check_and_get_same_timestamp (extract_signed_data_packages_for_feed_id response id)

abbrev pub no_round : LastRoundDetails
no_round = record { last_data_package_timestamp = 0; last_block_timestamp = 0; last_value = 0 }

-- `getLastRoundDetails` with `updateBaseObject`: the details, and the contract's data that it leaves.
abbrev pub details_or_zero :
    Option LastRoundDetails → ContractData → String → LastRoundDetails × ContractData
details_or_zero (some details) contract id = (details, contract)
details_or_zero none contract id = (no_round, put contract id no_round)

unfoldable pub get_last_round_details : ContractData → String → LastRoundDetails × ContractData
get_last_round_details contract id = details_or_zero (get contract id) contract id

-- ===== src/Relayer/PriceFeeds.antt =====
-- price-feeds/should-update.ts and custom-integrations/mento/data-packages-decimals.ts: whether an
-- iteration of an adapter that updates all its feeds at once is to update. Messages are not modelled.
use redstone_oracles_monorep.Prelude.{
  ℕ, String, ◌==◌, Bool, true, false, ◌&&◌, ◌||◌, Option, none, some, List, [], ◌∷◌, Result, ok,
  err, ◌>>=◌, if◌then◌else◌, str_eq, or_default,
}
use redstone_oracles_monorep.Prelude.Dict.{get}
use redstone_oracles_monorep.Relayer.Config.{
  Numbers, RelayerError, type_error, ContractData, ConditionCheckNames, DataPoint,
  SignedDataPackage, RelayerConfig, Environment, DataPackagesResponse,
}
use redstone_oracles_monorep.Relayer.Packages.{all_packages}
use redstone_oracles_monorep.Relayer.Deviation.{default_num_value_decimals}
use redstone_oracles_monorep.Relayer.Conditions.{
  check_condition_by_name, is_data_package_timestamp_newer,
}

abbrev pub mento_supported_decimals : ℕ
mento_supported_decimals = 8

-- `config.updateConditions[dataFeedId]` where the code iterates over it
abbrev pub conditions_of :
    Option (List ConditionCheckNames) → Result RelayerError (List ConditionCheckNames)
conditions_of none = err type_error
conditions_of (some names) = ok names

module _ (N : Numbers) where
  -- `getNumericDataPointDecimals`
  abbrev pub has_mento_decimals : DataPoint N → Bool
  has_mento_decimals point =
      point.is_numeric
      && or_default point.decimals default_num_value_decimals == mento_supported_decimals

  abbrev pub points_acceptable : List (DataPoint N) → Bool
  points_acceptable [] = true
  points_acceptable (point ∷ points) = has_mento_decimals point && points_acceptable points

  abbrev pub packages_acceptable : List (SignedDataPackage N) → Bool
  packages_acceptable [] = true
  packages_acceptable (pkg ∷ packages) =
      points_acceptable pkg.data_points && packages_acceptable packages

  -- The negation of `shouldNotUpdatePrice`.
  unfoldable pub are_decimals_acceptable : DataPackagesResponse N → RelayerConfig N → Bool
  are_decimals_acceptable response config =
      if str_eq config.adapter_contract_type "mento"
      then packages_acceptable (all_packages N response)
      else true

  -- The loop over the conditions of a feed, with `shouldUpdatePrices` so far.
  unfoldable pub check_price_conditions :
      String
      → Environment N
      → RelayerConfig N
      → List ConditionCheckNames
      → Bool × ContractData
      → Result RelayerError (Bool × ContractData)
  check_price_conditions id env config [] (found, contract) = ok (found, contract)
  check_price_conditions id env config (name ∷ names) (found, contract) =
      check_condition_by_name N name id env contract config >>= λ r.
      check_price_conditions id env config names (found || r.0.should_update_prices, r.1)

  -- The body of the loop over the feeds.
  unfoldable pub check_price_feed :
      String
      → Environment N
      → RelayerConfig N
      → Bool × ContractData
      → Result RelayerError (Bool × ContractData)
  unfolding check_price_conditions are_decimals_acceptable
  check_price_feed id env config found = do
    names ← conditions_of (get config.update_conditions id)
    checked ← check_price_conditions id env config names found
    newer ← is_data_package_timestamp_newer N env checked.1 id
    ok ((checked.0 && newer) && are_decimals_acceptable env.data_packages config, checked.1)

  unfoldable pub check_price_feeds :
      List String
      → Environment N
      → RelayerConfig N
      → Bool × ContractData
      → Result RelayerError (Bool × ContractData)
  unfolding check_price_feed
  check_price_feeds [] env config found = ok found
  check_price_feeds (id ∷ feeds) env config found =
      check_price_feed id env config found >>= λ next. check_price_feeds feeds env config next

  -- Whether to update, with the contract's data that the checks leave.
  unfoldable pub should_update :
      Environment N → ContractData → RelayerConfig N → Result RelayerError (Bool × ContractData)
  unfolding check_price_feeds
  should_update env contract config =
      check_price_feeds config.data_feeds env config (false, contract)

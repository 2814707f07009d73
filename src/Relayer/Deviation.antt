-- ===== src/Relayer/Deviation.antt =====
-- The deviation of the fetched values from the contract's: check-value-deviation-condition.ts, and
-- the deviation itself, packages/utils/src/math and ISafeNumber/ISafeNumberMath.ts. Log messages and
-- warnings are not modelled.
use redstone_oracles_monorep.Prelude.{
  ℕ, String, Option, none, some, List, [], ◌∷◌, ◌++◌, Result, ok, err, ◌>>=◌, if◌then◌else◌, filter,
  str_eq, or_default,
}
use redstone_oracles_monorep.Prelude.Dict.{get}
use redstone_oracles_monorep.Relayer.Config.{
  Numbers, RelayerError, type_error, DataPoint, SignedDataPackage, DataPackagesResponse,
  UpdateTriggers, RelayerConfig, ConditionCheckResponse,
}
use redstone_oracles_monorep.Relayer.Packages.{all_packages, get_data_packages_timestamp}

abbrev pub default_num_value_decimals : ℕ
default_num_value_decimals = 8

module _ (N : Numbers) where
  abbrev pub all_points : List (SignedDataPackage N) → List (DataPoint N)
  all_points [] = []
  all_points (pkg ∷ rest) = pkg.data_points ++ all_points rest

  unfoldable pub get_data_points_for_data_feed_id :
      DataPackagesResponse N → String → List (DataPoint N)
  get_data_points_for_data_feed_id response id =
      filter (λ point. str_eq point.data_feed_id id) (all_points (all_packages N response))

  -- On two numbers that `castToISafeNumber` has accepted.
  unfoldable pub safe_deviation_percent : N.Float → N.Float → Result RelayerError N.Float
  safe_deviation_percent deviated base =
      if N.is_zero base then N.cast_safe N.max_safe_integer else (do
        difference ← N.safe_sub deviated base
        ratio ← N.safe_div difference base
        size ← N.safe_abs ratio
        N.safe_mul size N.hundred)

  unfoldable pub calculate_deviation_percent : N.Float → N.Float → Result RelayerError N.Float
  unfolding safe_deviation_percent
  calculate_deviation_percent deviated base = do
    base_value ← N.cast_safe base
    deviated_value ← N.cast_safe deviated
    safe_deviation_percent deviated_value base_value

  -- The loop over the data points, with `maxDeviation` so far.
  unfoldable pub max_deviation : ℕ → List (DataPoint N) → N.Float → Result RelayerError N.Float
  unfolding calculate_deviation_percent
  max_deviation contract_value [] found = ok found
  max_deviation contract_value (point ∷ points) found =
      let decimals = or_default point.decimals default_num_value_decimals in
      calculate_deviation_percent point.value (N.decimal_of contract_value decimals)
      >>= λ deviation. max_deviation contract_value points (N.max_of deviation found)

  -- `config.updateTriggers[dataFeedId].field`
  abbrev pub triggers_of : Option (UpdateTriggers N) → Result RelayerError (UpdateTriggers N)
  triggers_of none = err type_error
  triggers_of (some triggers) = ok triggers

  unfoldable pub check_value_deviation_condition :
      String
      → DataPackagesResponse N
      → ℕ
      → RelayerConfig N
      → Result RelayerError (ConditionCheckResponse N)
  unfolding max_deviation get_data_points_for_data_feed_id
  check_value_deviation_condition id response contract_value config = do
    timestamp ← get_data_packages_timestamp N response id
    found ← max_deviation contract_value (get_data_points_for_data_feed_id response id) N.float_zero
    triggers ← triggers_of (get config.update_triggers id)
    ok (record {
      should_update_prices = N.at_least found triggers.deviation_percentage;
      max_deviation_ratio = some (N.quotient found triggers.deviation_percentage);
    })

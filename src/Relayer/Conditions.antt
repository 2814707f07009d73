-- ===== src/Relayer/Conditions.antt =====
-- core/update-conditions: when a feed is to be updated. Messages are not modelled. A difference of
-- timestamps that is compared with a natural number is written as a comparison of sums.
use redstone_oracles_monorep.Prelude.{
  ℕ, zero, suc, ◌+◌, String, Bool, true, false, not, ◌&&◌, ◌||◌, Option, none, some, List, [], ◌∷◌,
  Result, ok, err, ◌>>=◌, if◌then◌else◌, or_default, ltb, leb, ℤ, pos, negsuc, sub_ℕ,
}
use redstone_oracles_monorep.Prelude.Dict.{get}
use redstone_oracles_monorep.Relayer.Config.{
  Numbers, RelayerError, type_error, interval_must_be_defined, LastRoundDetails, ContractData,
  ConditionCheckNames, time_check, cron_check, value_deviation_check, DataPackagesResponse,
  RelayerConfig, Environment, ConditionCheckResponse,
}
use redstone_oracles_monorep.Relayer.Packages.{get_data_packages_timestamp, get_last_round_details}
use redstone_oracles_monorep.Relayer.Historical.{to_historical_timestamp}
use redstone_oracles_monorep.Relayer.Deviation.{triggers_of, check_value_deviation_condition}

-- `if (!updatePriceInterval) throw`
abbrev pub defined_interval : Option ℕ → Result RelayerError ℕ
defined_interval none = err interval_must_be_defined
defined_interval (some zero) = err interval_must_be_defined
defined_interval (some (suc n)) = ok (suc n)

-- `a > b` for an integer and a natural number
abbrev pub exceeds : ℤ → ℕ → Bool
exceeds (pos n) b = ltb b n
exceeds (negsuc n) b = false

-- `contract[dataFeedId]` where the code reads a field of it
abbrev pub round_of : Option LastRoundDetails → Result RelayerError LastRoundDetails
round_of none = err type_error
round_of (some details) = ok details

module _ (N : Numbers) where
  unfoldable pub time_update_condition :
      String → ℕ → ℕ → RelayerConfig N → Result RelayerError (ConditionCheckResponse N)
  time_update_condition id now last_update config = do
    triggers ← triggers_of N (get config.update_triggers id)
    interval ← defined_interval triggers.time_since_last_update
    ok (record {
      should_update_prices = leb (last_update + (interval + config.fallback_offset)) now;
      max_deviation_ratio = none;
    })

  unfoldable pub check_cron_condition : (String → ℤ → ℤ) → String → ℕ → ℕ → RelayerConfig N → Bool
  check_cron_condition prev expression now last_update config =
      exceeds (prev expression (sub_ℕ now config.fallback_offset)) last_update

  -- The loop over the cron expressions.
  abbrev pub any_cron : (String → ℤ → ℤ) → List String → ℕ → ℕ → RelayerConfig N → Bool → Bool
  any_cron prev [] now last_update config found = found
  any_cron prev (expression ∷ rest) now last_update config found =
      any_cron prev rest now last_update config
        (found || check_cron_condition prev expression now last_update config)

  unfoldable pub cron_condition :
      (String → ℤ → ℤ)
      → String
      → ℕ
      → ℕ
      → RelayerConfig N
      → Result RelayerError (ConditionCheckResponse N)
  unfolding check_cron_condition
  cron_condition prev id now last_update config = do
    triggers ← triggers_of N (get config.update_triggers id)
    ok (record {
      should_update_prices = any_cron prev triggers.cron now last_update config false;
      max_deviation_ratio = none;
    })

  -- What the historical packages say; before they are fetched, `historicalShouldUpdatePrices` is
  -- true, their deviation 0 and their time undefined.
  pub record HistoricalCheck : Type 0 where
    pub should_update : Bool
    pub deviation : N.Float
    pub packages_time : Option ℕ

  abbrev pub not_fetched : HistoricalCheck
  not_fetched = record { should_update = true; deviation = N.float_zero; packages_time = none }

  unfoldable pub check_historical :
      String
      → Result RelayerError (DataPackagesResponse N)
      → ℕ
      → RelayerConfig N
      → Result RelayerError HistoricalCheck
  check_historical id fetched contract_value config = do
    packages ← fetched
    check ← check_value_deviation_condition N id packages contract_value config
    time ← get_data_packages_timestamp N packages id
    ok (record {
      should_update = check.should_update_prices;
      deviation = or_default check.max_deviation_ratio N.float_zero;
      packages_time = some time;
    })

  abbrev pub is_package_newer : ℕ → Option ℕ → Bool
  is_package_newer last none = false
  is_package_newer last (some time) = leb time last

  -- `skipFallbackUpdate`
  unfoldable pub skip_fallback_update : ℕ → LastRoundDetails → RelayerConfig N → Option ℕ → Bool
  skip_fallback_update now last config packages_time =
      ltb 0 config.fallback_offset
      && config.fallback_skip_frequent_updates
      && (ltb now (last.last_block_timestamp + config.fallback_offset)
          || is_package_newer last.last_data_package_timestamp packages_time)

  unfoldable pub value_deviation_condition :
      String
      → ℕ
      → DataPackagesResponse N
      → LastRoundDetails
      → RelayerConfig N
      → Result RelayerError (DataPackagesResponse N)
      → Result RelayerError (ConditionCheckResponse N)
  unfolding check_historical skip_fallback_update
  value_deviation_condition id now latest last config fetched = do
    check ← check_value_deviation_condition N id latest last.last_value config
    historical ←
        if (check.should_update_prices || config.is_not_lazy) && ltb 0 config.fallback_offset
        then check_historical id fetched last.last_value config
        else ok not_fetched
    ok (record {
      should_update_prices =
          (check.should_update_prices && historical.should_update)
          && not (skip_fallback_update now last config historical.packages_time);
      max_deviation_ratio =
          some (N.max_of (or_default check.max_deviation_ratio N.float_zero) historical.deviation);
    })

  abbrev pub gateways_or_none : Option (List String) → List String
  gateways_or_none none = []
  gateways_or_none (some urls) = urls

  unfoldable pub fetch_historical_data_packages :
      String → Environment N → RelayerConfig N → Result RelayerError (DataPackagesResponse N)
  fetch_historical_data_packages id env config = do
    latest ← get_data_packages_timestamp N env.data_packages id
    timestamp ←
        to_historical_timestamp config.fallback_offset config.historical_packages_gateways latest
          env.base_checks_timestamp
    env.request_historical timestamp (gateways_or_none config.historical_packages_gateways)

  abbrev pub checked :
      ConditionCheckNames
      → String
      → Environment N
      → LastRoundDetails
      → RelayerConfig N
      → Result RelayerError (ConditionCheckResponse N)
  checked time_check id env last config =
      time_update_condition id (env.clock id time_check) last.last_block_timestamp config
  checked cron_check id env last config =
      cron_condition env.cron_prev id (env.clock id cron_check) last.last_block_timestamp config
  checked value_deviation_check id env last config =
      value_deviation_condition id (env.clock id value_deviation_check) env.data_packages last
        config (fetch_historical_data_packages id env config)

  -- The response, with the contract's data that `getLastRoundDetails` leaves.
  unfoldable pub check_condition_by_name :
      ConditionCheckNames
      → String
      → Environment N
      → ContractData
      → RelayerConfig N
      → Result RelayerError (ConditionCheckResponse N × ContractData)
  check_condition_by_name name id env contract config = do
    check ← checked name id env (get_last_round_details contract id).0 config
    ok (check, (get_last_round_details contract id).1)

  -- The negation of `shouldNotUpdatePrice`: the packages are newer than the contract's.
  unfoldable pub is_data_package_timestamp_newer :
      Environment N → ContractData → String → Result RelayerError Bool
  is_data_package_timestamp_newer env contract id = do
    details ← round_of (get contract id)
    timestamp ← get_data_packages_timestamp N env.data_packages id
    ok (ltb details.last_data_package_timestamp timestamp)

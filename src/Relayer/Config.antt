-- ===== src/Relayer/Config.antt =====
-- The relayer's configuration and the data of one iteration: config/RelayerConfig.ts, types.ts, and
-- ContractData.ts of packages/sdk/src. Fields that the modelled functions do not read are left out.
use redstone_oracles_monorep.Prelude.{ℕ, String, Bool, Option, List, Result, ℤ}
use redstone_oracles_monorep.Prelude.Dict.{Dict}

-- What the code throws; `arithmetic` is an error of the number type of packages/utils.
pub data RelayerError : Type 0 where
  interval_must_be_defined no_data_packages timestamps_differ : RelayerError
  historical_fetcher_not_configured type_error arithmetic request_failed : RelayerError

-- The numbers of JavaScript and the checked ones of packages/utils/src/ISafeNumber.
pub record Numbers : Type 1 where
  pub Float : Type 0
  pub float_zero : Float
  pub max_safe_integer : Float
  pub hundred : Float
  pub two : Float
  pub is_zero : Float → Bool
  -- `if (value)`, `a >= b`, `a < b`, `Math.max(a, b)` and `a / b`
  pub is_truthy : Float → Bool
  pub at_least : Float → Float → Bool
  pub less_than : Float → Float → Bool
  pub max_of : Float → Float → Float
  pub quotient : Float → Float → Float
  -- `Number(utils.formatUnits(value, decimals))`
  pub decimal_of : ℕ → ℕ → Float
  -- `castToISafeNumber`, and the operations of an `ISafeNumber`
  pub cast_safe : Float → Result RelayerError Float
  pub safe_add : Float → Float → Result RelayerError Float
  pub safe_sub : Float → Float → Result RelayerError Float
  pub safe_div : Float → Float → Result RelayerError Float
  pub safe_mul : Float → Float → Result RelayerError Float
  pub safe_abs : Float → Result RelayerError Float

pub data ConditionCheckNames : Type 0 where
  time_check cron_check value_deviation_check : ConditionCheckNames

pub record LastRoundDetails : Type 0 where
  pub last_data_package_timestamp : ℕ
  pub last_block_timestamp : ℕ
  pub last_value : ℕ

abbrev pub ContractData : Type 0
ContractData = Dict LastRoundDetails

module _ (N : Numbers) where
  pub record DataPoint : Type 0 where
    pub data_feed_id : String
    pub decimals : Option ℕ
    pub value : N.Float
    -- `dataPoint instanceof NumericDataPoint`
    pub is_numeric : Bool

  -- `signer` is what `recoverSignerAddress` gives; none where it throws.
  pub record SignedDataPackage : Type 0 where
    pub data_package_id : String
    pub signer : Option String
    pub timestamp : ℕ
    pub data_points : List DataPoint

  abbrev pub DataPackagesResponse : Type 0
  DataPackagesResponse = Dict (List SignedDataPackage)

  pub record UpdateTriggers : Type 0 where
    pub deviation_percentage : N.Float
    pub cron : List String
    pub time_since_last_update : Option ℕ

  pub record RelayerConfig : Type 0 where
    pub data_feeds : List String
    pub update_triggers : Dict UpdateTriggers
    pub update_conditions : Dict (List ConditionCheckNames)
    pub fallback_offset : ℕ
    pub historical_packages_gateways : Option (List String)
    pub is_not_lazy : Bool
    pub fallback_skip_frequent_updates : Bool
    pub additional_updates_deviation_threshold : Option N.Float
    pub sync_heartbeats : Bool
    pub adapter_contract_type : String

  -- What an iteration reads: the clock at the check of each feed and condition, the packages
  -- fetched, the time that the packages were asked at, cron-parser's `prev().getTime()`, and the
  -- gateways' answer to a request for historical packages.
  pub record Environment : Type 0 where
    pub clock : String → ConditionCheckNames → ℕ
    pub data_packages : DataPackagesResponse
    pub base_checks_timestamp : ℕ
    pub cron_prev : String → ℤ → ℤ
    pub request_historical : ℤ → List String → Result RelayerError DataPackagesResponse

  pub record ConditionCheckResponse : Type 0 where
    pub should_update_prices : Bool
    pub max_deviation_ratio : Option N.Float

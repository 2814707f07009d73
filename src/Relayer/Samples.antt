-- ===== src/Relayer/Samples.antt =====
-- A configuration of the relayer, its data packages and a contract, for the tests.
use redstone_oracles_monorep.Prelude.{ℕ, String, true, false, none, some, List, [], ◌∷◌, ok}
use redstone_oracles_monorep.Relayer.Config.{
  ContractData, time_check, value_deviation_check, UpdateTriggers, RelayerConfig, Environment,
  SignedDataPackage,
}
use redstone_oracles_monorep.Relayer.Naturals.{naturals}

abbrev pub every_ten : UpdateTriggers naturals
every_ten = record { deviation_percentage = 100; cron = []; time_since_last_update = some 10 }

abbrev pub every_twenty : UpdateTriggers naturals
every_twenty = record { deviation_percentage = 100; cron = []; time_since_last_update = some 20 }

abbrev pub two_feeds : RelayerConfig naturals
two_feeds = record {
  data_feeds = "ETH" ∷ "BTC" ∷ [];
  update_triggers = ("ETH", every_ten) ∷ ("BTC", every_twenty) ∷ [];
  update_conditions =
      ("ETH", time_check ∷ []) ∷ ("BTC", time_check ∷ value_deviation_check ∷ []) ∷ [];
  fallback_offset = 0;
  historical_packages_gateways = none;
  is_not_lazy = false;
  fallback_skip_frequent_updates = false;
  additional_updates_deviation_threshold = some 1;
  sync_heartbeats = true;
  adapter_contract_type = "price-feeds";
}

abbrev pub price_package : String → ℕ → List (SignedDataPackage naturals)
price_package id value =
    record {
      data_package_id = id;
      signer = none;
      timestamp = 2000;
      data_points =
          record { data_feed_id = id; decimals = none; value = value; is_numeric = true } ∷ [];
    }
    ∷ []

abbrev pub at_noon : Environment naturals
at_noon = record {
  clock = λ id name. 2015;
  data_packages = ("ETH", price_package "ETH" 7) ∷ ("BTC", price_package "BTC" 9) ∷ [];
  base_checks_timestamp = 2015;
  cron_prev = λ expression date. date;
  request_historical = λ timestamp urls. ok [];
}

abbrev pub on_chain : ContractData
on_chain =
    (
      "ETH",
      record { last_data_package_timestamp = 1990; last_block_timestamp = 2005; last_value = 7 },
    )
    ∷ (
      "BTC",
      record { last_data_package_timestamp = 1990; last_block_timestamp = 2005; last_value = 8 },
    )
    ∷ []

-- ===== src/Relayer/DueExamples.antt =====
-- The update of all feeds at once (conditions for an adapter of price feeds) at concrete inputs.
use redstone_oracles_monorep.Relayer.Samples.{two_feeds, at_noon}
use redstone_oracles_monorep.Prelude.{true, none, some, [], ◌∷◌, ok, ◌≡◌, refl, arith}
use redstone_oracles_monorep.Prelude.Dict.{get}
use redstone_oracles_monorep.Relayer.Config.{ContractData, time_check, value_deviation_check}
use redstone_oracles_monorep.Relayer.Naturals.{naturals}
use redstone_oracles_monorep.Relayer.Packages.{
  get_last_round_details, get_data_packages_timestamp, extract_signed_data_packages_for_feed_id,
  check_and_get_same_timestamp,
}
use redstone_oracles_monorep.Relayer.Deviation.{
  check_value_deviation_condition, max_deviation, calculate_deviation_percent,
  safe_deviation_percent, get_data_points_for_data_feed_id,
}
use redstone_oracles_monorep.Relayer.Conditions.{
  check_condition_by_name, time_update_condition, value_deviation_condition, skip_fallback_update,
  is_data_package_timestamp_newer,
}
use redstone_oracles_monorep.Relayer.PriceFeeds.{
  should_update, check_price_feeds, check_price_feed, check_price_conditions,
  are_decimals_acceptable,
}
use redstone_oracles_monorep.Relayer.Due.{IsDue, should_update-IsDue, should_update_last-IsNewer}
use redstone_oracles_monorep.Relayer.LastFeed.{should_update_last-true}
use redstone_oracles_monorep.Relayer.Rounds.{last_round}
use redstone_oracles_monorep.Relayer.Newer.{IsNewer, Fires}

-- The last feed alone is due: the packages of the first one are not newer than the contract's.
abbrev stale_first : ContractData
stale_first =
    (
      "ETH",
      record { last_data_package_timestamp = 2000; last_block_timestamp = 2005; last_value = 7 },
    )
    ∷ (
      "BTC",
      record { last_data_package_timestamp = 1990; last_block_timestamp = 1995; last_value = 8 },
    )
    ∷ []

stale_first_iteration :
    should_update naturals at_noon stale_first two_feeds ≡ ok (true, stale_first)
unfolding should_update check_price_feeds check_price_feed check_price_conditions
    are_decimals_acceptable check_condition_by_name time_update_condition value_deviation_condition
    skip_fallback_update is_data_package_timestamp_newer check_value_deviation_condition
    max_deviation calculate_deviation_percent safe_deviation_percent
    get_data_points_for_data_feed_id get_last_round_details get_data_packages_timestamp
    extract_signed_data_packages_for_feed_id check_and_get_same_timestamp get
stale_first_iteration = refl

should_update-IsDue_example : IsDue naturals at_noon two_feeds stale_first two_feeds.data_feeds
should_update-IsDue_example =
    should_update-IsDue naturals at_noon two_feeds stale_first stale_first stale_first_iteration

should_update_last-IsNewer_example :
    IsNewer naturals at_noon two_feeds (last_round stale_first "BTC") "BTC"
    × (are_decimals_acceptable naturals at_noon.data_packages two_feeds ≡ true)
should_update_last-IsNewer_example =
    should_update_last-IsNewer naturals at_noon two_feeds stale_first stale_first ("ETH" ∷ []) "BTC"
      stale_first_iteration refl

btc_conditions :
    get two_feeds.update_conditions "BTC" ≡ some (time_check ∷ value_deviation_check ∷ [])
unfolding get
btc_conditions = refl

btc-Fires :
    Fires naturals at_noon two_feeds
      (last_round stale_first "BTC")
      "BTC"
      (time_check ∷ value_deviation_check ∷ [])
unfolding time_update_condition get_last_round_details get
btc-Fires = record {
  name = time_check;
  check = record { should_update_prices = true; max_deviation_ratio = none };
  listed = refl;
  holds = refl;
  positive = refl;
}

btc-IsNewer : IsNewer naturals at_noon two_feeds (last_round stale_first "BTC") "BTC"
unfolding get_last_round_details get_data_packages_timestamp
    extract_signed_data_packages_for_feed_id check_and_get_same_timestamp get
btc-IsNewer = record { timestamp = 2000; fetched = refl; later = omega arith }

no_mento : are_decimals_acceptable naturals at_noon.data_packages two_feeds ≡ true
unfolding are_decimals_acceptable
no_mento = refl

should_update_last-true_example :
    should_update naturals at_noon stale_first two_feeds ≡ ok (true, stale_first)
should_update_last-true_example =
    should_update_last-true naturals at_noon two_feeds stale_first stale_first ("ETH" ∷ []) "BTC"
      (time_check ∷ value_deviation_check ∷ []) true stale_first_iteration refl btc_conditions
      btc-Fires btc-IsNewer no_mento

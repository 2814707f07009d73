-- ===== src/Sdk/RequestExamples.antt =====
-- A gateway's answer about one feed, and three gateways of which one fails.
use redstone_oracles_monorep.Prelude.{
  ℕ, String, true, false, none, some, List, [], ◌∷◌, ◌++◌, ok, ◌≡◌, ◌≢◌, refl,
}
use redstone_oracles_monorep.Prelude.Dict.{Dict, get, put}
use redstone_oracles_monorep.Relayer.Config.{SignedDataPackage}
use redstone_oracles_monorep.Relayer.Naturals.{naturals}
use redstone_oracles_monorep.Relayer.Packages.{check_and_get_same_timestamp}
use redstone_oracles_monorep.Sdk.Closest.{
  median_of_safe, get_median, get_all_values, all_medians, get_max_distance_from_median,
  with_distances, pick_data_feed_packages_closest_to_median,
}
use redstone_oracles_monorep.Sdk.Requests.{
  DataPackagesRequestParams, validated, parse_feeds, parse_and_validate_data_packages_response,
}
use redstone_oracles_monorep.Sdk.Response.{
  IsValidResponse, parse_and_validate_data_packages_response-IsValidResponse,
}
use redstone_oracles_monorep.Sdk.Gateways.{
  GatewayEvent, responded, refused, settled, gather, check_results,
  get_the_most_recent_data_packages,
}
use redstone_oracles_monorep.Sdk.MostRecent.{IsSettledBy}
use redstone_oracles_monorep.Sdk.Gathered.{
  get_the_most_recent_data_packages-IsSettledBy, get_the_most_recent_data_packages_settles,
}

abbrev two_signers : DataPackagesRequestParams
two_signers = record {
  data_packages_ids = "BTC" ∷ [];
  unique_signers_count = 2;
  max_timestamp_deviation_ms = some 500;
  authorized_signers = some ("s1" ∷ "s2" ∷ "s3" ∷ []);
  ignore_missing_feed = false;
  disable_median_selection = false;
}

abbrev btc_package : String → ℕ → SignedDataPackage naturals
btc_package signer price = record {
  data_package_id = "BTC";
  signer = some signer;
  timestamp = 1000;
  data_points =
      record { data_feed_id = "BTC"; decimals = none; value = price; is_numeric = true } ∷ [];
}

abbrev one_feed : Dict (List (SignedDataPackage naturals))
one_feed =
    (
      "BTC",
      btc_package "s1" 500 ∷ btc_package "s2" 100 ∷ btc_package "s9" 90 ∷ btc_package "s3" 120 ∷ [],
    )
    ∷ []

abbrev two_chosen : Dict (List (SignedDataPackage naturals))
two_chosen = ("BTC", btc_package "s2" 100 ∷ btc_package "s3" 120 ∷ []) ∷ []

one_feed-run :
    parse_and_validate_data_packages_response naturals two_signers (some one_feed) (λ id. 1400)
    ≡ ok two_chosen
unfolding parse_and_validate_data_packages_response parse_feeds validated
    check_and_get_same_timestamp pick_data_feed_packages_closest_to_median with_distances
    get_max_distance_from_median all_medians get_all_values get_median median_of_safe get put
one_feed-run = refl

parse_and_validate_data_packages_response-IsValidResponse_example :
    IsValidResponse naturals two_signers (λ id. 1400) two_chosen
parse_and_validate_data_packages_response-IsValidResponse_example =
    parse_and_validate_data_packages_response-IsValidResponse naturals two_signers (some one_feed)
      (λ id. 1400) two_chosen one_feed-run

-- Two packages of one signer pass for two signers.
same_signer-run :
    parse_and_validate_data_packages_response naturals two_signers
      (some (("BTC", btc_package "s1" 100 ∷ btc_package "s1" 100 ∷ []) ∷ []))
      (λ id. 1400)
    ≡ ok (("BTC", btc_package "s1" 100 ∷ btc_package "s1" 100 ∷ []) ∷ [])
unfolding parse_and_validate_data_packages_response parse_feeds validated
    check_and_get_same_timestamp pick_data_feed_packages_closest_to_median with_distances
    get_max_distance_from_median all_medians get_all_values get_median median_of_safe get put
same_signer-run = refl

abbrev time_itself : ℕ → ℕ
time_itself t = t

-- The last event first. A response is its timestamp.
abbrev two_answers : List (GatewayEvent time_itself 0 3)
two_answers =
    settled ∷ refused "no connection" ∷ settled ∷ responded 20 ∷ settled ∷ responded 30 ∷ []

two_answers-run :
    (get_the_most_recent_data_packages time_itself 0 3 500 two_answers).settlement ≡ some (ok 30)
unfolding gather check_results
two_answers-run = refl

get_the_most_recent_data_packages-IsSettledBy_example :
    (later : List (GatewayEvent time_itself 0 3)) × (earlier : List (GatewayEvent time_itself 0 3))
    × (later ++ earlier ≡ two_answers)
    × IsSettledBy time_itself 0 3 500 earlier (ok 30)
get_the_most_recent_data_packages-IsSettledBy_example =
    get_the_most_recent_data_packages-IsSettledBy time_itself 0 3 500 two_answers (ok 30)
      two_answers-run

-- All have answered or failed, and no check has been made yet.
abbrev unchecked_answers : List (GatewayEvent time_itself 0 3)
unchecked_answers = refused "no connection" ∷ responded 20 ∷ responded 30 ∷ []

get_the_most_recent_data_packages_settles_example :
    (get_the_most_recent_data_packages time_itself 0 3 500 (settled ∷ unchecked_answers)).settlement
    ≢ none
get_the_most_recent_data_packages_settles_example =
    get_the_most_recent_data_packages_settles time_itself 0 3 500 unchecked_answers refl

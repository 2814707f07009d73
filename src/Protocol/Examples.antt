-- ===== src/Protocol/Examples.antt =====
-- Serialized and parsed payloads on the concrete platform, and the theorems at them.
use mathlib.Core.List.{Perm}
use redstone_oracles_monorep.Prelude.{replicate, ◌≡◌, refl, [], ◌∷◌, ◌++◌, none, ok, err, arith}
use redstone_oracles_monorep.Protocol.Platform.{
  Bytes, duplicated_data_feed_id, invalid_redstone_marker,
}
use redstone_oracles_monorep.Protocol.Model.{model, model-Lawful, big_endian}
use redstone_oracles_monorep.Protocol.Constants.{redstone_marker}
use redstone_oracles_monorep.Protocol.Convert.{
  convert_string_to_bytes32, convert_integer_number_to_bytes,
}
use redstone_oracles_monorep.Protocol.DataPoint
use redstone_oracles_monorep.Protocol.DataPoint.{
  DataPoint, NumericArgs, new_data_point, new_numeric_data_point, IsConstructed, plain,
  from_numeric, deserialize_data_point_from_obj, serialize_data_feed_id, deserialize-to_obj,
}
use redstone_oracles_monorep.Protocol.DataPackage
use redstone_oracles_monorep.Protocol.DataPackage.{
  DataPackage, SignedDataPackage, new_data_package, sort_points, signed_to_bytes, signed_to_obj,
  deserialize_signed_package, assert_same_size, goes_before, insert_point, compare_bytes,
  serialize_data_points, serialize_timestamp, serialize_data_points_count,
  serialize_default_data_point_byte_size, get_each_data_point_byte_size,
}
use redstone_oracles_monorep.Protocol.Payload
use redstone_oracles_monorep.Protocol.Payload.{RedstonePayload, bytes, metadata_bytes}
use redstone_oracles_monorep.Protocol.Parser
use redstone_oracles_monorep.Protocol.Parser.{parse}
use redstone_oracles_monorep.Protocol.Sorted.{IsSortedById, sort_points_canonical}
use redstone_oracles_monorep.Protocol.Layout.{IsReadable}
use redstone_oracles_monorep.Protocol.ReadPackages.{IsReadablePayload}
use redstone_oracles_monorep.Protocol.RoundTrip.{reread_payload, parse-to_bytes}
use redstone_oracles_monorep.Protocol.Objects.{deserialize_signed-to_obj}

-- "ETH" and "BTC", in two bytes each
abbrev eth : DataPoint model
eth = new_data_point model (69 ∷ 84 ∷ 72 ∷ []) (7 ∷ 8 ∷ []) none

abbrev btc : DataPoint model
btc = new_data_point model (66 ∷ 84 ∷ 67 ∷ []) (1 ∷ 2 ∷ []) none

abbrev prices : SignedDataPackage model
prices = record {
  data_package = record {
    data_points = eth ∷ btc ∷ [];
    timestamp_milliseconds = 1700000000000;
    data_package_id = 80 ∷ [];
  };
  signature = 27;
}

abbrev sorted_prices : SignedDataPackage model
sorted_prices = record prices {
  data_package = record prices.data_package { data_points = btc ∷ eth ∷ [] };
}

abbrev payload : RedstonePayload model
payload = record { signed_data_packages = prices ∷ []; unsigned_metadata = bytes (9 ∷ []) }

-- "BTC" and "ETH" in 32 bytes
abbrev btc_id : Bytes
btc_id = 66 ∷ 84 ∷ 67 ∷ replicate 29 0

abbrev eth_id : Bytes
eth_id = 69 ∷ 84 ∷ 72 ∷ replicate 29 0

abbrev package_bytes : Bytes
package_bytes =
    btc_id
    ++ (1
        ∷ 2
        ∷ (eth_id ++ (7 ∷ 8 ∷ 1 ∷ 139 ∷ 207 ∷ 229 ∷ 104 ∷ 0 ∷ 0 ∷ 0 ∷ 0 ∷ 2 ∷ 0 ∷ 0 ∷ 2 ∷ [])))

abbrev payload_bytes : Bytes
payload_bytes =
    package_bytes ++ (27 ∷ (replicate 64 0 ++ ((0 ∷ 1 ∷ 9 ∷ 0 ∷ 0 ∷ 1 ∷ []) ++ redstone_marker)))

prices_bytes :
    DataPackage.to_bytes model prices.data_package ≡ ok (package_bytes, sorted_prices.data_package)
unfolding DataPackage.to_bytes serialize_data_points sort_points insert_point goes_before
    compare_bytes serialize_timestamp serialize_data_points_count
    serialize_default_data_point_byte_size get_each_data_point_byte_size DataPackage.bytes_of_each
    DataPoint.to_bytes convert_string_to_bytes32 convert_integer_number_to_bytes big_endian
prices_bytes = refl

payload_written :
    Payload.to_bytes model payload
    ≡ ok (payload_bytes, record payload { signed_data_packages = sorted_prices ∷ [] })
unfolding Payload.to_bytes Payload.serialize_signed_data_packages Payload.bytes_of_each
    signed_to_bytes Payload.serialize_unsigned_metadata DataPackage.to_bytes serialize_data_points
    sort_points insert_point goes_before compare_bytes serialize_timestamp
    serialize_data_points_count serialize_default_data_point_byte_size get_each_data_point_byte_size
    DataPackage.bytes_of_each DataPoint.to_bytes convert_string_to_bytes32
    convert_integer_number_to_bytes big_endian
payload_written = refl

abbrev prices-IsReadable : IsReadable model prices
prices-IsReadable = record {
  size = 2;
  points = (((omega arith, refl), refl), (((omega arith, refl), refl), tt));
  time_safe = omega arith;
  size_safe = omega arith;
  count_safe = omega arith;
}

payload-IsReadable : IsReadablePayload model payload
unfolding metadata_bytes
payload-IsReadable = record {
  packages = (prices-IsReadable, tt);
  count_safe = omega arith;
  metadata_safe = λ b h. ground arith;
}

parse-to_bytes_example :
    parse model ((1 ∷ 2 ∷ 3 ∷ []) ++ payload_bytes)
    ≡ ok (
        reread_payload model
          (record payload { signed_data_packages = sorted_prices ∷ [] })
          (9 ∷ [])
          (1 ∷ 2 ∷ 3 ∷ []))
unfolding metadata_bytes
parse-to_bytes_example =
    parse-to_bytes model model-Lawful (1 ∷ 2 ∷ 3 ∷ []) payload_bytes (9 ∷ []) payload
      (record payload { signed_data_packages = sorted_prices ∷ [] }) payload_written refl
      payload-IsReadable

duplicate_refused : sort_points model (eth ∷ btc ∷ eth ∷ []) ≡ err duplicated_data_feed_id
unfolding sort_points insert_point goes_before compare_bytes convert_string_to_bytes32
    serialize_data_feed_id
duplicate_refused = refl

no_marker : parse model (1 ∷ 2 ∷ []) ≡ err (invalid_redstone_marker (1 ∷ 2 ∷ []))
unfolding parse Parser.assert_valid_redstone_marker Parser.slice_back Parser.same_codes
no_marker = refl

prices-new :
    new_data_package model prices.data_package.data_points 1700000000000 (80 ∷ [])
    ≡ ok prices.data_package
unfolding new_data_package assert_same_size
prices-new = refl

deserialize_signed-to_obj_example :
    deserialize_signed_package model (signed_to_obj model prices) ≡ ok prices
deserialize_signed-to_obj_example =
    deserialize_signed-to_obj model model-Lawful prices (plain eth refl, (plain btc refl, tt))
      prices-new

abbrev three_hundred : Bytes
three_hundred = 0 ∷ 1 ∷ 44 ∷ []

points_sorted : sort_points model (eth ∷ btc ∷ []) ≡ ok (btc ∷ eth ∷ [])
unfolding sort_points insert_point goes_before compare_bytes convert_string_to_bytes32
    serialize_data_feed_id
points_sorted = refl

sort_points_canonical_example :
    Perm (btc ∷ eth ∷ []) (eth ∷ btc ∷ []) × IsSortedById model (btc ∷ eth ∷ [])
sort_points_canonical_example =
    sort_points_canonical model (eth ∷ btc ∷ []) (btc ∷ eth ∷ []) points_sorted

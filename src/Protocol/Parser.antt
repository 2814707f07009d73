-- ===== src/Protocol/Parser.antt =====
-- redstone-payload/RedstonePayloadParser.ts: reading a payload from the end of a byte array.
use redstone_oracles_monorep.Prelude.{
  ℕ, zero, suc, ◌+◌, Bool, true, false, not, none, List, [], ◌∷◌, ok, err, ◌>>=◌, ◌>>◌, length,
  filter, ◌==◌, if◌then◌else◌, pos, sub_ℕ, slice,
}
use redstone_oracles_monorep.Protocol.Platform.{
  Platform, Bytes, Text, Fallible, library, invalid_redstone_marker,
}
use redstone_oracles_monorep.Protocol.Constants.{
  timestamp_bs, data_points_count_bs, data_point_value_byte_size_bs, data_packages_count_bs,
  unsigned_metadata_byte_size_bs, redstone_marker, redstone_marker_bs, signature_bs,
  data_feed_id_bs,
}
use redstone_oracles_monorep.Protocol.Convert.{convert_bytes_to_number}
use redstone_oracles_monorep.Protocol.DataPoint.{DataPoint, new_data_point}
use redstone_oracles_monorep.Protocol.DataPackage.{
  SignedDataPackage, new_data_package, signed_to_bytes,
}

-- `RedstonePayloadParsingResult`
pub record ParsingResult (p : Platform) : Type 0 where
  pub signed_data_packages : List (SignedDataPackage p)
  pub unsigned_metadata : Bytes
  pub remainder_prefix : Bytes

-- `===` on texts and on byte strings
unfoldable pub same_codes : List ℕ → List ℕ → Bool
same_codes [] [] = true
same_codes [] (y ∷ ys) = false
same_codes (x ∷ xs) [] = false
same_codes (x ∷ xs) (y ∷ ys) = let rest = same_codes xs ys in if x == y then rest else false

-- "__MULTI_POINT__" and "__EMPTY__"
abbrev pub multi_point : Text
multi_point = 95 ∷ 95 ∷ 77 ∷ 85 ∷ 76 ∷ 84 ∷ 73 ∷ 95 ∷ 80 ∷ 79 ∷ 73 ∷ 78 ∷ 84 ∷ 95 ∷ 95 ∷ []

abbrev pub no_point : Text
no_point = 95 ∷ 95 ∷ 69 ∷ 77 ∷ 80 ∷ 84 ∷ 89 ∷ 95 ∷ 95 ∷ []

-- The assignments to `dataPackageId` in the loop over the data points, and after it; the empty text
-- is as good as `undefined` to `!dataPackageId`.
abbrev pub next_package_id : Text → Text → Text
next_package_id [] id = id
next_package_id (c ∷ cs) id = if same_codes (c ∷ cs) id then c ∷ cs else multi_point

abbrev pub final_package_id : Text → Text
final_package_id [] = no_point
final_package_id (c ∷ cs) = c ∷ cs

-- `slice({ negativeOffset, length })`
unfoldable pub slice_back : Bytes → ℕ → ℕ → Bytes
slice_back data_bytes negative_offset len =
    slice data_bytes (sub_ℕ (length data_bytes) (negative_offset + len))
      (sub_ℕ (length data_bytes) negative_offset)

module _ (p : Platform) (bytes_data : Bytes) where
  unfoldable pub extract_number : ℕ → ℕ → Fallible ℕ
  extract_number negative_offset len =
      convert_bytes_to_number p (slice_back bytes_data negative_offset len)

  unfoldable pub assert_valid_redstone_marker : Fallible (Unit {0})
  assert_valid_redstone_marker =
      let marker = slice_back bytes_data 0 redstone_marker_bs in
      if same_codes marker redstone_marker then ok tt else err (invalid_redstone_marker marker)

  unfoldable pub extract_unsigned_metadata : Fallible Bytes
  extract_unsigned_metadata = do
    size ← extract_number redstone_marker_bs unsigned_metadata_byte_size_bs
    ok (slice_back bytes_data (redstone_marker_bs + unsigned_metadata_byte_size_bs) size)

-- `createDataPoint`
unfoldable pub create_data_point : (p : Platform) → Bytes → Bytes → Fallible (DataPoint p)
create_data_point p data_feed_id value = do
  decoded ← library (p.to_utf8_string data_feed_id)
  ok (new_data_point p (filter (λ c. not (c == 0)) decoded) value none)

module _ (p : Platform) (bytes_data : Bytes) where
  -- The loop over `count` data points, with `negativeOffset`, `dataPackageId` and `dataPoints`.
  unfoldable pub extract_data_points :
      ℕ → ℕ → ℕ → Text → List (DataPoint p) → Fallible (Text × List (DataPoint p))
  extract_data_points zero value_size negative_offset package_id data_points =
      ok (package_id, data_points)
  extract_data_points (suc count) value_size negative_offset package_id data_points = do
    let value = slice_back bytes_data negative_offset value_size
    let data_feed_id = slice_back bytes_data (negative_offset + value_size) data_feed_id_bs
    data_point ← create_data_point p data_feed_id value
    extract_data_points count value_size (negative_offset + value_size + data_feed_id_bs)
        (next_package_id package_id data_point.data_feed_id) (data_point ∷ data_points)

  unfoldable pub extract_signed_data_package : ℕ → Fallible (SignedDataPackage p)
  extract_signed_data_package initial_negative_offset = do
    let signature = slice_back bytes_data initial_negative_offset signature_bs
    let offset1 = initial_negative_offset + signature_bs
    data_points_count ← extract_number p bytes_data offset1 data_points_count_bs
    let offset2 = offset1 + data_points_count_bs
    value_size ← extract_number p bytes_data offset2 data_point_value_byte_size_bs
    let offset3 = offset2 + data_point_value_byte_size_bs
    timestamp ← extract_number p bytes_data offset3 timestamp_bs
    let offset4 = offset3 + timestamp_bs
    (package_id, data_points) ← extract_data_points data_points_count value_size offset4 [] []
    data_package ← new_data_package p data_points timestamp (final_package_id package_id)
    parsed ← library (p.split_signature signature)
    ok (record { data_package = data_package; signature = parsed })

  -- The loop over `count` packages: each is serialized again for its length, which sorts its points.
  unfoldable pub extract_packages :
      ℕ → ℕ → List (SignedDataPackage p) → Fallible (ℕ × List (SignedDataPackage p))
  extract_packages zero negative_offset found = ok (negative_offset, found)
  extract_packages (suc count) negative_offset found = do
    signed ← extract_signed_data_package negative_offset
    (bytes, sorted) ← signed_to_bytes p signed
    extract_packages count (negative_offset + length bytes) (sorted ∷ found)

  unfoldable pub parse : Fallible (ParsingResult p)
  parse = do
    assert_valid_redstone_marker p bytes_data
    unsigned_metadata ← extract_unsigned_metadata p bytes_data
    let offset1 = length unsigned_metadata + unsigned_metadata_byte_size_bs + redstone_marker_bs
    count ← extract_number p bytes_data offset1 data_packages_count_bs
    (negative_offset, packages) ← extract_packages count (offset1 + data_packages_count_bs) []
    ok (record {
      signed_data_packages = packages;
      unsigned_metadata = unsigned_metadata;
      remainder_prefix = slice bytes_data (pos 0) (sub_ℕ (length bytes_data) negative_offset);
    })

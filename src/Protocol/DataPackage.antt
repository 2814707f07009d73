-- ===== src/Protocol/DataPackage.antt =====
-- data-package/: data points with a time, their canonical bytes, and the signed package.
-- Serializing sorts the points of the package in place, so it returns the package as it leaves it.
use Prim.Native.Nat.{compare, Ordering}
use redstone_oracles_monorep.Prelude.{
  ℕ, Bool, true, false, List, [], ◌∷◌, ok, err, ◌>>=◌, ◌>>◌, guard, length, map, ◌==◌,
  if◌then◌else◌,
}
use redstone_oracles_monorep.Protocol.Platform.{
  Platform, Bytes, Text, Fallible, library, type_error, no_data_points, mixed_value_sizes,
  duplicated_data_feed_id, empty_signature,
}
use redstone_oracles_monorep.Protocol.Constants.{
  timestamp_bs, data_points_count_bs, data_point_value_byte_size_bs,
}
use redstone_oracles_monorep.Protocol.Convert.{number, convert_integer_number_to_bytes}
use redstone_oracles_monorep.Protocol.DataPoint
use redstone_oracles_monorep.Protocol.DataPoint.{
  DataPoint, DataPointPlainObj, get_value_byte_size, serialize_data_feed_id,
  deserialize_data_point_from_obj,
}

-- The order of `localeCompare` on the hex texts of byte strings.
unfoldable pub compare_bytes : Bytes → Bytes → Ordering
compare_bytes [] [] = Ordering.eq
compare_bytes [] (y ∷ ys) = Ordering.lt
compare_bytes (x ∷ xs) [] = Ordering.gt
compare_bytes (x ∷ xs) (y ∷ ys) =
    let rest = compare_bytes xs ys in
    elim (compare x y) [
      | Ordering.lt ↦ Ordering.lt
      | Ordering.eq ↦ rest
      | Ordering.gt ↦ Ordering.gt
    ]

abbrev pub verdict : Ordering → Fallible Bool
verdict Ordering.lt = ok true
verdict Ordering.eq = err duplicated_data_feed_id
verdict Ordering.gt = ok false

pub record DataPackage (p : Platform) : Type 0 where
  pub data_points : List (DataPoint p)
  pub timestamp_milliseconds : ℕ
  pub data_package_id : Text

pub record DataPackagePlainObj (p : Platform) : Type 0 where
  pub data_points : List (DataPointPlainObj p)
  pub timestamp_milliseconds : ℕ
  pub data_package_id : Text

pub record SignedDataPackage (p : Platform) : Type 0 where
  pub data_package : DataPackage p
  pub signature : p.Signature

-- `SignedDataPackagePlainObj`, with the signature as base64
pub record SignedPlainObj (p : Platform) : Type 0 where
  pub unsigned : DataPackagePlainObj p
  pub signature : Text

module _ (p : Platform) where
  unfoldable pub assert_same_size : ℕ → List (DataPoint p) → Fallible (Unit {0})
  assert_same_size expected [] = ok tt
  assert_same_size expected (dp ∷ dps) = do
    guard (get_value_byte_size p dp == expected) mixed_value_sizes
    assert_same_size expected dps

  -- the constructor of the class `DataPackage`
  unfoldable pub new_data_package : List (DataPoint p) → ℕ → Text → Fallible (DataPackage p)
  new_data_package [] timestamp id = err no_data_points
  new_data_package (dp ∷ dps) timestamp id = do
    assert_same_size (get_value_byte_size p dp) (dp ∷ dps)
    ok (record { data_points = dp ∷ dps; timestamp_milliseconds = timestamp; data_package_id = id })

  -- the comparator of the sort, negative (`true`) or positive
  unfoldable pub goes_before : DataPoint p → DataPoint p → Fallible Bool
  goes_before dp1 dp2 = do
    bytes1 ← serialize_data_feed_id p dp1
    bytes2 ← serialize_data_feed_id p dp2
    verdict (compare_bytes bytes1 bytes2)

  unfoldable pub insert_point : DataPoint p → List (DataPoint p) → Fallible (List (DataPoint p))
  insert_point dp [] = ok (dp ∷ [])
  insert_point dp (e ∷ es) = do
    first ← goes_before dp e
    if first then ok (dp ∷ e ∷ es) else (do rest ← insert_point dp es; ok (e ∷ rest))

  -- `dataPoints.sort(...)`: any sort by a comparator that throws at equal keys has this result.
  unfoldable pub sort_points : List (DataPoint p) → Fallible (List (DataPoint p))
  sort_points [] = ok []
  sort_points (dp ∷ dps) = do sorted ← sort_points dps; insert_point dp sorted

  unfoldable pub bytes_of_each : List (DataPoint p) → Fallible (List Bytes)
  bytes_of_each [] = ok []
  bytes_of_each (dp ∷ dps) = do
    bytes ← DataPoint.to_bytes p dp
    rest ← bytes_of_each dps
    ok (bytes ∷ rest)

  unfoldable pub serialize_data_points : DataPackage p → Fallible (Bytes × DataPackage p)
  serialize_data_points pkg = do
    sorted ← sort_points pkg.data_points
    each ← bytes_of_each sorted
    ok (p.concat each, record pkg { data_points = sorted })

  unfoldable pub get_each_data_point_byte_size : DataPackage p → Fallible ℕ
  get_each_data_point_byte_size pkg = elim pkg.data_points [
    | [] ↦ err type_error
    | dp ∷ dps ↦ ok (get_value_byte_size p dp)
  ]

  abbrev pub integer_bytes : ℕ → ℕ → Fallible Bytes
  integer_bytes n byte_size = convert_integer_number_to_bytes p (number (p.of_ℕ n)) byte_size

  unfoldable pub serialize_timestamp : DataPackage p → Fallible Bytes
  serialize_timestamp pkg = integer_bytes pkg.timestamp_milliseconds timestamp_bs

  unfoldable pub serialize_data_points_count : DataPackage p → Fallible Bytes
  serialize_data_points_count pkg = integer_bytes (length pkg.data_points) data_points_count_bs

  unfoldable pub serialize_default_data_point_byte_size : DataPackage p → Fallible Bytes
  serialize_default_data_point_byte_size pkg = do
    size ← get_each_data_point_byte_size pkg
    integer_bytes size data_point_value_byte_size_bs

  unfoldable pub to_bytes : DataPackage p → Fallible (Bytes × DataPackage p)
  to_bytes pkg = do
    (points, sorted) ← serialize_data_points pkg
    time ← serialize_timestamp sorted
    size ← serialize_default_data_point_byte_size sorted
    count ← serialize_data_points_count sorted
    ok (p.concat (points ∷ time ∷ size ∷ count ∷ []), sorted)

  unfoldable pub to_obj : DataPackage p → DataPackagePlainObj p
  to_obj pkg = record {
    data_points = map (DataPoint.to_obj p) pkg.data_points;
    timestamp_milliseconds = pkg.timestamp_milliseconds;
    data_package_id = pkg.data_package_id;
  }

  unfoldable pub deserialize_each : List (DataPointPlainObj p) → Fallible (List (DataPoint p))
  deserialize_each [] = ok []
  deserialize_each (o ∷ os) = do
    dp ← deserialize_data_point_from_obj p o
    rest ← deserialize_each os
    ok (dp ∷ rest)

  unfoldable pub from_obj : DataPackagePlainObj p → Fallible (DataPackage p)
  from_obj plain = do
    data_points ← deserialize_each plain.data_points
    new_data_package data_points plain.timestamp_milliseconds plain.data_package_id

  unfoldable pub get_signable_hash : DataPackage p → Fallible (Bytes × DataPackage p)
  get_signable_hash pkg = do (bytes, sorted) ← to_bytes pkg; ok (p.keccak256 bytes, sorted)

  unfoldable pub sign : DataPackage p → Text → Fallible (SignedDataPackage p)
  sign pkg private_key = do
    (hash, sorted) ← get_signable_hash pkg
    ok (record { data_package = sorted; signature = p.sign_digest private_key hash })

  unfoldable pub signed_to_bytes : SignedDataPackage p → Fallible (Bytes × SignedDataPackage p)
  signed_to_bytes signed = do
    (bytes, sorted) ← to_bytes signed.data_package
    ok (
      p.concat (bytes ∷ p.join_signature signed.signature ∷ []),
      record signed { data_package = sorted },
    )

  unfoldable pub signed_to_obj : SignedDataPackage p → SignedPlainObj p
  signed_to_obj signed = record {
    unsigned = to_obj signed.data_package;
    signature = p.base64_encode (p.join_signature signed.signature);
  }

  unfoldable pub deserialize_signed_package : SignedPlainObj p → Fallible (SignedDataPackage p)
  deserialize_signed_package plain =
      if length plain.signature == 0 then err empty_signature else (do
        bytes ← library (p.base64_decode plain.signature)
        signature ← library (p.split_signature bytes)
        pkg ← from_obj plain.unsigned
        ok (record { data_package = pkg; signature = signature }))

-- ===== src/Protocol/DataPoint.antt =====
-- data-point/: an oracle value under its feed's id. A `NumericDataPoint` keeps its arguments.
use redstone_oracles_monorep.Prelude.{
  ℕ, ◌≡◌, ap, sym, Option, none, some, [], ◌∷◌, ok, ◌>>=◌, ◌>>◌, guard, length, leb, arith,
}
use redstone_oracles_monorep.Protocol.Platform.{
  Platform, Lawful, Bytes, Text, Fallible, library, value_too_big,
}
use redstone_oracles_monorep.Protocol.Constants.{
  max_num_value_bs, default_num_value_bs, default_num_value_decimals,
}
use redstone_oracles_monorep.Protocol.Convert.{
  number, use_default_if_undefined, convert_string_to_bytes32, convert_number_to_bytes,
}

-- `INumericDataPoint`
pub record NumericArgs (p : Platform) : Type 0 where
  pub data_feed_id : Text
  pub value : p.Float
  pub decimals : Option ℕ
  pub value_byte_size : Option ℕ
  pub metadata : Option p.Metadata

-- `numeric_data_point_args` is there in a `NumericDataPoint` only.
pub record DataPoint (p : Platform) : Type 0 where
  pub data_feed_id : Text
  pub value : Bytes
  pub metadata : Option p.Metadata
  pub numeric_data_point_args : Option (NumericArgs p)

-- `IStandardDataPoint`, with the value as base64, and `INumericDataPoint`
pub data DataPointPlainObj (p : Platform) : Type 0 where
  standard : Text → Text → Option p.Metadata → DataPointPlainObj p
  numeric : NumericArgs p → DataPointPlainObj p

module _ (p : Platform) where
  -- the constructor of the class `DataPoint`
  abbrev pub new_data_point : Text → Bytes → Option p.Metadata → DataPoint p
  new_data_point data_feed_id value metadata = record {
    data_feed_id = data_feed_id;
    value = value;
    metadata = metadata;
    numeric_data_point_args = none;
  }

  -- the constructor of the class `NumericDataPoint`
  unfoldable pub new_numeric_data_point : NumericArgs p → Fallible (DataPoint p)
  new_numeric_data_point args = do
    let decimals = use_default_if_undefined args.decimals default_num_value_decimals
    let value_byte_size = use_default_if_undefined args.value_byte_size default_num_value_bs
    guard (leb value_byte_size max_num_value_bs) value_too_big
    value_bytes ← convert_number_to_bytes p (number args.value) decimals value_byte_size
    ok (record {
      data_feed_id = args.data_feed_id;
      value = value_bytes;
      metadata = args.metadata;
      numeric_data_point_args = some args;
    })

  -- the constructor of the class `StringDataPoint`
  unfoldable pub new_string_data_point : Text → Text → Fallible (DataPoint p)
  new_string_data_point data_feed_id value = do
    value_bytes ← library (p.to_utf8_bytes value)
    ok (new_data_point data_feed_id value_bytes none)

  unfoldable pub serialize_data_feed_id : DataPoint p → Fallible Bytes
  serialize_data_feed_id dp = convert_string_to_bytes32 p dp.data_feed_id

  abbrev pub get_value_byte_size : DataPoint p → ℕ
  get_value_byte_size dp = length dp.value

  unfoldable pub to_bytes : DataPoint p → Fallible Bytes
  unfolding serialize_data_feed_id
  to_bytes dp = do
    serialized_data_feed_id ← serialize_data_feed_id dp
    ok (p.concat (serialized_data_feed_id ∷ dp.value ∷ []))

  abbrev plain_obj : DataPoint p → Option (NumericArgs p) → DataPointPlainObj p
  plain_obj dp none = standard dp.data_feed_id (p.base64_encode dp.value) dp.metadata
  plain_obj dp (some args) = numeric args

  unfoldable pub to_obj : DataPoint p → DataPointPlainObj p
  to_obj dp = plain_obj dp dp.numeric_data_point_args

  unfoldable pub deserialize_data_point_from_obj : DataPointPlainObj p → Fallible (DataPoint p)
  deserialize_data_point_from_obj (numeric args) = new_numeric_data_point args
  deserialize_data_point_from_obj (standard data_feed_id value metadata) = do
    bytes ← library (p.base64_decode value)
    ok (new_data_point data_feed_id bytes metadata)

-- A data point that one of the constructors has made.
pub data IsConstructed (p : Platform) : DataPoint p → Type 0 where
  plain : (dp : DataPoint p) → dp.numeric_data_point_args ≡ none → IsConstructed p dp
  from_numeric :
      (dp : DataPoint p) (args : NumericArgs p)
      → new_numeric_data_point p args ≡ ok dp
      → IsConstructed p dp

plain_obj-none :
    (p : Platform) (dp : DataPoint p)
    → dp.numeric_data_point_args ≡ none
    → to_obj p dp ≡ standard dp.data_feed_id (p.base64_encode dp.value) dp.metadata
unfolding to_obj
plain_obj-none p dp h = rw h

new_numeric_data_point-args :
    (p : Platform) (args : NumericArgs p) (dp : DataPoint p)
    → new_numeric_data_point p args ≡ ok dp
    → to_obj p dp ≡ numeric args
unfolding new_numeric_data_point to_obj
new_numeric_data_point-args p args dp h = ground arith

module _ (p : Platform) (laws : Lawful p) where
  -- The plain object of a constructed data point is read back as that data point.
  pub deserialize-to_obj :
      (dp : DataPoint p)
      → IsConstructed p dp
      → deserialize_data_point_from_obj p (to_obj p dp) ≡ ok dp
  unfolding deserialize_data_point_from_obj
  deserialize-to_obj dp (plain _ none_given) = rw (plain_obj-none p dp none_given) (
      rw (laws.base64_decode-encode dp.value)
        (ap (λ args. ok (record dp { numeric_data_point_args = args })) (sym none_given)))
  deserialize-to_obj dp (from_numeric _ args made) =
      rw (new_numeric_data_point-args p args dp made) made

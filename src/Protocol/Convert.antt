-- ===== src/Protocol/Convert.antt =====
-- common/utils.ts: texts and numbers to bytes and back.
use redstone_oracles_monorep.Prelude.{
  ℕ, ◌^◌, ◌<◌, ◌≡◌, Option, ok, err, ◌>>=◌, ◌>>◌, guard, length, any, ltb, leb, ◌==◌, if◌then◌else◌,
  arith, or_default,
}
use redstone_oracles_monorep.Protocol.Platform.{
  Platform, Lawful, Bytes, Text, Fallible, library, overflow, not_an_integer, not_a_safe_integer,
}

-- `NumberLike`
pub data NumberLike (p : Platform) : Type 0 where
  number : p.Float → NumberLike p
  text : Text → NumberLike p

-- `useDefaultIfUndefined`
abbrev pub use_default_if_undefined : {A : Type 0} → Option A → A → A
use_default_if_undefined value default_value = or_default value default_value

module _ (p : Platform) where
  unfoldable pub convert_string_to_bytes32 : Text → Fallible Bytes
  convert_string_to_bytes32 str =
      if ltb 31 (length str)
      then (if p.is_hex_string str
          then ok (p.keccak256 (p.hex_bytes str))
          else (do bytes ← library (p.to_utf8_bytes str); ok (p.keccak256 bytes)))
      else library (p.format_bytes32_string str)

  unfoldable pub convert_number_to_string : NumberLike p → ℕ → Fallible Text
  convert_number_to_string (text value) decimals = library (p.decimal_to_fixed value decimals)
  convert_number_to_string (number value) decimals =
      let stringified = p.to_fixed value decimals in
      if any (λ c. c == b'e') stringified
      then ok (p.to_full_string (p.number_of stringified))
      else ok stringified

  abbrev pub pad_number : ℕ → ℕ → Fallible Bytes
  pad_number value byte_size =
      if ltb byte_size (length (p.number_bytes value))
      then err overflow
      else ok (p.zero_pad (p.number_bytes value) byte_size)

  unfoldable pub convert_number_to_bytes : NumberLike p → ℕ → ℕ → Fallible Bytes
  unfolding convert_number_to_string
  convert_number_to_bytes value decimals byte_size = do
    stringified ← convert_number_to_string value decimals
    big_number ← library (p.parse_units stringified decimals)
    pad_number big_number byte_size

  -- `Number(value)`
  abbrev pub to_number : NumberLike p → p.Float
  to_number (number value) = value
  to_number (text value) = p.number_of value

  unfoldable pub convert_integer_number_to_bytes : NumberLike p → ℕ → Fallible Bytes
  unfolding convert_number_to_bytes
  convert_integer_number_to_bytes value byte_size = do
    guard (p.is_integer (to_number value)) not_an_integer
    convert_number_to_bytes value 0 byte_size

  -- `BigNumber.toNumber` throws above `Number.MAX_SAFE_INTEGER`.
  unfoldable pub convert_bytes_to_number : Bytes → Fallible ℕ
  convert_bytes_to_number bytes = do
    value ← library (p.bytes_number bytes)
    if leb (2 ^ 53) value then err not_a_safe_integer else ok value

module _ (p : Platform) (laws : Lawful p) where
  -- A count, a size or a time is written as its padded bytes, or refused as too large.
  pub convert_integer-of_ℕ :
      (n byte_size : ℕ)
      → n < 2 ^ 53
      → convert_integer_number_to_bytes p (number (p.of_ℕ n)) byte_size ≡ pad_number p n byte_size
  unfolding convert_integer_number_to_bytes
  convert_integer-of_ℕ n byte_size h =
      rw (laws.is_integer-of_ℕ n h, laws.to_fixed_plain n h) (rw (laws.parse_units-to_fixed n h))

  pad_number-ok :
      (n byte_size : ℕ) (bytes : Bytes)
      → n < 2 ^ 53
      → pad_number p n byte_size ≡ ok bytes
      → (length bytes ≡ byte_size) × (convert_bytes_to_number p bytes ≡ ok n)
  unfolding convert_bytes_to_number
  pad_number-ok n byte_size bytes h e = ground (
    arith,
    laws.length-zero_pad (p.number_bytes n) byte_size,
    laws.bytes_number-zero_pad n byte_size,
  )

  -- What `convertIntegerNumberToBytes` wrote is as long as asked for, and reads back.
  pub convert_bytes-convert_integer :
      (n byte_size : ℕ) (bytes : Bytes)
      → n < 2 ^ 53
      → convert_integer_number_to_bytes p (number (p.of_ℕ n)) byte_size ≡ ok bytes
      → (length bytes ≡ byte_size) × (convert_bytes_to_number p bytes ≡ ok n)
  convert_bytes-convert_integer n byte_size bytes h e =
      pad_number-ok n byte_size bytes h (rw (convert_integer-of_ℕ n byte_size h) at e)

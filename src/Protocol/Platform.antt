-- ===== src/Protocol/Platform.antt =====
-- What packages/protocol takes from ethers, decimal.js and JavaScript's floating point numbers: the
-- operations as a record, and what the code relies on as a second record of laws.
use redstone_oracles_monorep.Prelude.{
  ℕ, ◌^◌, ◌≤◌, ◌<◌, Bool, true, false, not, Option, none, some, List, [], ◌∷◌, ◌++◌, ◌≡◌, Result,
  ok, err, length, filter, any, ◌==◌,
}

-- A `Uint8Array`, and a string as its UTF-16 code units.
abbrev pub Bytes : Type 0
Bytes = List ℕ

abbrev pub Text : Type 0
Text = List ℕ

-- What the code throws; `library_error` is an error thrown by a library that it calls.
pub data ProtocolError : Type 0 where
  library_error overflow not_an_integer not_a_safe_integer : ProtocolError
  type_error no_data_points mixed_value_sizes value_too_big empty_signature : ProtocolError
  duplicated_data_feed_id : ProtocolError
  invalid_redstone_marker : Bytes → ProtocolError

abbrev pub Fallible {ℓ} : Type ℓ → Type ℓ
Fallible A = Result ProtocolError A

-- A call of a library function that throws where the model's returns `none`.
abbrev pub library {ℓ} : {A : Type ℓ} → Option A → Fallible A
library none = err library_error
library (some a) = ok a

abbrev pub flatten : List Bytes → Bytes
flatten [] = []
flatten (b ∷ bs) = b ++ flatten bs

pub record Platform : Type 1 where
  -- JavaScript's numbers, ethers' signatures, and `Record<string, unknown>`
  pub Float : Type 0
  pub Signature : Type 0
  pub Metadata : Type 0
  pub of_ℕ : ℕ → Float
  -- `Number.isInteger`, `Number.prototype.toFixed`, `Number(text)`, and the `toLocaleString` without
  -- grouping
  pub is_integer : Float → Bool
  pub to_fixed : Float → ℕ → Text
  pub number_of : Text → Float
  pub to_full_string : Float → Text
  -- decimal.js: `new Decimal(text).toFixed(decimals)`
  pub decimal_to_fixed : Text → ℕ → Option Text
  -- ethers: `parseUnits`, `arrayify(value.toHexString())`, `zeroPad`, `concat`, `BigNumber.from`
  pub parse_units : Text → ℕ → Option ℕ
  pub number_bytes : ℕ → Bytes
  pub zero_pad : Bytes → ℕ → Bytes
  pub concat : List Bytes → Bytes
  pub bytes_number : Bytes → Option ℕ
  -- ethers: hashes and texts
  pub keccak256 : Bytes → Bytes
  pub is_hex_string : Text → Bool
  pub hex_bytes : Text → Bytes
  pub to_utf8_bytes : Text → Option Bytes
  pub to_utf8_string : Bytes → Option Text
  pub format_bytes32_string : Text → Option Bytes
  pub base64_encode : Bytes → Text
  pub base64_decode : Text → Option Bytes
  -- ethers: signatures
  pub split_signature : Bytes → Option Signature
  pub join_signature : Signature → Bytes
  pub sign_digest : Text → Bytes → Signature

-- What the code relies on.
pub record Lawful (p : Platform) : Type 1 where
  pub concat_lem : (bs : List Bytes) → p.concat bs ≡ flatten bs
  pub length-zero_pad : (b : Bytes) (n : ℕ) → length b ≤ n → length (p.zero_pad b n) ≡ n
  -- the bytes of a number, padded on the left, read back as the number
  pub bytes_number-zero_pad :
      (k n : ℕ)
      → length (p.number_bytes k) ≤ n
      → p.bytes_number (p.zero_pad (p.number_bytes k) n) ≡ some k
  -- safe integers print as their digits
  pub is_integer-of_ℕ : (n : ℕ) → n < 2 ^ 53 → p.is_integer (p.of_ℕ n) ≡ true
  pub to_fixed_plain : (n : ℕ) → n < 2 ^ 53 → any (λ c. c == b'e') (p.to_fixed (p.of_ℕ n) 0) ≡ false
  pub parse_units-to_fixed :
      (n : ℕ) → n < 2 ^ 53 → p.parse_units (p.to_fixed (p.of_ℕ n) 0) 0 ≡ some n
  pub length-keccak256 : (b : Bytes) → length (p.keccak256 b) ≡ 32
  pub length-format_bytes32_string :
      (t : Text) (b : Bytes) → p.format_bytes32_string t ≡ some b → length b ≡ 32
  -- a text without NUL is read back from its `bytes32`, up to the padding
  pub to_utf8_string-format :
      (t : Text) (b : Bytes)
      → p.format_bytes32_string t ≡ some b
      → any (λ c. c == 0) t ≡ false
      → (u : Text) × (p.to_utf8_string b ≡ some u) × (filter (λ c. not (c == 0)) u ≡ t)
  pub base64_decode-encode : (b : Bytes) → p.base64_decode (p.base64_encode b) ≡ some b
  pub base64_encode_nonempty : (b : Bytes) → 0 < length b → 0 < length (p.base64_encode b)
  pub split-join : (s : p.Signature) → p.split_signature (p.join_signature s) ≡ some s
  pub length-join : (s : p.Signature) → length (p.join_signature s) ≡ 65

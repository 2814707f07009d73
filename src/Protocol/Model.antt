-- ===== src/Protocol/Model.antt =====
-- A concrete platform that meets the laws: bytes are big-endian, texts are their own UTF-8 (ASCII),
-- base64 is the identity, and a signature is a number in 65 bytes.
use redstone_oracles_monorep.Prelude.{
  ℕ, zero, suc, ◌+◌, ◌-◌, ◌*◌, ◌/◌, ◌%◌, ◌≤◌, ◌<◌, ◌≡◌, refl, ap, ◌∙◌, true, false, not, Option,
  none, some, [], ◌∷◌, ◌++◌, arith, length, replicate, filter, any, leb, ◌==◌, if◌then◌else◌,
  length-append, length-replicate, Bool-cases, inl, inr,
}
use redstone_oracles_monorep.Protocol.Platform.{Platform, Lawful, Bytes, Text, flatten}

abbrev value_from : ℕ → Bytes → ℕ
value_from acc [] = acc
value_from acc (b ∷ bs) = value_from (acc * 256 + b) bs

value_from-append :
    (acc : ℕ) (xs ys : Bytes) → value_from acc (xs ++ ys) ≡ value_from (value_from acc xs) ys
value_from-append acc [] ys = refl
value_from-append acc (x ∷ xs) ys = value_from-append (acc * 256 + x) xs ys

value_from-zeros : (k : ℕ) (ys : Bytes) → value_from 0 (replicate k 0 ++ ys) ≡ value_from 0 ys
value_from-zeros zero ys = refl
value_from-zeros (suc k) ys = value_from-zeros k ys

-- The digits of `n` to the base 256, for a fuel of at least `n`.
unfoldable pub digits : ℕ → ℕ → Bytes
digits zero n = []
digits (suc fuel) n =
    let rest = digits fuel (n / 256) in if n == 0 then [] else rest ++ (n % 256 ∷ [])

value-digits : (fuel n : ℕ) → n ≤ fuel → value_from 0 (digits fuel n) ≡ n
unfolding digits
value-digits zero n h = omega arith
value-digits (suc fuel) n h = elim (Bool-cases (n == 0)) [
  | inl e ↦ rw e (ground (arith, e))
  | inr e ↦
      rw e
        (rw value_from-append (rw (value-digits fuel (n / 256) (ground (arith, e))) (omega arith)))
]

unfoldable pub big_endian : ℕ → Bytes
unfolding digits
big_endian n = if n == 0 then 0 ∷ [] else digits n n

digits_pos : (fuel n : ℕ) → (n == 0) ≡ false → n ≤ fuel → 0 < length (digits fuel n)
unfolding digits
digits_pos zero n e h = absurd (ground (arith, e))
digits_pos (suc fuel) n e h = rw e (rw length-append (omega arith))

big_endian_pos : (n : ℕ) → 0 < length (big_endian n)
unfolding big_endian
big_endian_pos n = elim (Bool-cases (n == 0)) [
  | inl e ↦ rw e (omega arith)
  | inr e ↦ rw e (digits_pos n n e (omega arith))
]

value-big_endian : (n : ℕ) → value_from 0 (big_endian n) ≡ n
unfolding big_endian
value-big_endian n = elim (Bool-cases (n == 0)) [
  | inl e ↦ rw e (ground (arith, e))
  | inr e ↦ rw e (value-digits n n (omega arith))
]

abbrev pad_left : Bytes → ℕ → Bytes
pad_left b n = replicate (n - length b) 0 ++ b

abbrev number_in : Bytes → Option ℕ
number_in [] = none
number_in (b ∷ bs) = some (value_from 0 (b ∷ bs))

number_in-some : (bs : Bytes) → 0 < length bs → number_in bs ≡ some (value_from 0 bs)
number_in-some [] h = absurd (omega arith)
number_in-some (b ∷ bs) h = refl

length-pad_left : (b : Bytes) (n : ℕ) → length b ≤ n → length (pad_left b n) ≡ n
length-pad_left b n h = rw (length-append, length-replicate) (omega arith)

number_in-pad_left :
    (k n : ℕ) → length (big_endian k) ≤ n → number_in (pad_left (big_endian k) n) ≡ some k
number_in-pad_left k n h =
    number_in-some (pad_left (big_endian k) n)
      (rw (length-pad_left (big_endian k) n h) (omega (arith, big_endian_pos k)))
    ∙ ap some (value_from-zeros (n - length (big_endian k)) (big_endian k) ∙ value-big_endian k)

abbrev bytes32 : Text → Option Bytes
bytes32 t = if leb (length t) 31 then some (t ++ replicate (32 - length t) 0) else none

length-bytes32 : (t : Text) (b : Bytes) → bytes32 t ≡ some b → length b ≡ 32
length-bytes32 t b h = ground (
  arith,
  length-append t (replicate (32 - length t) 0),
  length-replicate {A = ℕ} (32 - length t) 0,
)

filter-zeros : (k : ℕ) → filter (λ c. not (c == 0)) (replicate k 0) ≡ []
filter-zeros zero = refl
filter-zeros (suc k) = filter-zeros k

filter-padded :
    (t : Text) (k : ℕ)
    → any (λ c. c == 0) t ≡ false
    → filter (λ c. not (c == 0)) (t ++ replicate k 0) ≡ t
filter-padded [] k h = filter-zeros k
filter-padded (c ∷ t) k h = ground (arith, filter-padded t k)

bytes32_read :
    (t : Text) (b : Bytes)
    → bytes32 t ≡ some b
    → any (λ c. c == 0) t ≡ false
    → (u : Text) × (some b ≡ some u) × (filter (λ c. not (c == 0)) u ≡ t)
bytes32_read t b h k = (b, refl, ground (arith, filter-padded t (32 - length t)))

abbrev join : ℕ → Bytes
join s = s ∷ replicate 64 0

abbrev split : Bytes → Option ℕ
split [] = none
split (b ∷ bs) = some b

abbrev pub model : Platform
model = record {
  Float = ℕ;
  Signature = ℕ;
  Metadata = ℕ;
  of_ℕ = λ n. n;
  is_integer = λ n. true;
  to_fixed = λ n d. (n + 1000) ∷ [];
  number_of = λ t. value_from 0 t;
  to_full_string = λ n. (n + 1000) ∷ [];
  decimal_to_fixed = λ t d. some t;
  parse_units = λ t d. some (value_from 0 t - 1000);
  number_bytes = big_endian;
  zero_pad = pad_left;
  concat = flatten;
  bytes_number = number_in;
  keccak256 = λ b. replicate 32 0;
  is_hex_string = λ t. false;
  hex_bytes = λ t. t;
  to_utf8_bytes = λ t. some t;
  to_utf8_string = λ b. some b;
  format_bytes32_string = bytes32;
  base64_encode = λ b. b;
  base64_decode = λ t. some t;
  split_signature = split;
  join_signature = join;
  sign_digest = λ k h. length k;
}

pub model-Lawful : Lawful model
model-Lawful = record {
  concat_lem = λ bs. refl;
  length-zero_pad = length-pad_left;
  bytes_number-zero_pad = number_in-pad_left;
  is_integer-of_ℕ = λ n h. refl;
  to_fixed_plain = λ n h. ground arith;
  parse_units-to_fixed =
      λ n h. ap some (let e : value_from 0 ((n + 1000) ∷ []) - 1000 ≡ n = omega arith in e);
  length-keccak256 = λ b. refl;
  length-format_bytes32_string = length-bytes32;
  to_utf8_string-format = bytes32_read;
  base64_decode-encode = λ b. refl;
  base64_encode_nonempty = λ b h. h;
  split-join = λ s. refl;
  length-join = λ s. refl;
}

-- ===== src/Protocol/RoundTrip.antt =====
-- Parsing what `RedstonePayload` serialized, behind any bytes.
use redstone_oracles_monorep.Prelude.{
  ℕ, ◌+◌, ◌≡◌, refl, sym, ap, ◌∙◌, true, List, [], ◌∷◌, ◌++◌, append-nil, append_assoc, ok, length,
  map, arith, ok_injective, length-append, length-rev_append, rev_append-rev_append, map-rev_append,
  rev_append, All-rev_append,
}
use redstone_oracles_monorep.Protocol.Platform.{Platform, Lawful, Bytes, flatten}
use redstone_oracles_monorep.Protocol.Constants.{
  redstone_marker, redstone_marker_bs, data_packages_count_bs, unsigned_metadata_byte_size_bs,
}
use redstone_oracles_monorep.Protocol.Payload
use redstone_oracles_monorep.Protocol.Payload.{
  RedstonePayload, BytesLike, metadata_bytes, snoc, serialize_signed_data_packages,
  serialize_unsigned_metadata,
}
use redstone_oracles_monorep.Protocol.Parser.{
  ParsingResult, same_codes, extract_packages, assert_valid_redstone_marker,
  extract_unsigned_metadata, extract_number, parse,
}
use redstone_oracles_monorep.Protocol.Slices.{slice_back-mid, slice-front}
use redstone_oracles_monorep.Protocol.ReadPoints.{flatten_rev, flatten_rev-rev_append}
use redstone_oracles_monorep.Protocol.Layout.{reread_package}
use redstone_oracles_monorep.Protocol.PackageParts.{extract_number-written}
use redstone_oracles_monorep.Protocol.ReadPackages.{
  WrittenPackages-rev_append, extract_packages-Written, PayloadLayout, payload-layout,
  IsReadablePayload,
}

-- What the parser makes of a payload behind a prefix.
abbrev pub reread_payload : (p : Platform) → RedstonePayload p → Bytes → Bytes → ParsingResult p
reread_payload p left metadata prefix = record {
  signed_data_packages = map (reread_package p) left.signed_data_packages;
  unsigned_metadata = metadata;
  remainder_prefix = prefix;
}

same_codes_refl : (xs : List ℕ) → same_codes xs xs ≡ true
unfolding same_codes
same_codes_refl [] = refl
same_codes_refl (x ∷ xs) = ground (arith, same_codes_refl xs)

module _ (p : Platform) (laws : Lawful p) (data_bytes prefix c : Bytes)
    (payload left : RedstonePayload p) (readable : IsReadablePayload p payload)
    (l : PayloadLayout p payload c left) (e : data_bytes ≡ prefix ++ c) where
  layout :
      data_bytes
      ≡ prefix ++ (flatten l.each ++ (l.count ++ (l.metadata ++ (l.size ++ redstone_marker))))
  layout = e ∙ ap (λ b. prefix ++ b) l.same_bytes

  marker_read : assert_valid_redstone_marker p data_bytes ≡ ok tt
  unfolding assert_valid_redstone_marker
  marker_read =
      rw
        (slice_back-mid data_bytes
          (prefix ++ (flatten l.each ++ (l.count ++ (l.metadata ++ l.size)))) redstone_marker [] 0
          redstone_marker_bs (layout ∙ simp (append_assoc, append-nil)) refl refl)
        (rw (same_codes_refl redstone_marker))

  metadata_read : extract_unsigned_metadata p data_bytes ≡ ok l.metadata
  unfolding extract_unsigned_metadata
  metadata_read =
      let (reads, long) =
        extract_number-written p laws data_bytes
          (prefix ++ (flatten l.each ++ (l.count ++ l.metadata))) l.size redstone_marker
          redstone_marker_bs unsigned_metadata_byte_size_bs (length l.metadata)
          (layout ∙ simp append_assoc) refl (readable.metadata_safe l.metadata l.is_metadata)
          l.sized in
      rw reads (
        ap ok (
          slice_back-mid data_bytes (prefix ++ (flatten l.each ++ l.count)) l.metadata
            (l.size ++ redstone_marker) (redstone_marker_bs + unsigned_metadata_byte_size_bs)
            (length l.metadata) (layout ∙ simp append_assoc)
            (rw length-append (omega (arith, long))) refl))

  abbrev behind_count : ℕ
  behind_count = length l.metadata + unsigned_metadata_byte_size_bs + redstone_marker_bs

  size_long : length l.size ≡ unsigned_metadata_byte_size_bs
  size_long =
      (extract_number-written p laws data_bytes
        (prefix ++ (flatten l.each ++ (l.count ++ l.metadata))) l.size redstone_marker
        redstone_marker_bs unsigned_metadata_byte_size_bs (length l.metadata)
        (layout ∙ simp append_assoc) refl (readable.metadata_safe l.metadata l.is_metadata)
        l.sized).1

  behind_count_lem : behind_count ≡ length (l.metadata ++ (l.size ++ redstone_marker))
  behind_count_lem = rw (length-append, length-append) (omega (arith, size_long))

  count_read :
      (extract_number p data_bytes behind_count data_packages_count_bs
        ≡ ok (length payload.signed_data_packages))
      × (length l.count ≡ data_packages_count_bs)
  count_read =
      extract_number-written p laws data_bytes (prefix ++ flatten l.each) l.count
        (l.metadata ++ (l.size ++ redstone_marker)) behind_count data_packages_count_bs
        (length payload.signed_data_packages) (layout ∙ simp append_assoc) behind_count_lem
        readable.count_safe l.counted

  abbrev behind : Bytes
  behind = l.count ++ (l.metadata ++ (l.size ++ redstone_marker))

  packages_read :
      extract_packages p data_bytes
        (length payload.signed_data_packages)
        (behind_count + data_packages_count_bs)
        []
      ≡ ok (length (flatten l.each ++ behind), map (reread_package p) l.lefts)
  packages_read =
      ap (λ n. extract_packages p data_bytes n (behind_count + data_packages_count_bs) [])
        same_count
      ∙ (extract_packages-Written p laws data_bytes prefix behind
            (rev_append payload.signed_data_packages []) (rev_append l.each [])
            (rev_append l.lefts []) (behind_count + data_packages_count_bs) []
            (WrittenPackages-rev_append p payload.signed_data_packages [] l.each [] l.lefts []
              l.written tt)
            (All-rev_append _ payload.signed_data_packages [] readable.packages tt)
            (rw turned layout) offset
          ∙ rw (turned, reread_order) refl)
    where
      same_count :
          length payload.signed_data_packages ≡ length (rev_append payload.signed_data_packages [])
      same_count = omega (arith, length-rev_append payload.signed_data_packages [])

      turned : flatten_rev (rev_append l.each []) ≡ flatten l.each
      turned = flatten_rev-rev_append l.each []

      offset : behind_count + data_packages_count_bs ≡ length behind
      offset = rw length-append (omega (arith, behind_count_lem, count_read.1))

      reread_order :
          rev_append (map (reread_package p) (rev_append l.lefts [])) []
          ≡ map (reread_package p) l.lefts
      reread_order =
          ap (λ ls. rev_append ls []) (map-rev_append (reread_package p) l.lefts [])
          ∙ (rev_append-rev_append (map (reread_package p) l.lefts) [] [] ∙ append-nil _)

  parse_layout :
      parse p data_bytes
      ≡ ok (record {
        signed_data_packages = map (reread_package p) l.lefts;
        unsigned_metadata = l.metadata;
        remainder_prefix = prefix;
      })
  unfolding parse
  parse_layout = rw marker_read (
      rw metadata_read (
        rw (count_read.0) (
          rw packages_read (
            ap
              (λ b. ok (record {
                signed_data_packages = map (reread_package p) l.lefts;
                unsigned_metadata = l.metadata;
                remainder_prefix = b;
              }))
              (slice-front data_bytes prefix (flatten l.each ++ behind) _ layout refl)))))

-- A payload that serialized to `c`, behind any prefix, is parsed: its packages come back in order,
-- as serializing left them (their points sorted), each with its id worked out from its points, with
-- the metadata's bytes, and with the prefix as the remainder. The ids of the feeds must have at most
-- 31 characters and no NUL, the values of one package one size, and all numbers must be safe
-- integers.
pub parse-to_bytes :
    (p : Platform) (laws : Lawful p) (prefix c metadata : Bytes) (payload left : RedstonePayload p)
    → Payload.to_bytes p payload ≡ ok (c, left)
    → metadata_bytes p payload.unsigned_metadata ≡ ok metadata
    → IsReadablePayload p payload
    → parse p (prefix ++ c) ≡ ok (reread_payload p left metadata prefix)
parse-to_bytes p laws prefix c metadata payload left h m readable =
    let l = payload-layout p laws payload left c h in
    parse_layout p laws (prefix ++ c) prefix c payload left readable l refl
    ∙ (ap (λ b. ok (reread_payload p (record payload { signed_data_packages = l.lefts }) b prefix))
          (ok_injective (sym l.is_metadata ∙ m))
        ∙ ap (λ r. ok (reread_payload p r metadata prefix)) (sym l.same_left))

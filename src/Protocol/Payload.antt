-- ===== src/Protocol/Payload.antt =====
-- redstone-payload/RedstonePayload.ts: signed packages with unsigned metadata, ready to be appended
-- to the data of a call.
use redstone_oracles_monorep.Prelude.{List, [], ◌∷◌, ok, ◌>>=◌, length}
use redstone_oracles_monorep.Protocol.Platform.{Platform, Bytes, Text, Fallible, library}
use redstone_oracles_monorep.Protocol.Constants.{
  data_packages_count_bs, unsigned_metadata_byte_size_bs, redstone_marker,
}
use redstone_oracles_monorep.Protocol.DataPackage.{
  SignedDataPackage, signed_to_bytes, integer_bytes,
}

-- `BytesLike`: a `Uint8Array`, or a text that is written as UTF-8
pub data BytesLike : Type 0 where
  bytes : Bytes → BytesLike
  text : Text → BytesLike

pub record RedstonePayload (p : Platform) : Type 0 where
  pub signed_data_packages : List (SignedDataPackage p)
  pub unsigned_metadata : BytesLike

abbrev pub snoc : List Bytes → Bytes → List Bytes
snoc [] b = b ∷ []
snoc (c ∷ cs) b = c ∷ snoc cs b

module _ (p : Platform) where
  unfoldable pub metadata_bytes : BytesLike → Fallible Bytes
  metadata_bytes (bytes b) = ok b
  metadata_bytes (text t) = library (p.to_utf8_bytes t)

  unfoldable pub serialize_unsigned_metadata : BytesLike → Fallible Bytes
  unfolding metadata_bytes
  serialize_unsigned_metadata metadata = do
    written ← metadata_bytes metadata
    size ← integer_bytes p (length written) unsigned_metadata_byte_size_bs
    ok (p.concat (written ∷ size ∷ []))

  unfoldable pub bytes_of_each :
      List (SignedDataPackage p) → Fallible (List Bytes × List (SignedDataPackage p))
  bytes_of_each [] = ok ([], [])
  bytes_of_each (signed ∷ rest) = do
    (b, sorted) ← signed_to_bytes p signed
    (bs, all_sorted) ← bytes_of_each rest
    ok (b ∷ bs, sorted ∷ all_sorted)

  unfoldable pub serialize_signed_data_packages :
      List (SignedDataPackage p) → Fallible (Bytes × List (SignedDataPackage p))
  serialize_signed_data_packages packages = do
    (each, sorted) ← bytes_of_each packages
    count ← integer_bytes p (length packages) data_packages_count_bs
    ok (p.concat (snoc each count), sorted)

  unfoldable pub to_bytes : RedstonePayload p → Fallible (Bytes × RedstonePayload p)
  to_bytes payload = do
    (packages, sorted) ← serialize_signed_data_packages payload.signed_data_packages
    metadata ← serialize_unsigned_metadata payload.unsigned_metadata
    ok (
      p.concat (packages ∷ metadata ∷ redstone_marker ∷ []),
      record payload { signed_data_packages = sorted },
    )

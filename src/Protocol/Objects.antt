-- ===== src/Protocol/Objects.antt =====
-- Plain objects, the JSON form of packages, read back; and the size of a serialized package.
use redstone_oracles_monorep.Prelude.{
  ℕ, ◌+◌, ◌*◌, ◌≡◌, refl, false, List, [], ◌∷◌, ok, All, length, map, ◌==◌, arith, length-append,
}
use redstone_oracles_monorep.Protocol.Platform.{Platform, Lawful, Bytes, flatten}
use redstone_oracles_monorep.Protocol.Convert.{convert_bytes-convert_integer}
use redstone_oracles_monorep.Protocol.DataPoint
use redstone_oracles_monorep.Protocol.DataPoint.{DataPoint, IsConstructed, deserialize-to_obj}
use redstone_oracles_monorep.Protocol.DataPackage.{
  DataPackage, SignedDataPackage, new_data_package, to_obj, deserialize_each, from_obj, to_bytes,
  signed_to_obj, deserialize_signed_package,
}
use redstone_oracles_monorep.Protocol.Canonical.{sort_points-length}
use redstone_oracles_monorep.Protocol.ReadPoints.{
  IsReadableId, Written, bytes_of_each-Written, written_size,
}
use redstone_oracles_monorep.Protocol.PackageParts.{sorted_points, first_size, count_safe}
use redstone_oracles_monorep.Protocol.Layout.{to_bytes-layout, IsReadable}

module _ (p : Platform) (laws : Lawful p) where
  deserialize_each-to_obj :
      (dps : List (DataPoint p))
      → All (IsConstructed p) dps
      → deserialize_each p (map (DataPoint.to_obj p) dps) ≡ ok dps
  unfolding deserialize_each
  deserialize_each-to_obj [] h = refl
  deserialize_each-to_obj (dp ∷ dps) h =
      rw (deserialize-to_obj p laws dp h.0, deserialize_each-to_obj dps h.1)

  -- A signed package that the constructors have made is read back from its plain object.
  pub deserialize_signed-to_obj :
      (s : SignedDataPackage p)
      → All (IsConstructed p) s.data_package.data_points
      → new_data_package p s.data_package.data_points s.data_package.timestamp_milliseconds
          s.data_package.data_package_id
        ≡ ok s.data_package
      → deserialize_signed_package p (signed_to_obj p s) ≡ ok s
  unfolding deserialize_signed_package signed_to_obj to_obj from_obj
  deserialize_signed-to_obj s h made =
      let long =
        laws.base64_encode_nonempty (p.join_signature s.signature)
          (rw (laws.length-join s.signature) (omega arith)) in
      let nonempty : (length (p.base64_encode (p.join_signature s.signature)) == 0) ≡ false =
        ground (arith, long) in
      rw nonempty (
        rw (laws.base64_decode-encode (p.join_signature s.signature)) (
          rw (laws.split-join s.signature)
            (rw (deserialize_each-to_obj s.data_package.data_points h) (rw made))))

  flatten_size :
      (dps : List (DataPoint p)) (bs : List Bytes) (size : ℕ)
      → Written p dps bs
      → All (λ dp. IsReadableId dp.data_feed_id × (length dp.value ≡ size)) dps
      → length (flatten bs) ≡ length dps * (32 + size)
  flatten_size [] [] size w h = omega arith
  flatten_size [] (b ∷ bs) size w h = absurd w
  flatten_size (dp ∷ dps) [] size w h = absurd w
  flatten_size (dp ∷ dps) (b ∷ bs) size w h =
      rw length-append
        (grind (arith, flatten_size dps bs size w.1 h.1, written_size p laws dp b h.0.0 w.0, h.0.1))

  -- A readable package takes 32 bytes and the size of a value for each point, and 13 more: 6 for the
  -- time, 4 for the size of a value and 3 for the number of points.
  length-to_bytes :
      (s : SignedDataPackage p) (left : DataPackage p) (c : Bytes)
      → (readable : IsReadable p s) → to_bytes p s.data_package ≡ ok (c, left)
      → length c ≡ length s.data_package.data_points * (32 + readable.size) + 13
  length-to_bytes s left c readable h =
      let l = to_bytes-layout p laws s.data_package left c h in
      let (time_long, _) =
        convert_bytes-convert_integer p laws s.data_package.timestamp_milliseconds 6 l.time
          readable.time_safe l.timed in
      let (size_long, _) =
        convert_bytes-convert_integer p laws (length l.first.value) 4 l.size_bytes
          (rw (first_size p laws s c left readable l) readable.size_safe) l.sized in
      let (count_long, _) =
        convert_bytes-convert_integer p laws (length l.sorted) 3 l.count
          (count_safe p laws s c left readable l) l.counted in
      rw (l.same_bytes, length-append, length-append, length-append)
        (rw
          (flatten_size l.sorted l.each readable.size
            (bytes_of_each-Written p l.sorted l.each l.written)
            (sorted_points p laws s c left readable l))
          (rw (sort_points-length p s.data_package.data_points l.sorted l.is_sorted)
            (omega (arith, time_long, size_long, count_long))))

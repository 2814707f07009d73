-- ===== src/Protocol/ReadPackage.antt =====
-- The parser reads back a signed package, and serializes what it read to the same bytes.
use mathlib.Core.Path.{subst}
use redstone_oracles_monorep.Prelude.{
  ℕ, ◌+◌, ◌≡◌, sym, ap, ◌∙◌, [], ◌∷◌, ◌++◌, append-nil, append_assoc, ok, All, length, map, arith,
  length-append, length-map,
}
use redstone_oracles_monorep.Protocol.Platform.{Platform, Lawful, Bytes, Text, flatten}
use redstone_oracles_monorep.Protocol.Constants.{
  timestamp_bs, data_points_count_bs, data_point_value_byte_size_bs, signature_bs,
}
use redstone_oracles_monorep.Protocol.DataPackage.{
  DataPackage, SignedDataPackage, new_data_package, signed_to_bytes,
}
use redstone_oracles_monorep.Protocol.Parser.{
  slice_back, extract_number, extract_signed_data_package,
}
use redstone_oracles_monorep.Protocol.Slices.{slice_back-mid}
use redstone_oracles_monorep.Protocol.Canonical.{sort_points-IsAscending, sort_points_fixed}
use redstone_oracles_monorep.Protocol.ReadPoints.{IsReadableId, reread_point, bytes_of_each-Written}
use redstone_oracles_monorep.Protocol.Layout.{
  PackageLayout, to_bytes-layout, to_bytes-sorted, reread_bytes, reread-IsAscending, reread_package,
  IsReadable,
}
use redstone_oracles_monorep.Protocol.PackageParts.{
  count_safe, extract_number-written, first_size, new_data_package-ok, points_read, signed-layout,
  sizes, sorted_points,
}

module _ (p : Platform) (laws : Lawful p) where
  module _ (data_bytes front back : Bytes) (s : SignedDataPackage p) (b : Bytes)
      (pkg : DataPackage p) (readable : IsReadable p s)
      (l : PackageLayout p s.data_package b pkg) where
    left_package : SignedDataPackage p
    left_package = record s { data_package = record s.data_package { data_points = l.sorted } }

    made :
        (id : Text)
        → new_data_package p
            (map (reread_point p) l.sorted)
            s.data_package.timestamp_milliseconds
            id
          ≡ ok (record {
            data_points = map (reread_point p) l.sorted;
            timestamp_milliseconds = s.data_package.timestamp_milliseconds;
            data_package_id = id;
          })
    made id =
        new_data_package-ok p (map (reread_point p) l.sorted) (map (reread_point p) l.others)
          (reread_point p l.first) readable.size s.data_package.timestamp_milliseconds id
          (ap (map (reread_point p)) l.starts)
          (sizes p laws readable.size l.sorted (sorted_points p laws s b pkg readable l))

    -- The numbers between the points and the signature `sig`, and the offset where the points end.
    head_read :
        (sig : Bytes) (off1 : ℕ)
        → data_bytes
          ≡ front ++ (flatten l.each ++ (l.time ++ (l.size_bytes ++ (l.count ++ (sig ++ back)))))
        → off1 ≡ length (sig ++ back)
        → (extract_number p data_bytes off1 data_points_count_bs ≡ ok (length l.sorted))
          × (extract_number p data_bytes (off1 + data_points_count_bs) data_point_value_byte_size_bs
              ≡ ok (length l.first.value))
          × (extract_number p data_bytes
                (off1 + data_points_count_bs + data_point_value_byte_size_bs)
                timestamp_bs
              ≡ ok s.data_package.timestamp_milliseconds)
          × (off1 + data_points_count_bs + data_point_value_byte_size_bs + timestamp_bs
              ≡ length (l.time ++ (l.size_bytes ++ (l.count ++ (sig ++ back)))))
    head_read sig off1 layout q1 =
        let (count_read, count_long) =
          extract_number-written p laws data_bytes
            (front ++ (flatten l.each ++ (l.time ++ l.size_bytes))) l.count (sig ++ back) off1
            data_points_count_bs (length l.sorted) (layout ∙ simp append_assoc) q1
            (count_safe p laws s b pkg readable l) l.counted in
        let q2 : off1 + data_points_count_bs ≡ length (l.count ++ (sig ++ back)) =
          rw length-append (omega (arith, q1, count_long)) in
        let (size_read, size_long) =
          extract_number-written p laws data_bytes (front ++ (flatten l.each ++ l.time))
            l.size_bytes (l.count ++ (sig ++ back)) (off1 + data_points_count_bs)
            data_point_value_byte_size_bs (length l.first.value) (layout ∙ simp append_assoc) q2
            (rw (first_size p laws s b pkg readable l) readable.size_safe) l.sized in
        let q3 : off1 + data_points_count_bs + data_point_value_byte_size_bs
            ≡ length (l.size_bytes ++ (l.count ++ (sig ++ back))) =
          rw length-append (omega (arith, q2, size_long)) in
        let (time_read, time_long) =
          extract_number-written p laws data_bytes (front ++ flatten l.each) l.time
            (l.size_bytes ++ (l.count ++ (sig ++ back)))
            (off1 + data_points_count_bs + data_point_value_byte_size_bs) timestamp_bs
            s.data_package.timestamp_milliseconds (layout ∙ simp append_assoc) q3 readable.time_safe
            l.timed in
        (count_read, size_read, time_read, rw length-append (omega (arith, q3, time_long)))

    -- The whole array around the package: the signature and what follows it come last.
    extract_at :
        (off : ℕ)
        → data_bytes ≡ front ++ ((b ++ p.join_signature s.signature) ++ back)
        → off ≡ length back
        → extract_signed_data_package p data_bytes off ≡ ok (reread_package p left_package)
    unfolding extract_signed_data_package left_package
    extract_at off e q =
        let sig = p.join_signature s.signature in
        let long = laws.length-join s.signature in
        let layout : data_bytes
            ≡ front
              ++ (flatten l.each ++ (l.time ++ (l.size_bytes ++ (l.count ++ (sig ++ back))))) =
          e ∙ rw l.same_bytes (simp append_assoc) in
        let signed : slice_back data_bytes off signature_bs ≡ sig =
          slice_back-mid data_bytes
            (front ++ (flatten l.each ++ (l.time ++ (l.size_bytes ++ l.count)))) sig back off
            signature_bs (layout ∙ simp append_assoc) q (sym long) in
        let q1 : off + signature_bs ≡ length (sig ++ back) =
          rw length-append (omega (arith, q, long)) in
        let (count_read, size_read, time_read, q4) = head_read sig (off + signature_bs) layout q1 in
        let loop =
          points_read p laws data_bytes front
            (l.time ++ (l.size_bytes ++ (l.count ++ (sig ++ back)))) l.sorted l.each
            (length l.first.value) _ (bytes_of_each-Written p l.sorted l.each l.written)
            (subst (λ n. All (λ dp. IsReadableId dp.data_feed_id × (length dp.value ≡ n)) l.sorted)
              (sym (first_size p laws s b pkg readable l))
              (sorted_points p laws s b pkg readable l))
            layout q4 in
        rw (count_read, size_read, time_read)
          (rw loop (rw (made, signed) (rw (laws.split-join s.signature))))

    written_again :
        signed_to_bytes p (reread_package p left_package)
        ≡ ok (p.concat (b ∷ p.join_signature s.signature ∷ []), reread_package p left_package)
    unfolding signed_to_bytes left_package
    written_again =
        rw
          (to_bytes-sorted p laws (reread_package p left_package).data_package
            (reread_point p l.first) (map (reread_point p) l.others) l.each l.time l.size_bytes
            l.count
            (sort_points_fixed p _ (
              reread-IsAscending p l.sorted
                (sort_points-IsAscending p s.data_package.data_points l.sorted l.is_sorted)))
            (reread_bytes p l.sorted ∙ l.written) l.timed (ap (map (reread_point p)) l.starts)
            l.sized (rw length-map l.counted))
          (ap
            (λ c.
              ok (p.concat (c ∷ p.join_signature s.signature ∷ []), reread_package p left_package))
            (sym l.same_bytes))

  -- Where a readable signed package was written, the parser reads it back as it was left, with its
  -- id worked out anew, and what it reads is written in the same bytes.
  pub read_package :
      (data_bytes front back c : Bytes) (s left : SignedDataPackage p) (off : ℕ)
      → signed_to_bytes p s ≡ ok (c, left)
      → IsReadable p s
      → data_bytes ≡ front ++ (c ++ back)
      → off ≡ length back
      → (extract_signed_data_package p data_bytes off ≡ ok (reread_package p left))
        × (signed_to_bytes p (reread_package p left) ≡ ok (c, reread_package p left))
  unfolding left_package
  read_package data_bytes front back c s left off h readable e q =
      let (b, pkg, written, joined, same) = signed-layout p s left c h in
      let l = to_bytes-layout p laws s.data_package pkg b written in
      let whole : p.concat (b ∷ p.join_signature s.signature ∷ [])
          ≡ b ++ p.join_signature s.signature =
        laws.concat_lem _ ∙ ap (λ v. b ++ v) (append-nil _) in
      let left_same : left_package data_bytes front back s b pkg readable l ≡ left =
        ap (λ k. record s { data_package = k }) (sym l.same_left) ∙ same in
      let here : data_bytes ≡ front ++ ((b ++ p.join_signature s.signature) ++ back) =
        e ∙ ap (λ v. front ++ (v ++ back)) (sym joined ∙ whole) in
      (
        extract_at data_bytes front back s b pkg readable l off here q
            ∙ ap (λ k. ok (reread_package p k)) left_same,
        subst (λ k. signed_to_bytes p (reread_package p k) ≡ ok (c, reread_package p k)) left_same
            (written_again data_bytes front back s b pkg readable l
              ∙ ap
                  (λ d.
                    ok
                      (d, reread_package p (left_package data_bytes front back s b pkg readable l)))
                  joined),
      )

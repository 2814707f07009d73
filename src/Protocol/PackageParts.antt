-- ===== src/Protocol/PackageParts.antt =====
-- The parts of a signed package as the parser reads them: numbers, data points and sizes.
use mathlib.Core.Path.{subst}
use redstone_oracles_monorep.Prelude.{
  ℕ, ◌^◌, ◌<◌, ◌≡◌, refl, sym, ap, ◌∙◌, true, List, [], ◌∷◌, ◌++◌, append-nil, ok, All, length, map,
  ◌==◌, arith, >>=-eq-ok, ok_injective, length-rev_append, rev_append-rev_append, map-rev_append,
  rev_append, All-rev_append,
}
use redstone_oracles_monorep.Protocol.Platform.{Platform, Lawful, Bytes, Text, flatten}
use redstone_oracles_monorep.Protocol.Convert.{convert_bytes-convert_integer}
use redstone_oracles_monorep.Protocol.DataPoint.{DataPoint}
use redstone_oracles_monorep.Protocol.DataPackage.{
  DataPackage, SignedDataPackage, assert_same_size, new_data_package, integer_bytes, to_bytes,
  signed_to_bytes,
}
use redstone_oracles_monorep.Protocol.Parser.{extract_number, extract_data_points}
use redstone_oracles_monorep.Protocol.Slices.{slice_back-mid}
use redstone_oracles_monorep.Protocol.Canonical.{sort_points-All, sort_points-length}
use redstone_oracles_monorep.Protocol.ReadPoints.{
  IsReadableId, reread_point, flatten_rev, flatten_rev-rev_append, package_id_after, Written,
  Written-rev_append, extract_data_points-Written,
}
use redstone_oracles_monorep.Protocol.Layout.{PackageLayout, IsReadable}

module _ (p : Platform) where
  pub same_size :
      (size : ℕ) (dps : List (DataPoint p))
      → All (λ dp. length dp.value ≡ size) dps
      → assert_same_size p size dps ≡ ok tt
  unfolding assert_same_size
  same_size size [] h = refl
  same_size size (dp ∷ dps) h =
      let e : (length dp.value == size) ≡ true = ground (arith, h.0) in
      rw e (same_size size dps h.1)

  pub new_data_package-ok :
      (dps others : List (DataPoint p)) (first : DataPoint p) (size time : ℕ) (id : Text)
      → dps ≡ first ∷ others
      → All (λ dp. length dp.value ≡ size) dps
      → new_data_package p dps time id
        ≡ ok (record { data_points = dps; timestamp_milliseconds = time; data_package_id = id })
  unfolding new_data_package
  new_data_package-ok [] others first size time id e h = cc
  new_data_package-ok (dp ∷ dps) others first size time id e h =
      let own = subst (λ n. All (λ d. length d.value ≡ n) (dp ∷ dps)) (sym h.0) h in
      rw (same_size (length dp.value) (dp ∷ dps) own)

  pub signed-layout :
      (s left : SignedDataPackage p) (c : Bytes)
      → signed_to_bytes p s ≡ ok (c, left)
      → (b : Bytes) × (pkg : DataPackage p) × (to_bytes p s.data_package ≡ ok (b, pkg))
        × (p.concat (b ∷ p.join_signature s.signature ∷ []) ≡ c)
        × (record s { data_package = pkg } ≡ left)
  unfolding signed_to_bytes
  signed-layout s left c h =
      let (q, h1, k1) = >>=-eq-ok (to_bytes p s.data_package) _ h in
      let pair = ok_injective k1 in (q.0, q.1, h1, ap (λ t. t.0) pair, ap (λ t. t.1) pair)

module _ (p : Platform) (laws : Lawful p) where
  -- A number that was written somewhere in the array is read back.
  pub extract_number-written :
      (data_bytes front mid back : Bytes) (off byte_size n : ℕ)
      → data_bytes ≡ front ++ (mid ++ back)
      → off ≡ length back
      → n < 2 ^ 53
      → integer_bytes p n byte_size ≡ ok mid
      → (extract_number p data_bytes off byte_size ≡ ok n) × (length mid ≡ byte_size)
  unfolding extract_number
  extract_number-written data_bytes front mid back off byte_size n e q safe h =
      let (long, reads) = convert_bytes-convert_integer p laws n byte_size mid safe h in
      (rw (slice_back-mid data_bytes front mid back off byte_size e q (sym long)) reads, long)

  pub sizes :
      (size : ℕ) (dps : List (DataPoint p))
      → All (λ dp. IsReadableId dp.data_feed_id × (length dp.value ≡ size)) dps
      → All (λ dp. length dp.value ≡ size) (map (reread_point p) dps)
  sizes size [] h = tt
  sizes size (dp ∷ dps) h = (h.0.1, sizes size dps h.1)

  pub reread_order :
      (dps : List (DataPoint p))
      → rev_append (map (reread_point p) (rev_append dps [])) [] ≡ map (reread_point p) dps
  reread_order dps =
      ap (λ l. rev_append l []) (map-rev_append (reread_point p) dps [])
      ∙ (rev_append-rev_append (map (reread_point p) dps) [] [] ∙ append-nil _)

  -- The loop over the data points, at the offset where they end.
  pub points_read :
      (data_bytes front back : Bytes) (sorted : List (DataPoint p)) (each : List Bytes)
      (size off : ℕ)
      → Written p sorted each
      → All (λ dp. IsReadableId dp.data_feed_id × (length dp.value ≡ size)) sorted
      → data_bytes ≡ front ++ (flatten each ++ back)
      → off ≡ length back
      → extract_data_points p data_bytes (length sorted) size off [] []
        ≡ ok (package_id_after p [] (rev_append sorted []), map (reread_point p) sorted)
  points_read data_bytes front back sorted each size off w ok_points e q =
      let turned : flatten_rev (rev_append each []) ≡ flatten each =
        flatten_rev-rev_append each [] in
      let loop =
        extract_data_points-Written p laws data_bytes front back (rev_append sorted [])
          (rev_append each []) size off [] [] (Written-rev_append p sorted [] each [] w tt)
          (All-rev_append _ sorted [] ok_points tt) (rw turned e) q in
      ap (λ n. extract_data_points p data_bytes n size off [] [])
        (let same : length sorted ≡ length (rev_append sorted []) =
            omega (arith, length-rev_append sorted []) in
          same)
      ∙ (loop
          ∙ ap (λ l. ok (package_id_after p [] (rev_append sorted []), l)) (reread_order sorted))

  module _ (s : SignedDataPackage p) (b : Bytes) (pkg : DataPackage p) (readable : IsReadable p s)
      (l : PackageLayout p s.data_package b pkg) where
    -- The points of the package as it is left are readable and of one size.
    pub sorted_points :
        All (λ dp. IsReadableId dp.data_feed_id × (length dp.value ≡ readable.size)) l.sorted
    sorted_points =
        sort_points-All p _ s.data_package.data_points l.sorted l.is_sorted readable.points

    pub first_size : length l.first.value ≡ readable.size
    first_size =
        (subst (All (λ dp. IsReadableId dp.data_feed_id × (length dp.value ≡ readable.size)))
          l.starts sorted_points).0.1

    pub count_safe : length l.sorted < 2 ^ 53
    count_safe =
        rw (sort_points-length p s.data_package.data_points l.sorted l.is_sorted)
          readable.count_safe

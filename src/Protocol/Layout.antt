-- ===== src/Protocol/Layout.antt =====
-- The bytes of a package as the parts that they are made of, and what a parsed package is.
use redstone_oracles_monorep.Prelude.{
  ℕ, ◌^◌, ◌<◌, ◌≡◌, refl, sym, ap, ◌∙◌, List, [], ◌∷◌, ◌++◌, append-nil, ok, All, length, map,
  >>=-eq-ok, ok_injective, rev_append,
}
use redstone_oracles_monorep.Protocol.Platform.{Platform, Lawful, Bytes, flatten}
use redstone_oracles_monorep.Protocol.Constants.{
  timestamp_bs, data_points_count_bs, data_point_value_byte_size_bs,
}
use redstone_oracles_monorep.Protocol.DataPoint
use redstone_oracles_monorep.Protocol.DataPoint.{
  DataPoint, get_value_byte_size, serialize_data_feed_id,
}
use redstone_oracles_monorep.Protocol.DataPackage.{
  DataPackage, SignedDataPackage, goes_before, sort_points, bytes_of_each, serialize_data_points,
  get_each_data_point_byte_size, integer_bytes, serialize_timestamp, serialize_data_points_count,
  serialize_default_data_point_byte_size, to_bytes,
}
use redstone_oracles_monorep.Protocol.Parser.{final_package_id}
use redstone_oracles_monorep.Protocol.Canonical.{IsAscending}
use redstone_oracles_monorep.Protocol.ReadPoints.{IsReadableId, reread_point, package_id_after}

-- The parts that the bytes of a package are made of, and how the package is left.
pub record PackageLayout (p : Platform) (pkg : DataPackage p) (c : Bytes) (left : DataPackage p)
    : Type 0 where
  pub sorted : List (DataPoint p)
  pub first : DataPoint p
  pub others : List (DataPoint p)
  pub each : List Bytes
  pub time : Bytes
  pub size_bytes : Bytes
  pub count : Bytes
  pub is_sorted : sort_points p pkg.data_points ≡ ok sorted
  pub written : bytes_of_each p sorted ≡ ok each
  pub timed : integer_bytes p pkg.timestamp_milliseconds timestamp_bs ≡ ok time
  pub starts : sorted ≡ first ∷ others
  pub sized : integer_bytes p (length first.value) data_point_value_byte_size_bs ≡ ok size_bytes
  pub counted : integer_bytes p (length sorted) data_points_count_bs ≡ ok count
  pub same_bytes : c ≡ flatten each ++ (time ++ (size_bytes ++ count))
  pub same_left : left ≡ record pkg { data_points = sorted }

module _ (p : Platform) where
  sized_first :
      (sorted : List (DataPoint p)) (pkg : DataPackage p) (size : Bytes)
      → serialize_default_data_point_byte_size p (record pkg { data_points = sorted }) ≡ ok size
      → (first : DataPoint p) × (others : List (DataPoint p)) × (sorted ≡ first ∷ others)
        × (integer_bytes p (length first.value) data_point_value_byte_size_bs ≡ ok size)
  unfolding serialize_default_data_point_byte_size get_each_data_point_byte_size
  sized_first [] pkg size h = cc
  sized_first (d ∷ ds) pkg size h = (d, ds, refl, h)

module _ (p : Platform) (laws : Lawful p) where
  concat_four :
      (each : List Bytes) (time size count : Bytes)
      → p.concat (p.concat each ∷ time ∷ size ∷ count ∷ [])
        ≡ flatten each ++ (time ++ (size ++ count))
  concat_four each time size count =
      laws.concat_lem _
      ∙ (ap (λ b. b ++ (time ++ (size ++ (count ++ [])))) (laws.concat_lem each)
          ∙ ap (λ b. flatten each ++ (time ++ (size ++ b))) (append-nil count))

  pub to_bytes-layout :
      (pkg left : DataPackage p) (c : Bytes)
      → to_bytes p pkg ≡ ok (c, left)
      → PackageLayout p pkg c left
  unfolding to_bytes serialize_data_points serialize_timestamp serialize_data_points_count
  to_bytes-layout pkg left c h =
      let (q, h1, k1) = >>=-eq-ok (serialize_data_points p pkg) _ h in
      let (sorted, hs, h2) = >>=-eq-ok (sort_points p pkg.data_points) _ h1 in
      let (each, he, h3) = >>=-eq-ok (bytes_of_each p sorted) _ h2 in
      let k2 = rw (← ok_injective h3) at k1 in
      let pkg' : DataPackage p = record pkg { data_points = sorted } in
      let (time, ht, k3) = >>=-eq-ok (serialize_timestamp p pkg') _ k2 in
      let (size, hz, k4) = >>=-eq-ok (serialize_default_data_point_byte_size p pkg') _ k3 in
      let (count, hc, k5) = >>=-eq-ok (serialize_data_points_count p pkg') _ k4 in
      let (first, others, starts, sized) = sized_first p sorted pkg size hz in
      let pair = ok_injective k5 in
      record {
        sorted = sorted;
        first = first;
        others = others;
        each = each;
        time = time;
        size_bytes = size;
        count = count;
        is_sorted = hs;
        written = he;
        timed = ht;
        starts = starts;
        sized = sized;
        counted = hc;
        same_bytes = sym (ap (λ t. t.0) pair) ∙ concat_four each time size count;
        same_left = sym (ap (λ t. t.1) pair);
      }

  default_size :
      (pkg : DataPackage p) (first : DataPoint p) (others : List (DataPoint p)) (size : Bytes)
      → pkg.data_points ≡ first ∷ others
      → integer_bytes p (length first.value) data_point_value_byte_size_bs ≡ ok size
      → serialize_default_data_point_byte_size p pkg ≡ ok size
  unfolding serialize_default_data_point_byte_size get_each_data_point_byte_size
  default_size pkg first others size starts h = rw (starts, get_each_data_point_byte_size) h

  -- A package whose points are sorted is written as its parts, and stays as it is.
  pub to_bytes-sorted :
      (pkg : DataPackage p) (first : DataPoint p) (others : List (DataPoint p)) (each : List Bytes)
      (time size count : Bytes)
      → sort_points p pkg.data_points ≡ ok pkg.data_points
      → bytes_of_each p pkg.data_points ≡ ok each
      → integer_bytes p pkg.timestamp_milliseconds timestamp_bs ≡ ok time
      → pkg.data_points ≡ first ∷ others
      → integer_bytes p (length first.value) data_point_value_byte_size_bs ≡ ok size
      → integer_bytes p (length pkg.data_points) data_points_count_bs ≡ ok count
      → to_bytes p pkg ≡ ok (flatten each ++ (time ++ (size ++ count)), pkg)
  unfolding to_bytes serialize_data_points serialize_timestamp serialize_data_points_count
  to_bytes-sorted pkg first others each time size count hs he ht starts hz hc = rw hs (
      rw he (
        rw ht (
          rw (default_size pkg first others size starts hz)
            (rw hc (ap (λ b. ok (b, pkg)) (concat_four each time size count))))))

module _ (p : Platform) where
  pub reread_bytes :
      (dps : List (DataPoint p)) → bytes_of_each p (map (reread_point p) dps) ≡ bytes_of_each p dps
  unfolding bytes_of_each DataPoint.to_bytes serialize_data_feed_id
  reread_bytes [] = refl
  reread_bytes (dp ∷ dps) = rw (reread_bytes dps)

  pub reread-IsAscending :
      (dps : List (DataPoint p)) → IsAscending p dps → IsAscending p (map (reread_point p) dps)
  unfolding goes_before serialize_data_feed_id
  reread-IsAscending [] h = tt
  reread-IsAscending (d ∷ []) h = (tt, tt)
  reread-IsAscending (d ∷ e ∷ es) h = (h.0, reread-IsAscending (e ∷ es) h.1)

  -- What the parser makes of a signed package with these points.
  abbrev pub reread_package : SignedDataPackage p → SignedDataPackage p
  reread_package s = record {
    data_package = record {
      data_points = map (reread_point p) s.data_package.data_points;
      timestamp_milliseconds = s.data_package.timestamp_milliseconds;
      data_package_id =
          final_package_id (package_id_after p [] (rev_append s.data_package.data_points []));
    };
    signature = s.signature;
  }

-- A signed package that the wire format can carry without loss: ids of at most 31 characters and
-- without NUL, values of one size, and safe integers.
pub record IsReadable (p : Platform) (s : SignedDataPackage p) : Type 0 where
  pub size : ℕ
  pub points :
      All (λ dp. IsReadableId dp.data_feed_id × (length dp.value ≡ size)) s.data_package.data_points
  pub time_safe : s.data_package.timestamp_milliseconds < 2 ^ 53
  pub size_safe : size < 2 ^ 53
  pub count_safe : length s.data_package.data_points < 2 ^ 53

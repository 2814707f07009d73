-- ===== src/Protocol/ReadPackages.antt =====
-- The parser's loop over the packages of a payload, and the parts of a serialized payload.
use mathlib.Core.Path.{subst}
use redstone_oracles_monorep.Prelude.{
  ℕ, suc, ◌+◌, ◌^◌, ◌<◌, ◌≡◌, refl, sym, ap, ◌∙◌, List, [], ◌∷◌, ◌++◌, append-nil, append_assoc, ok,
  All, length, map, arith, >>=-eq-ok, ok_injective, length-append, rev_append,
}
use redstone_oracles_monorep.Protocol.Platform.{Platform, Lawful, Bytes, flatten}
use redstone_oracles_monorep.Protocol.Constants.{
  redstone_marker, data_packages_count_bs, unsigned_metadata_byte_size_bs,
}
use redstone_oracles_monorep.Protocol.DataPackage.{
  SignedDataPackage, signed_to_bytes, integer_bytes,
}
use redstone_oracles_monorep.Protocol.Payload
use redstone_oracles_monorep.Protocol.Payload.{
  RedstonePayload, BytesLike, metadata_bytes, snoc, serialize_signed_data_packages,
  serialize_unsigned_metadata,
}
use redstone_oracles_monorep.Protocol.Parser.{extract_packages}
use redstone_oracles_monorep.Protocol.ReadPoints.{flatten_rev}
use redstone_oracles_monorep.Protocol.Layout.{reread_package, IsReadable}
use redstone_oracles_monorep.Protocol.ReadPackage.{read_package}

-- The signed packages of a list, the bytes of each and each as it was left.
abbrev pub WrittenPackages :
    (p : Platform) → List (SignedDataPackage p) → List Bytes → List (SignedDataPackage p) → Type 0
WrittenPackages p [] [] [] = Unit
WrittenPackages p [] [] (l ∷ ls) = ⊥
WrittenPackages p [] (c ∷ cs) ls = ⊥
WrittenPackages p (s ∷ ss) [] ls = ⊥
WrittenPackages p (s ∷ ss) (c ∷ cs) [] = ⊥
WrittenPackages p (s ∷ ss) (c ∷ cs) (l ∷ ls) =
    (signed_to_bytes p s ≡ ok (c, l)) × WrittenPackages p ss cs ls

pub WrittenPackages-rev_append :
    (p : Platform) (ss acc : List (SignedDataPackage p)) (cs ccc : List Bytes)
    (ls lcc : List (SignedDataPackage p))
    → WrittenPackages p ss cs ls
    → WrittenPackages p acc ccc lcc
    → WrittenPackages p (rev_append ss acc) (rev_append cs ccc) (rev_append ls lcc)
WrittenPackages-rev_append p [] acc [] ccc [] lcc h k = k
WrittenPackages-rev_append p (s ∷ ss) acc (c ∷ cs) ccc (l ∷ ls) lcc h k =
    WrittenPackages-rev_append p ss (s ∷ acc) cs (c ∷ ccc) ls (l ∷ lcc) h.1 (h.0, k)
WrittenPackages-rev_append p [] acc [] ccc (l ∷ ls) lcc h k = absurd h
WrittenPackages-rev_append p [] acc (c ∷ cs) ccc ls lcc h k = absurd h
WrittenPackages-rev_append p (s ∷ ss) acc [] ccc ls lcc h k = absurd h
WrittenPackages-rev_append p (s ∷ ss) acc (c ∷ cs) ccc [] lcc h k = absurd h

bytes_of_each-Written :
    (p : Platform) (ss ls : List (SignedDataPackage p)) (cs : List Bytes)
    → Payload.bytes_of_each p ss ≡ ok (cs, ls)
    → WrittenPackages p ss cs ls
unfolding Payload.bytes_of_each
bytes_of_each-Written p [] ls cs h = subst (λ q. WrittenPackages p [] q.0 q.1) (ok_injective h) tt
bytes_of_each-Written p (s ∷ ss) ls cs h =
    let (q, h1, k1) = >>=-eq-ok (signed_to_bytes p s) _ h in
    let (r, h2, k2) = >>=-eq-ok (Payload.bytes_of_each p ss) _ k1 in
    subst (λ t. WrittenPackages p (s ∷ ss) t.0 t.1) (ok_injective k2)
      (h1, bytes_of_each-Written p ss r.1 r.0 h2)

pub length-Written :
    (p : Platform) (ss : List (SignedDataPackage p)) (cs : List Bytes)
    (ls : List (SignedDataPackage p))
    → WrittenPackages p ss cs ls
    → length ls ≡ length ss
length-Written p [] [] [] w = refl
length-Written p (s ∷ ss) (c ∷ cs) (l ∷ ls) w = ap suc (length-Written p ss cs ls w.1)
length-Written p [] [] (l ∷ ls) w = absurd w
length-Written p [] (c ∷ cs) ls w = absurd w
length-Written p (s ∷ ss) [] ls w = absurd w
length-Written p (s ∷ ss) (c ∷ cs) [] w = absurd w

flatten-snoc : (bs : List Bytes) (b : Bytes) → flatten (snoc bs b) ≡ flatten bs ++ b
flatten-snoc [] b = append-nil b
flatten-snoc (c ∷ cs) b = rw (flatten-snoc cs b) (sym (append_assoc c (flatten cs) b))

module _ (p : Platform) (laws : Lawful p) where
  pub extract_packages-Written :
      (data_bytes front back : Bytes) (ss : List (SignedDataPackage p)) (cs : List Bytes)
      (ls : List (SignedDataPackage p)) (off : ℕ) (found : List (SignedDataPackage p))
      → WrittenPackages p ss cs ls
      → All (IsReadable p) ss
      → data_bytes ≡ front ++ (flatten_rev cs ++ back)
      → off ≡ length back
      → extract_packages p data_bytes (length ss) off found
        ≡ ok (length (flatten_rev cs ++ back), rev_append (map (reread_package p) ls) found)
  unfolding extract_packages
  extract_packages-Written data_bytes front back [] [] [] off found w r e q =
      ap (λ n. ok (n, found)) q
  extract_packages-Written data_bytes front back (s ∷ ss) (c ∷ cs) (l ∷ ls) off found w r e q =
      let layout : data_bytes ≡ (front ++ flatten_rev cs) ++ (c ++ back) = e ∙ simp append_assoc in
      let (reads, again) =
        read_package p laws data_bytes (front ++ flatten_rev cs) back c s l off w.0 r.0 layout q in
      rw reads (
        rw again (
          extract_packages-Written data_bytes front (c ++ back) ss cs ls (off + length c)
            (reread_package p l ∷ found) w.1 r.1 (layout ∙ simp append_assoc)
            (rw length-append (omega (arith, q)))
          ∙ ap
              (λ b.
                ok (length b, rev_append (map (reread_package p) ls) (reread_package p l ∷ found)))
              (sym (append_assoc (flatten_rev cs) c back))))
  extract_packages-Written data_bytes front back [] [] (l ∷ ls) off found w r e q = absurd w
  extract_packages-Written data_bytes front back [] (c ∷ cs) ls off found w r e q = absurd w
  extract_packages-Written data_bytes front back (s ∷ ss) [] ls off found w r e q = absurd w
  extract_packages-Written data_bytes front back (s ∷ ss) (c ∷ cs) [] off found w r e q = absurd w

-- A payload that the wire format can carry without loss.
pub record IsReadablePayload (p : Platform) (payload : RedstonePayload p) : Type 0 where
  pub packages : All (IsReadable p) payload.signed_data_packages
  pub count_safe : length payload.signed_data_packages < 2 ^ 53
  pub metadata_safe :
      (b : Bytes) → metadata_bytes p payload.unsigned_metadata ≡ ok b → length b < 2 ^ 53

-- The parts of a serialized payload.
pub record PayloadLayout (p : Platform) (payload : RedstonePayload p) (c : Bytes)
    (left : RedstonePayload p) : Type 0 where
  pub each : List Bytes
  pub lefts : List (SignedDataPackage p)
  pub count : Bytes
  pub metadata : Bytes
  pub size : Bytes
  pub written : WrittenPackages p payload.signed_data_packages each lefts
  pub counted :
      integer_bytes p (length payload.signed_data_packages) data_packages_count_bs ≡ ok count
  pub is_metadata : metadata_bytes p payload.unsigned_metadata ≡ ok metadata
  pub sized : integer_bytes p (length metadata) unsigned_metadata_byte_size_bs ≡ ok size
  pub same_bytes : c ≡ flatten each ++ (count ++ (metadata ++ (size ++ redstone_marker)))
  pub same_left : left ≡ record payload { signed_data_packages = lefts }

module _ (p : Platform) (laws : Lawful p) where
  concat_parts :
      (each : List Bytes) (count metadata size : Bytes)
      → p.concat
          (p.concat (snoc each count) ∷ p.concat (metadata ∷ size ∷ []) ∷ redstone_marker ∷ [])
        ≡ flatten each ++ (count ++ (metadata ++ (size ++ redstone_marker)))
  concat_parts each count metadata size =
      simp (laws.concat_lem, flatten-snoc, append-nil, append_assoc)

  pub payload-layout :
      (payload left : RedstonePayload p) (c : Bytes)
      → Payload.to_bytes p payload ≡ ok (c, left)
      → PayloadLayout p payload c left
  unfolding Payload.to_bytes serialize_signed_data_packages serialize_unsigned_metadata
  payload-layout payload left c h =
      let (q, h1, k1) =
        >>=-eq-ok (serialize_signed_data_packages p payload.signed_data_packages) _ h in
      let (r, h2, k2) = >>=-eq-ok (Payload.bytes_of_each p payload.signed_data_packages) _ h1 in
      let (count, h3, k3) =
        >>=-eq-ok (integer_bytes p (length payload.signed_data_packages) data_packages_count_bs) _
          k2 in
      let k4 = rw (← ok_injective k3) at k1 in
      let (m, h5, k5) = >>=-eq-ok (serialize_unsigned_metadata p payload.unsigned_metadata) _ k4 in
      let (metadata, h6, k6) = >>=-eq-ok (metadata_bytes p payload.unsigned_metadata) _ h5 in
      let (size, h7, k7) =
        >>=-eq-ok (integer_bytes p (length metadata) unsigned_metadata_byte_size_bs) _ k6 in
      let k8 = rw (← ok_injective k7) at k5 in
      let pair = ok_injective k8 in
      record {
        each = r.0;
        lefts = r.1;
        count = count;
        metadata = metadata;
        size = size;
        written = bytes_of_each-Written p payload.signed_data_packages r.1 r.0 h2;
        counted = h3;
        is_metadata = h6;
        sized = h7;
        same_bytes = sym (ap (λ t. t.0) pair) ∙ concat_parts r.0 count metadata size;
        same_left = sym (ap (λ t. t.1) pair);
      }

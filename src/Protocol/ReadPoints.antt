-- ===== src/Protocol/ReadPoints.antt =====
-- The parser's loop over data points reads back the points that were serialized.
use mathlib.Core.Path.{subst}
use redstone_oracles_monorep.Prelude.{
  ℕ, ◌+◌, ◌≤◌, ◌≡◌, refl, sym, ap, ◌∙◌, false, Option, none, some, List, [], ◌∷◌, ◌++◌, append-nil,
  append_assoc, ok, All, length, any, ltb, ◌==◌, map, arith, >>=-eq-ok, ok_injective, length-append,
  rev_append,
}
use redstone_oracles_monorep.Protocol.Platform.{Platform, Lawful, Bytes, Text, flatten, library}
use redstone_oracles_monorep.Protocol.Constants.{data_feed_id_bs}
use redstone_oracles_monorep.Protocol.Convert.{convert_string_to_bytes32}
use redstone_oracles_monorep.Protocol.DataPoint
use redstone_oracles_monorep.Protocol.DataPoint.{DataPoint, new_data_point, serialize_data_feed_id}
use redstone_oracles_monorep.Protocol.DataPackage.{bytes_of_each}
use redstone_oracles_monorep.Protocol.Parser.{
  slice_back, create_data_point, extract_data_points, next_package_id,
}
use redstone_oracles_monorep.Protocol.Slices.{slice_back-mid}

-- A feed id that fits the 32 bytes as it is, and has no NUL.
abbrev pub IsReadableId : Text → Type 0
IsReadableId t = (length t ≤ 31) × (any (λ c. c == 0) t ≡ false)

-- What a parsed data point keeps of the one that was serialized.
abbrev pub reread_point : (p : Platform) → DataPoint p → DataPoint p
reread_point p dp = new_data_point p dp.data_feed_id dp.value none

library-ok {ℓ} : {A : Type ℓ} {a : A} (o : Option A) → library o ≡ ok a → o ≡ some a
library-ok none h = cc
library-ok (some b) h = cc

-- A sequence of byte strings, last one first, as the bytes that they make up.
abbrev pub flatten_rev : List Bytes → Bytes
flatten_rev [] = []
flatten_rev (b ∷ bs) = flatten_rev bs ++ b

pub flatten_rev-rev_append :
    (bs acc : List Bytes) → flatten_rev (rev_append bs acc) ≡ flatten_rev acc ++ flatten bs
flatten_rev-rev_append [] acc = sym (append-nil _)
flatten_rev-rev_append (b ∷ bs) acc =
    flatten_rev-rev_append bs (b ∷ acc) ∙ append_assoc (flatten_rev acc) b (flatten bs)

-- `dataPackageId` after the loop over the ids
abbrev pub package_id_after : (p : Platform) → Text → List (DataPoint p) → Text
package_id_after p id [] = id
package_id_after p id (dp ∷ dps) = package_id_after p (next_package_id id dp.data_feed_id) dps

-- The byte strings that the data points of a list were written as.
abbrev pub Written : (p : Platform) → List (DataPoint p) → List Bytes → Type 0
Written p [] [] = Unit
Written p [] (b ∷ bs) = ⊥
Written p (dp ∷ dps) [] = ⊥
Written p (dp ∷ dps) (b ∷ bs) = (DataPoint.to_bytes p dp ≡ ok b) × Written p dps bs

pub Written-rev_append :
    (p : Platform) (dps acc : List (DataPoint p)) (bs bcc : List Bytes)
    → Written p dps bs
    → Written p acc bcc
    → Written p (rev_append dps acc) (rev_append bs bcc)
Written-rev_append p [] acc [] bcc h k = k
Written-rev_append p [] acc (b ∷ bs) bcc h k = absurd h
Written-rev_append p (dp ∷ dps) acc [] bcc h k = absurd h
Written-rev_append p (dp ∷ dps) acc (b ∷ bs) bcc h k =
    Written-rev_append p dps (dp ∷ acc) bs (b ∷ bcc) h.1 (h.0, k)

pub bytes_of_each-Written :
    (p : Platform) (dps : List (DataPoint p)) (bs : List Bytes)
    → bytes_of_each p dps ≡ ok bs
    → Written p dps bs
unfolding bytes_of_each
bytes_of_each-Written p [] [] h = tt
bytes_of_each-Written p [] (b ∷ bs) h = cc
bytes_of_each-Written p (dp ∷ dps) bs h =
    let (b, hb, h1) = >>=-eq-ok (DataPoint.to_bytes p dp) _ h in
    let (rest, hr, h2) = >>=-eq-ok (bytes_of_each p dps) _ h1 in
    subst (Written p (dp ∷ dps)) (ok_injective h2) (hb, bytes_of_each-Written p dps rest hr)

module _ (p : Platform) (laws : Lawful p) where
  readable_id :
      (t : Text) (b v : Bytes)
      → IsReadableId t
      → convert_string_to_bytes32 p t ≡ ok b
      → (length b ≡ 32) × (create_data_point p b v ≡ ok (new_data_point p t v none))
  unfolding convert_string_to_bytes32 create_data_point
  readable_id t b v r h =
      let short : ltb 31 (length t) ≡ false = ground (arith, r.0) in
      let formatted = library-ok (p.format_bytes32_string t) (rw short at h) in
      let (u, decoded, kept) = laws.to_utf8_string-format t b formatted r.1 in
      (
        laws.length-format_bytes32_string t b formatted,
        rw decoded (ap (λ x. ok (new_data_point p x v none)) kept),
      )

  written_point :
      (dp : DataPoint p) (c : Bytes)
      → DataPoint.to_bytes p dp ≡ ok c
      → (b : Bytes) × (convert_string_to_bytes32 p dp.data_feed_id ≡ ok b) × (c ≡ b ++ dp.value)
  unfolding DataPoint.to_bytes serialize_data_feed_id
  written_point dp c h =
      let (b, hb, h1) = >>=-eq-ok (serialize_data_feed_id p dp) _ h in
      (b, hb, sym (ok_injective h1) ∙ (laws.concat_lem _ ∙ ap (λ v. b ++ v) (append-nil dp.value)))

  pub written_size :
      (dp : DataPoint p) (c : Bytes)
      → IsReadableId dp.data_feed_id
      → DataPoint.to_bytes p dp ≡ ok c
      → length c ≡ 32 + length dp.value
  written_size dp c r h =
      let (b, hb, hc) = written_point dp c h in
      let (long, made) = readable_id dp.data_feed_id b dp.value r hb in
      rw (hc, length-append) (omega (arith, long))

  -- The rest of a point that was read, behind its id and its value.
  pub extract_data_points-Written :
      (data_bytes front back : Bytes) (dps : List (DataPoint p)) (cs : List Bytes)
      (size negative_offset : ℕ) (id : Text) (acc : List (DataPoint p))
      → Written p dps cs
      → All (λ dp. IsReadableId dp.data_feed_id × (length dp.value ≡ size)) dps
      → data_bytes ≡ front ++ (flatten_rev cs ++ back)
      → negative_offset ≡ length back
      → extract_data_points p data_bytes (length dps) size negative_offset id acc
        ≡ ok (package_id_after p id dps, rev_append (map (reread_point p) dps) acc)
  unfolding extract_data_points
  extract_data_points-Written data_bytes front back [] cs size off id acc w ok_points e q = refl
  extract_data_points-Written data_bytes front back (dp ∷ dps) [] size off id acc w ok_points e q =
      absurd w
  extract_data_points-Written data_bytes front back (dp ∷ dps) (c ∷ cs) size off id acc w ok_points
        e q =
      let (b, hb, hc) = written_point dp c w.0 in
      let (long, made) = readable_id dp.data_feed_id b dp.value ok_points.0.0 hb in
      let layout : data_bytes ≡ front ++ (flatten_rev cs ++ (b ++ (dp.value ++ back))) =
        e ∙ rw hc (simp append_assoc) in
      let value : slice_back data_bytes off size ≡ dp.value =
        slice_back-mid data_bytes (front ++ (flatten_rev cs ++ b)) dp.value back off size
          (layout ∙ simp append_assoc) q (sym ok_points.0.1) in
      let offset : off + size ≡ length (dp.value ++ back) =
        rw length-append (omega (arith, q, ok_points.0.1)) in
      let feed : slice_back data_bytes (off + size) data_feed_id_bs ≡ b =
        slice_back-mid data_bytes (front ++ flatten_rev cs) b (dp.value ++ back) (off + size)
          data_feed_id_bs (layout ∙ simp append_assoc) offset (sym long) in
      rw (feed, value, made)
        (extract_data_points-Written data_bytes front (b ++ (dp.value ++ back)) dps cs size
          (off + size + data_feed_id_bs) (next_package_id id dp.data_feed_id)
          (reread_point p dp ∷ acc) w.1 ok_points.1 layout
          (rw length-append (omega (arith, offset, long))))

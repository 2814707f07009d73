-- ===== src/Protocol/Slices.antt =====
-- Slices that are taken from the end of a byte array.
use redstone_oracles_monorep.Prelude.{
  ℕ, ◌+◌, ◌-◌, ◌≤◌, ◌≡◌, ap, ◌∙◌, ◌++◌, arith, length, take, drop, sub_ℕ, slice, pos, slice_index,
  length-append, take-append_left, drop-append_left,
}
use redstone_oracles_monorep.Protocol.Platform.{Bytes}
use redstone_oracles_monorep.Protocol.Parser.{slice_back}

slice_index-sub : (n k : ℕ) → k ≤ n → slice_index n (sub_ℕ n k) ≡ n - k
slice_index-sub n k h = ground arith

slice_at :
    (front mid back : Bytes) (from to : ℕ)
    → from ≡ length front
    → to ≡ length mid
    → take to (drop from (front ++ (mid ++ back))) ≡ mid
slice_at front mid back from to p q =
    rw (p, q) (rw (drop-append_left front (mid ++ back)) (take-append_left mid back))

-- A slice is the part of the array whose length and distance from the end it names.
pub slice_back-mid :
    (data_bytes front mid back : Bytes) (negative_offset len : ℕ)
    → data_bytes ≡ front ++ (mid ++ back)
    → negative_offset ≡ length back
    → len ≡ length mid
    → slice_back data_bytes negative_offset len ≡ mid
unfolding slice_back
slice_back-mid data_bytes front mid back off len e p q =
    rw (from, to)
      (ap
          (λ xs.
            take (length data_bytes - off - (length data_bytes - (off + len)))
              (drop (length data_bytes - (off + len)) xs))
          e
        ∙ slice_at front mid back _ _ (omega (arith, total)) (omega (arith, total)))
  where
    total : length data_bytes ≡ length front + (length mid + length back)
    total =
        ap length e
        ∙ (length-append front (mid ++ back) ∙ ap (λ k. length front + k) (length-append mid back))

    from :
        slice_index (length data_bytes) (sub_ℕ (length data_bytes) (off + len))
        ≡ length data_bytes - (off + len)
    from = slice_index-sub (length data_bytes) (off + len) (omega (arith, total))

    to : slice_index (length data_bytes) (sub_ℕ (length data_bytes) off) ≡ length data_bytes - off
    to = slice_index-sub (length data_bytes) off (omega (arith, total))

-- What stands before the part at a distance from the end.
pub slice-front :
    (data_bytes front back : Bytes) (negative_offset : ℕ)
    → data_bytes ≡ front ++ back
    → negative_offset ≡ length back
    → slice data_bytes (pos 0) (sub_ℕ (length data_bytes) negative_offset) ≡ front
slice-front data_bytes front back off e p =
    rw (slice_index-sub (length data_bytes) off (omega (arith, total))) (
      ap (λ xs. take (length data_bytes - off - 0) xs) e
      ∙ (ap (λ k. take k (front ++ back)) count ∙ take-append_left front back))
  where
    total : length data_bytes ≡ length front + length back
    total = ap length e ∙ length-append front back

    count : length data_bytes - off - 0 ≡ length front
    count = omega (arith, total)

-- ===== src/Prelude/Int.antt =====
-- Integers, and JavaScript's `slice`, whose bounds may be negative: they count from the end then.
use Prim.Native.Nat.{ℕ, suc, ◌-◌}
use mathlib.Core.List.{List}
use redstone_oracles_monorep.Prelude.Tests.{leb, if◌then◌else◌}
use redstone_oracles_monorep.Prelude.Lists.{length, take, drop}

-- `negsuc n` is -(n + 1).
pub data ℤ : Type 0 where
  pos : ℕ → ℤ
  negsuc : ℕ → ℤ

-- a - b, as an integer
abbrev pub sub_ℕ : ℕ → ℕ → ℤ
sub_ℕ a b = if leb b a then pos (a - b) else negsuc (b - a - 1)

abbrev pub pos_part : ℤ → ℕ
pos_part (pos n) = n
pos_part (negsuc n) = 0

abbrev pub neg_part : ℤ → ℕ
neg_part (pos n) = 0
neg_part (negsuc n) = suc n

-- The index that a bound of `slice` stands for in a sequence of `len` items.
abbrev pub slice_index : ℕ → ℤ → ℕ
slice_index len (pos n) = n
slice_index len (negsuc n) = len - suc n

-- `xs.slice(start, end)`
abbrev pub slice {ℓ} : {A : Type ℓ} → List A → ℤ → ℤ → List A
slice xs i j =
    let from = slice_index (length xs) i in
    let to = slice_index (length xs) j in take (to - from) (drop from xs)

-- `xs.slice(start)`
abbrev pub slice_from {ℓ} : {A : Type ℓ} → List A → ℤ → List A
slice_from xs i = drop (slice_index (length xs) i) xs

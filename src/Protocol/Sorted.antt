-- ===== src/Protocol/Sorted.antt =====
-- The order of the data points in the bytes of a package, as an order of byte strings of its own.
use Prim.Native.Nat.{Ordering}
use mathlib.Core.List.{Perm}
use redstone_oracles_monorep.Prelude.{
  ℕ, ◌<◌, true, false, ltb, List, [], ◌∷◌, ◌≡◌, refl, sym, ◌∙◌, inl, inr, ok, All, All-mono, arith,
  >>=-eq-ok, ok_injective, Bool-cases,
}
use redstone_oracles_monorep.Protocol.Platform.{Platform, Bytes}
use redstone_oracles_monorep.Protocol.DataPoint.{DataPoint, serialize_data_feed_id}
use redstone_oracles_monorep.Protocol.DataPackage.{compare_bytes, verdict, goes_before, sort_points}
use redstone_oracles_monorep.Protocol.Canonical.{
  IsAscending, sort_points-IsAscending, sort_points-Perm,
}

-- The order of a dictionary: the first byte that differs is smaller, or the string is a proper
-- beginning of the other.
pub data IsBefore : Bytes → Bytes → Type 0 where
  shorter : (y : ℕ) (ys : Bytes) → IsBefore [] (y ∷ ys)
  smaller : (x y : ℕ) (xs ys : Bytes) → x < y → IsBefore (x ∷ xs) (y ∷ ys)
  later : (x : ℕ) (xs ys : Bytes) → IsBefore xs ys → IsBefore (x ∷ xs) (x ∷ ys)

same_start :
    (x y : ℕ) (xs ys : Bytes)
    → ltb x y ≡ false
    → compare_bytes (x ∷ xs) (y ∷ ys) ≡ Ordering.lt
    → (x ≡ y) × (compare_bytes xs ys ≡ Ordering.lt)
unfolding compare_bytes
same_start x y xs ys h k = (ground (arith, h, k), ground (arith, h, k))

compare_bytes-IsBefore : (a b : Bytes) → compare_bytes a b ≡ Ordering.lt → IsBefore a b
unfolding compare_bytes
compare_bytes-IsBefore [] [] h = cc
compare_bytes-IsBefore [] (y ∷ ys) h = shorter y ys
compare_bytes-IsBefore (x ∷ xs) [] h = cc
compare_bytes-IsBefore (x ∷ xs) (y ∷ ys) h = elim (Bool-cases (ltb x y)) [
  | inl less ↦ smaller x y xs ys (ground (arith, less))
  | inr not_less ↦
      let (same, rest) = same_start x y xs ys not_less h in
      rw (← same) (later x xs ys (compare_bytes-IsBefore xs ys rest))
]

IsBefore-trans : {a b c : Bytes} → IsBefore a b → IsBefore b c → IsBefore a c
IsBefore-trans (shorter _ _) (smaller _ z _ zs k) = shorter z zs
IsBefore-trans (shorter _ _) (later y _ zs k) = shorter y zs
IsBefore-trans (smaller x y xs _ h) (smaller _ z _ zs k) = smaller x z xs zs (omega (arith, h, k))
IsBefore-trans (smaller x y xs _ h) (later _ _ zs k) = smaller x y xs zs h
IsBefore-trans (later x xs _ h) (smaller _ z _ zs k) = smaller x z xs zs k
IsBefore-trans (later x xs _ h) (later _ _ zs k) = later x xs zs (IsBefore-trans h k)

verdict-true : (o : Ordering) → verdict o ≡ ok true → o ≡ Ordering.lt
verdict-true Ordering.lt h = refl
verdict-true Ordering.eq h = cc
verdict-true Ordering.gt h = cc

module _ (p : Platform) where
  -- The bytes of the one point's id are before those of the other's.
  pub record HasIdBefore (d e : DataPoint p) : Type 0 where
    pub first_id : Bytes
    pub second_id : Bytes
    pub first_bytes : serialize_data_feed_id p d ≡ ok first_id
    pub second_bytes : serialize_data_feed_id p e ≡ ok second_id
    pub before : IsBefore first_id second_id

  -- Every point is before all that follow it.
  abbrev pub IsSortedById : List (DataPoint p) → Type 0
  IsSortedById [] = Unit
  IsSortedById (d ∷ ds) = All (HasIdBefore d) ds × IsSortedById ds

  goes_before-HasIdBefore : (d e : DataPoint p) → goes_before p d e ≡ ok true → HasIdBefore d e
  unfolding goes_before
  goes_before-HasIdBefore d e h =
      let (a, ha, h1) = >>=-eq-ok (serialize_data_feed_id p d) _ h in
      let (b, hb, h2) = >>=-eq-ok (serialize_data_feed_id p e) _ h1 in
      record {
        first_id = a;
        second_id = b;
        first_bytes = ha;
        second_bytes = hb;
        before = compare_bytes-IsBefore a b (verdict-true (compare_bytes a b) h2);
      }

  HasIdBefore-trans : (c d e : DataPoint p) → HasIdBefore c d → HasIdBefore d e → HasIdBefore c e
  HasIdBefore-trans c d e h k =
      let same : h.second_id ≡ k.first_id = ok_injective (sym h.second_bytes ∙ k.first_bytes) in
      let next : IsBefore h.second_id k.second_id = rw same k.before in
      record {
        first_id = h.first_id;
        second_id = k.second_id;
        first_bytes = h.first_bytes;
        second_bytes = k.second_bytes;
        before = IsBefore-trans h.before next;
      }

  IsAscending-IsSortedById : (ds : List (DataPoint p)) → IsAscending p ds → IsSortedById ds
  IsAscending-IsSortedById [] h = tt
  IsAscending-IsSortedById (d ∷ []) h = (tt, tt)
  IsAscending-IsSortedById (d ∷ e ∷ es) h =
      let rest = IsAscending-IsSortedById (e ∷ es) h.1 in
      let next = goes_before-HasIdBefore d e h.0 in
      (
        (next, All-mono (HasIdBefore e) (λ x after. HasIdBefore-trans d e x next after) es rest.0),
        rest,
      )

  -- Where the sort of the points succeeds, its result holds the same points, and the bytes of each
  -- point's id are before those of every later point in the order of a dictionary.
  pub sort_points_canonical :
      (dps r : List (DataPoint p)) → sort_points p dps ≡ ok r → Perm r dps × IsSortedById r
  sort_points_canonical dps r h =
      (sort_points-Perm p dps r h, IsAscending-IsSortedById r (sort_points-IsAscending p dps r h))

-- ===== src/Protocol/Canonical.antt =====
-- Sorting the data points of a package: the bytes of their ids ascend, the points are the same ones,
-- and sorting again changes nothing.
use Prim.Native.Nat.{Ordering}
use mathlib.Core.Path.{subst}
use mathlib.Core.List.{Perm}
use mathlib.Core.List.Perm
use redstone_oracles_monorep.Prelude.{
  if◌then◌else◌, length, suc, Bool, true, false, List, [], ◌∷◌, ◌≡◌, refl, sym, ap, ◌∙◌, ◌⊎◌, inl,
  inr, ok, ◌>>=◌, All, arith, >>=-eq-ok, ok_injective,
}
use redstone_oracles_monorep.Protocol.Platform.{Platform, Bytes}
use redstone_oracles_monorep.Protocol.DataPoint.{DataPoint, serialize_data_feed_id}
use redstone_oracles_monorep.Protocol.DataPackage.{
  compare_bytes, verdict, goes_before, insert_point, sort_points,
}

compare_bytes_flip :
    (a b : Bytes) → compare_bytes a b ≡ Ordering.gt → compare_bytes b a ≡ Ordering.lt
unfolding compare_bytes
compare_bytes_flip [] [] h = cc
compare_bytes_flip [] (y ∷ ys) h = cc
compare_bytes_flip (x ∷ xs) [] h = refl
compare_bytes_flip (x ∷ xs) (y ∷ ys) h = ground (arith, compare_bytes_flip xs ys)

verdict-false : (o : Ordering) → verdict o ≡ ok false → o ≡ Ordering.gt
verdict-false Ordering.lt h = cc
verdict-false Ordering.eq h = cc
verdict-false Ordering.gt h = refl

module _ (p : Platform) where
  goes_before-verdict :
      (d e : DataPoint p) (a b : Bytes)
      → serialize_data_feed_id p d ≡ ok a
      → serialize_data_feed_id p e ≡ ok b
      → goes_before p d e ≡ verdict (compare_bytes a b)
  unfolding goes_before
  goes_before-verdict d e a b ha hb = rw (ha, hb)

  goes_before_flip :
      (d e : DataPoint p) → goes_before p d e ≡ ok false → goes_before p e d ≡ ok true
  unfolding goes_before
  goes_before_flip d e h =
      let (a, ha, h1) = >>=-eq-ok (serialize_data_feed_id p d) _ h in
      let (b, hb, h2) = >>=-eq-ok (serialize_data_feed_id p e) _ h1 in
      goes_before-verdict e d b a hb ha
      ∙ ap verdict (compare_bytes_flip a b (verdict-false (compare_bytes a b) h2))

  -- The first item of the list, if there is one, comes after the point.
  abbrev pub Precedes : DataPoint p → List (DataPoint p) → Type 0
  Precedes d [] = Unit
  Precedes d (e ∷ es) = goes_before p d e ≡ ok true

  abbrev pub IsAscending : List (DataPoint p) → Type 0
  IsAscending [] = Unit
  IsAscending (d ∷ ds) = Precedes d ds × IsAscending ds

  -- What inserting before a list with a first item did.
  abbrev Inserted : DataPoint p → DataPoint p → List (DataPoint p) → List (DataPoint p) → Type 0
  Inserted d e es r =
      ((goes_before p d e ≡ ok true) × (r ≡ d ∷ e ∷ es))
      ⊎ ((rest : List (DataPoint p)) × (goes_before p d e ≡ ok false)
          × (insert_point p d es ≡ ok rest)
          × (r ≡ e ∷ rest))

  insert_point-branch :
      (d e : DataPoint p) (es r : List (DataPoint p)) (first : Bool)
      → goes_before p d e ≡ ok first
      → (if first then ok (d ∷ e ∷ es) else (do rest ← insert_point p d es; ok (e ∷ rest))) ≡ ok r
      → Inserted d e es r
  insert_point-branch d e es r true g h = inl (g, cc)
  insert_point-branch d e es r false g h =
      let (rest, inserted, h1) = >>=-eq-ok (insert_point p d es) _ h in
      inr (rest, g, inserted, cc h1)

  insert_point-Inserted :
      (d e : DataPoint p) (es r : List (DataPoint p))
      → insert_point p d (e ∷ es) ≡ ok r
      → Inserted d e es r
  unfolding insert_point
  insert_point-Inserted d e es r h =
      let (first, g, h1) = >>=-eq-ok (goes_before p d e) _ h in
      insert_point-branch d e es r first g h1

  insert_point-nil :
      (d : DataPoint p) (r : List (DataPoint p)) → insert_point p d [] ≡ ok r → d ∷ [] ≡ r
  unfolding insert_point
  insert_point-nil d r h = ok_injective h

  insert_point-Precedes :
      (y d : DataPoint p) (es r : List (DataPoint p))
      → insert_point p d es ≡ ok r
      → Precedes y es
      → goes_before p y d ≡ ok true
      → Precedes y r
  insert_point-Precedes y d [] r h k b = subst (Precedes y) (insert_point-nil d r h) b
  insert_point-Precedes y d (e ∷ es) r h k b = elim (insert_point-Inserted d e es r h) [
    | inl (g, same) ↦ subst (Precedes y) (sym same) b
    | inr (rest, g, inserted, same) ↦ subst (Precedes y) (sym same) k
  ]

  insert_point-IsAscending :
      (d : DataPoint p) (es r : List (DataPoint p))
      → insert_point p d es ≡ ok r
      → IsAscending es
      → IsAscending r
  insert_point-IsAscending d [] r h k = subst IsAscending (insert_point-nil d r h) (tt, tt)
  insert_point-IsAscending d (e ∷ es) r h k = elim (insert_point-Inserted d e es r h) [
    | inl (g, same) ↦ subst IsAscending (sym same) (g, k)
    | inr (rest, g, inserted, same) ↦ subst IsAscending (sym same) (
      insert_point-Precedes e d es rest inserted k.0 (goes_before_flip d e g),
      insert_point-IsAscending d es rest inserted k.1,
    )
  ]

  -- The ids of sorted points ascend strictly by their bytes.
  pub sort_points-IsAscending :
      (dps r : List (DataPoint p)) → sort_points p dps ≡ ok r → IsAscending r
  unfolding sort_points
  sort_points-IsAscending [] r h = subst IsAscending (ok_injective h) tt
  sort_points-IsAscending (d ∷ dps) r h =
      let (sorted, h1, h2) = >>=-eq-ok (sort_points p dps) _ h in
      insert_point-IsAscending d sorted r h2 (sort_points-IsAscending dps sorted h1)

  insert_point-first :
      (d : DataPoint p) (es : List (DataPoint p))
      → Precedes d es
      → insert_point p d es ≡ ok (d ∷ es)
  unfolding insert_point
  insert_point-first d [] h = refl
  insert_point-first d (e ∷ es) h = rw h

  pub sort_points_fixed : (dps : List (DataPoint p)) → IsAscending dps → sort_points p dps ≡ ok dps
  unfolding sort_points
  sort_points_fixed [] h = refl
  sort_points_fixed (d ∷ dps) h = rw (sort_points_fixed dps h.1) (insert_point-first d dps h.0)

  -- What holds of every point holds of every point after the sort.
  insert_point-All :
      (P : DataPoint p → Type 0) (d : DataPoint p) (es r : List (DataPoint p))
      → insert_point p d es ≡ ok r
      → P d
      → All P es
      → All P r
  insert_point-All P d [] r h k ks = subst (All P) (insert_point-nil d r h) (k, tt)
  insert_point-All P d (e ∷ es) r h k ks = elim (insert_point-Inserted d e es r h) [
    | inl (g, same) ↦ subst (All P) (sym same) (k, ks)
    | inr (rest, g, inserted, same) ↦
        subst (All P) (sym same) (ks.0, insert_point-All P d es rest inserted k ks.1)
  ]

  pub sort_points-All :
      (P : DataPoint p → Type 0) (dps r : List (DataPoint p))
      → sort_points p dps ≡ ok r
      → All P dps
      → All P r
  unfolding sort_points
  sort_points-All P [] r h ks = subst (All P) (ok_injective h) tt
  sort_points-All P (d ∷ dps) r h ks =
      let (sorted, h1, h2) = >>=-eq-ok (sort_points p dps) _ h in
      insert_point-All P d sorted r h2 ks.0 (sort_points-All P dps sorted h1 ks.1)

  insert_point-Perm :
      (d : DataPoint p) (es r : List (DataPoint p)) → insert_point p d es ≡ ok r → Perm r (d ∷ es)
  insert_point-Perm d [] r h = subst (λ l. Perm l (d ∷ [])) (insert_point-nil d r h) (Perm.refl _)
  insert_point-Perm d (e ∷ es) r h = elim (insert_point-Inserted d e es r h) [
    | inl (g, same) ↦ subst (λ l. Perm l (d ∷ e ∷ es)) (sym same) (Perm.refl _)
    | inr (rest, g, inserted, same) ↦
        subst (λ l. Perm l (d ∷ e ∷ es)) (sym same)
          (Perm.trans (Perm.cons e (insert_point-Perm d es rest inserted)) (Perm.swap d e es))
  ]

  pub sort_points-Perm : (dps r : List (DataPoint p)) → sort_points p dps ≡ ok r → Perm r dps
  unfolding sort_points
  sort_points-Perm [] r h = subst (λ l. Perm l []) (ok_injective h) (Perm.refl [])
  sort_points-Perm (d ∷ dps) r h =
      let (sorted, h1, h2) = >>=-eq-ok (sort_points p dps) _ h in
      Perm.trans (insert_point-Perm d sorted r h2) (Perm.cons d (sort_points-Perm dps sorted h1))

  insert_point-length :
      (d : DataPoint p) (es r : List (DataPoint p))
      → insert_point p d es ≡ ok r
      → length r ≡ suc (length es)
  insert_point-length d [] r h = sym (ap length (insert_point-nil d r h))
  insert_point-length d (e ∷ es) r h = elim (insert_point-Inserted d e es r h) [
    | inl (g, same) ↦ ap length same
    | inr (rest, g, inserted, same) ↦
        ap length same ∙ ap suc (insert_point-length d es rest inserted)
  ]

  pub sort_points-length :
      (dps r : List (DataPoint p)) → sort_points p dps ≡ ok r → length r ≡ length dps
  unfolding sort_points
  sort_points-length [] r h = sym (ap length (ok_injective h))
  sort_points-length (d ∷ dps) r h =
      let (sorted, h1, h2) = >>=-eq-ok (sort_points p dps) _ h in
      insert_point-length d sorted r h2 ∙ ap suc (sort_points-length dps sorted h1)

-- ===== src/Sdk/Sorting.antt =====
-- The sort that stands for JavaScript's: its result has the same items and is sorted.
use redstone_oracles_monorep.Prelude.{
  ℕ, zero, suc, ◌≤◌, Bool, true, false, List, [], ◌∷◌, length, take, drop, filter, All, ◌≡◌, refl,
  ◌∙◌, arith, Bool-cases, inl, inr,
}
use redstone_oracles_monorep.Sdk.Closest.{insert_by, sort_by}

-- How many items satisfy a test.
abbrev pub count {ℓ} : {A : Type ℓ} → (A → Bool) → List A → ℕ
count p xs = length (filter p xs)

module _ {A : Type 0} where
  pub count-take : (p : A → Bool) (n : ℕ) (xs : List A) → count p (take n xs) ≤ count p xs
  count-take p zero xs = omega arith
  count-take p (suc n) [] = omega arith
  count-take p (suc n) (x ∷ xs) = ground (arith, count-take p n xs)

  module _ (before : A → A → Bool) where
    count-insert_by :
        (p : A → Bool) (x : A) (xs : List A) → count p (insert_by before x xs) ≡ count p (x ∷ xs)
    count-insert_by p x [] = refl
    count-insert_by p x (y ∷ ys) = ground (arith, count-insert_by p x ys)

    pub count-sort_by : (p : A → Bool) (xs : List A) → count p (sort_by before xs) ≡ count p xs
    count-sort_by p [] = refl
    count-sort_by p (x ∷ xs) =
        count-insert_by p x (sort_by before xs) ∙ ground (arith, count-sort_by p xs)

    length-insert_by : (x : A) (xs : List A) → length (insert_by before x xs) ≡ length (x ∷ xs)
    length-insert_by x [] = refl
    length-insert_by x (y ∷ ys) = ground (arith, length-insert_by x ys)

    pub length-sort_by : (xs : List A) → length (sort_by before xs) ≡ length xs
    length-sort_by [] = refl
    length-sort_by (x ∷ xs) =
        omega (arith, length-insert_by x (sort_by before xs), length-sort_by xs)

    -- No item stands behind one that must stand behind it.
    abbrev pub Sorted : List A → Type 0
    Sorted [] = Unit {0}
    Sorted (x ∷ xs) = All (λ y. before y x ≡ false) xs × Sorted xs

    All-insert_by :
        (P : A → Type 0) (x : A) (ys : List A) → P x → All P ys → All P (insert_by before x ys)
    All-insert_by P x [] h k = (h, tt)
    All-insert_by P x (y ∷ ys) h k = elim (Bool-cases (before y x)) [
      | inl behind ↦ rw behind (k.0, All-insert_by P x ys h k.1)
      | inr stays ↦ rw stays (h, k)
    ]

    pub All-sort_by : (P : A → Type 0) (xs : List A) → All P xs → All P (sort_by before xs)
    All-sort_by P [] h = tt
    All-sort_by P (x ∷ xs) h = All-insert_by P x (sort_by before xs) h.0 (All-sort_by P xs h.1)

    -- The comparison is a strict weak order.
    module _ (asymmetric : (x y : A) → before x y ≡ true → before y x ≡ false)
        (chained : (x y z : A) → before y x ≡ false → before z y ≡ false → before z x ≡ false) where
      All-chained :
          (x y : A) (ys : List A)
          → before y x ≡ false
          → All (λ z. before z y ≡ false) ys
          → All (λ z. before z x ≡ false) ys
      All-chained x y [] h k = tt
      All-chained x y (z ∷ ys) h k = (chained x y z h k.0, All-chained x y ys h k.1)

      insert_by-Sorted : (x : A) (ys : List A) → Sorted ys → Sorted (insert_by before x ys)
      insert_by-Sorted x [] sorted = (tt, tt)
      insert_by-Sorted x (y ∷ ys) sorted = elim (Bool-cases (before y x)) [
        | inl behind ↦ rw behind (
          All-insert_by (λ z. before z y ≡ false) x ys (asymmetric y x behind) sorted.0,
          insert_by-Sorted x ys sorted.1,
        )
        | inr stays ↦ rw stays ((stays, All-chained x y ys stays sorted.0), sorted)
      ]

      pub sort_by-Sorted : (xs : List A) → Sorted (sort_by before xs)
      sort_by-Sorted [] = tt
      sort_by-Sorted (x ∷ xs) = insert_by-Sorted x (sort_by before xs) (sort_by-Sorted xs)

    All-drop : (P : A → Type 0) (n : ℕ) (xs : List A) → All P xs → All P (drop n xs)
    All-drop P zero xs h = h
    All-drop P (suc n) [] h = tt
    All-drop P (suc n) (x ∷ xs) h = All-drop P n xs h.1

    pub Sorted-take-drop :
        (n : ℕ) (xs : List A)
        → Sorted xs
        → All (λ near. All (λ far. before far near ≡ false) (drop n xs)) (take n xs)
    Sorted-take-drop zero xs sorted = tt
    Sorted-take-drop (suc n) [] sorted = tt
    Sorted-take-drop (suc n) (x ∷ xs) sorted =
        (All-drop (λ far. before far x ≡ false) n xs sorted.0, Sorted-take-drop n xs sorted.1)

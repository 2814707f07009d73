-- ===== src/Mqtt/Subscriber/Stores.antt =====
-- What holds of all pairs of a map holds of those that are read, and stays true when a
-- pair with it is written.
use redstone_oracles_monorep.Prelude.{
  ℕ, true, some, List, [], ◌∷◌, All, ◌≡◌, refl, ◌==◌, arith, Bool-cases, inl, inr,
}
use redstone_oracles_monorep.Mqtt.Subscriber.State.{map_get, map_set}

pub same_key : (a b : ℕ) → (a == b) ≡ true → a ≡ b
same_key a b h = ground arith

module _ (P : ℕ × ℕ → Type 0) where
  pub All-map_get :
      (m : List (ℕ × ℕ)) (key val : ℕ) → map_get m key ≡ some val → All P m → P (key, val)
  All-map_get [] key val h all = cc
  All-map_get ((k, v) ∷ m) key val h all = elim (Bool-cases (k == key)) [
    | inl here ↦
        let e : some v ≡ some val = rw (← h) (rw here refl) in
        let same : v ≡ val = cc in rw (← same, ← same_key k key here) all.0
    | inr there ↦
        let e : map_get m key ≡ some val = rw (← h) (rw there refl) in All-map_get m key val e all.1
  ]

  pub All-map_set :
      (m : List (ℕ × ℕ)) (key val : ℕ) → All P m → P (key, val) → All P (map_set m key val)
  All-map_set [] key val all h = (h, tt)
  All-map_set ((k, v) ∷ m) key val all h = elim (Bool-cases (k == key)) [
    | inl here ↦ rw here (rw (same_key k key here) h, all.1)
    | inr there ↦ rw there (all.0, All-map_set m key val all.1 h)
  ]

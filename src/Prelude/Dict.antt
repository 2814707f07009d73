-- ===== src/Prelude/Dict.antt =====
-- A JavaScript object that serves as a dictionary. Assigning a new key puts it last, assigning a
-- present key keeps its place, which is the order of `Object.keys` for keys that are no array
-- index.
use mathlib.Core.Path.{◌≡◌, refl}
use mathlib.Core.Bool.{true}
use mathlib.Core.Logic.{inl, inr}
use mathlib.Core.Option.{Option, none, some}
use mathlib.Core.List.{List, [], ◌∷◌}
use Prim.Native.String.{String}
use native.Mathlib.Omega.{arith}
use text.Mathlib.TextEquality.{eq_iff}
use redstone_oracles_monorep.Prelude.Lists.{any, All}
use redstone_oracles_monorep.Prelude.Tests.{str_eq, is_some, if◌then◌else◌, Bool-cases}

abbrev pub Dict {ℓ} : Type ℓ → Type ℓ
Dict V = List (String × V)

module _ {ℓ} {V : Type ℓ} where
  -- `d[k]`
  unfoldable pub get : Dict V → String → Option V
  get [] k = none
  get ((j, v) ∷ d) k = if str_eq j k then some v else get d k

  -- `d[k] = v`
  unfoldable pub put : Dict V → String → V → Dict V
  put [] k v = (k, v) ∷ []
  put ((j, w) ∷ d) k v = let rest = put d k v in if str_eq j k then (j, v) ∷ d else (j, w) ∷ rest

  -- `delete d[k]`
  unfoldable pub remove : Dict V → String → Dict V
  remove [] k = []
  remove ((j, w) ∷ d) k = let rest = remove d k in if str_eq j k then rest else (j, w) ∷ rest

  -- `Object.keys(d)`
  unfoldable pub keys : Dict V → List String
  keys [] = []
  keys ((j, w) ∷ d) = j ∷ keys d

module _ {ℓ} {V : Type ℓ} where
  -- The entry of `key` after an assignment to `changed`.
  pub get-put :
      (obj : Dict V) (changed key : String) (val : V)
      → get (put obj changed val) key ≡ (if str_eq changed key then some val else get obj key)
  unfolding get put
  get-put [] changed key val = refl
  get-put ((i, w) ∷ obj) changed key val =
      ground
        (arith, get-put obj changed key val, eq_iff changed key, eq_iff i changed, eq_iff i key)

  -- The entry of `key` after `changed` is deleted.
  pub get-remove :
      (obj : Dict V) (changed key : String)
      → get (remove obj changed) key ≡ (if str_eq changed key then none else get obj key)
  unfolding get remove
  get-remove [] changed key = ground arith
  get-remove ((i, w) ∷ obj) changed key =
      ground (arith, get-remove obj changed key, eq_iff changed key, eq_iff i changed, eq_iff i key)

  pub any-keys : (d : Dict V) (k : String) → any (λ j. str_eq j k) (keys d) ≡ is_some (get d k)
  unfolding get keys
  any-keys [] k = refl
  any-keys ((j, v) ∷ d) k = ground (arith, any-keys d k)

same_name : (a b : String) → str_eq a b ≡ true → a ≡ b
same_name a b h = ground (arith, eq_iff a b)

-- What holds of all entries holds of one that is read, and stays true when one with it is written.
module _ {V : Type 0} (P : String × V → Type 0) where
  pub All-get :
      (d : Dict V) (key : String) (val : V) → get d key ≡ some val → All P d → P (key, val)
  unfolding get
  All-get [] key val h all = cc
  All-get ((k, v) ∷ d) key val h all = elim (Bool-cases (str_eq k key)) [
    | inl here ↦
        let e : some v ≡ some val = rw (← h) (rw here refl) in
        let same : v ≡ val = cc in rw (← same, ← same_name k key here) all.0
    | inr there ↦
        let e : get d key ≡ some val = rw (← h) (rw there refl) in All-get d key val e all.1
  ]

  pub All-put :
      (d : Dict V) (key : String) (val : V) → All P d → P (key, val) → All P (put d key val)
  unfolding put
  All-put [] key val all h = (h, tt)
  All-put ((k, v) ∷ d) key val all h = elim (Bool-cases (str_eq k key)) [
    | inl here ↦ rw here (rw (same_name k key here) h, all.1)
    | inr there ↦ rw there (all.0, All-put d key val all.1 h)
  ]
